-- ===== src/Scanner/Cidr.antt =====
-- The hosts that a scan of the local network visits.
use orbis_agent_desktop.Base.{
  ◌⊎◌, ℕ, zero, suc, ◌+◌, ◌-◌, ◌^◌, ◌%◌, ◌≤◌, ◌<◌, min, ◌≡◌, refl, ap, ◌∙◌, Bool, true, false, ◌||◌,
  List, [], ◌∷◌, ◌++◌, Option, none, some, Text, text, text_eq, find, length, drop, take-append,
  ltb, ◌==◌, ==_iff, arith, holds_below, instance_of, All, subst, ◌≢◌, sym,
}
use orbis_agent_desktop.Base.Int.{ℤ, pos, negsuc}
use orbis_agent_desktop.Base.Decimal.{nat_to_text}
use orbis_agent_desktop.Base.Stoi.{stoi}
use orbis_agent_desktop.Scanner.{
  Inet, Interface, prefix_bits, detect_local_subnet, first_subnet, subnet, hosts_from, expand,
  expand_cidr,
}
use mathlib.Core.Option
use native.Mathlib.Nat.{pow-le-pow_right}
use Prim.Native.Nat.{bit_and}

-- The mask of a prefix.
abbrev pub mask_of : ℕ → ℕ
mask_of bits = 2 ^ 32 - 2 ^ (32 - bits)

abbrev is_some : Option ℕ → ℕ → Bool
is_some none k = false
is_some (some n) k = n == k

abbrev is_pos : Option ℤ → ℕ → Bool
is_pos none k = false
is_pos (some (pos n)) k = n == k
is_pos (some (negsuc n)) k = false

is_some_eq : (o : Option ℕ) (k : ℕ) → is_some o k ≡ true → o ≡ some k
is_some_eq none k h = ground arith
is_some_eq (some n) k h = ap some ((==_iff n k).0 h)

is_pos_eq : (o : Option ℤ) (k : ℕ) → is_pos o k ≡ true → o ≡ some (pos k)
is_pos_eq none k h = ground arith
is_pos_eq (some (pos n)) k h = ap (λ m. some (pos m)) ((==_iff n k).0 h)
is_pos_eq (some (negsuc n)) k h = ground arith

prefix_bits-mask_of : (bits : ℕ) → bits ≤ 32 → prefix_bits 33 (mask_of bits) ≡ some bits
prefix_bits-mask_of bits h = is_some_eq _ bits (
    instance_of (λ k. is_some (prefix_bits 33 (mask_of k)) k) 33 bits
      (unfold holds_below prefix_bits in refl) (omega arith))

stoi-nat_to_text : (n : ℕ) → n ≤ 32 → stoi (nat_to_text n) ≡ some (pos n)
stoi-nat_to_text n h = is_pos_eq _ n (
    instance_of (λ k. is_pos (stoi (nat_to_text k)) k) 33 n
      (unfold holds_below stoi nat_to_text in refl) (omega arith))

-- No character of the text is a slash.
abbrev pub NoSlash : Text → Type 0
NoSlash t = All (λ c. (b'/' == c) ≡ false) t

find-slash : (t s : Text) → NoSlash t → find (text "/") (t ++ (text "/" ++ s)) ≡ some (length t)
unfolding find text
find-slash [] s h = refl
find-slash (c ∷ t) s h = rw h.0 (ap (Option.map suc) (find-slash t s h.1))

after_slash : (t s : Text) → drop (length t + 1) (t ++ (text "/" ++ s)) ≡ s
unfolding text
after_slash [] s = refl
after_slash (c ∷ t) s =
    subst (λ n. drop n (c ∷ (t ++ (text "/" ++ s))) ≡ s) {x = suc (length t + 1)}
      {y = suc (length t) + 1} (omega arith) (after_slash t s)

-- What is documented of the functions on addresses: the text has no slash and reads back.
pub record InetLaws (inet : Inet) : Type 0 where
  pub no_slash : (n : ℕ) → NoSlash (inet.inet_ntop n)
  pub reads_back : (n : ℕ) → n < 2 ^ 32 → inet.inet_pton (inet.inet_ntop n) ≡ n

-- A text of an address that is above the network's and below its broadcast address.
abbrev pub IsHost : Inet → ℕ → ℕ → Text → Type 0
IsHost inet net bits t =
    (k : ℕ) × (0 < k) × (k < 2 ^ (32 - bits) - 1) × (t ≡ inet.inet_ntop ((net + k) % 2 ^ 32))

-- No two of the texts are the same.
abbrev pub Distinct : List Text → Type 0
Distinct [] = Unit {0}
Distinct (t ∷ ts) = All (λ u. t ≢ u) ts × Distinct ts

module _ (inet : Inet) (laws : InetLaws inet) where
  hosts_from-later :
      (net j i n : ℕ)
      → j < i
      → i + n ≤ 2 ^ 16
      → All (λ u. inet.inet_ntop ((net + j) % 2 ^ 32) ≢ u) (hosts_from inet net i n)
  unfolding hosts_from
  hosts_from-later net j i zero h room = tt
  hosts_from-later net j i (suc n) h room = (
    (λ e.
        let a = laws.reads_back ((net + j) % 2 ^ 32) (omega arith) in
        let b = laws.reads_back ((net + i) % 2 ^ 32) (omega arith) in
        let same : (net + j) % 2 ^ 32 ≡ (net + i) % 2 ^ 32 = sym a ∙ ap inet.inet_pton e ∙ b in
        absurd (omega (arith, same, h, room))),
    hosts_from-later net j (i + 1) n (omega (arith, h)) (omega (arith, room)),
  )

  hosts_from-Distinct : (net i n : ℕ) → i + n ≤ 2 ^ 16 → Distinct (hosts_from inet net i n)
  unfolding hosts_from
  hosts_from-Distinct net i zero room = tt
  hosts_from-Distinct net i (suc n) room = (
    hosts_from-later net i (i + 1) n (omega arith) (omega (arith, room)),
    hosts_from-Distinct net (i + 1) n (omega (arith, room)),
  )

  hosts_from-IsHost :
      (net bits i n : ℕ)
      → 0 < i
      → i + n < 2 ^ (32 - bits)
      → (length (hosts_from inet net i n) ≡ n)
        × All (IsHost inet net bits) (hosts_from inet net i n)
  unfolding hosts_from
  hosts_from-IsHost net bits i zero p h = (refl, tt)
  hosts_from-IsHost net bits i (suc n) p h =
      let (l, hs) = hosts_from-IsHost net bits (i + 1) n (omega arith) (omega (arith, h)) in
      (ap suc l, ((i, p, omega (arith, h), refl), hs))

  expand_cidr-subnet :
      (net bits : ℕ)
      → net < 2 ^ 32
      → bits ≤ 32
      → expand_cidr inet (inet.inet_ntop net ++ (text "/" ++ nat_to_text bits))
        ≡ some (expand inet net (pos bits))
  unfolding expand_cidr
  expand_cidr-subnet net bits v h =
      let t = inet.inet_ntop net in
      let s = nat_to_text bits in
      rw (find-slash t s (laws.no_slash net), expand_cidr)
        (rw (after_slash t s) (
          rw (stoi-nat_to_text bits h)
            (rw (take-append (length t) t (text "/" ++ s) refl) (rw (laws.reads_back net v) refl))))

  detect_local_subnet-named :
      (i : Interface) (is : List Interface) (address bits : ℕ)
      → text_eq i.name (text "lo") ≡ false
      → i.ipv4 ≡ some (address, mask_of bits)
      → bits ≤ 32
      → detect_local_subnet inet (some (i ∷ is))
        ≡ inet.inet_ntop (bit_and address (mask_of bits)) ++ (text "/" ++ nat_to_text bits)
  unfolding detect_local_subnet first_subnet subnet
  detect_local_subnet-named i is address bits named addressed h =
      rw (addressed, first_subnet) (rw named (rw (prefix_bits-mask_of bits h) refl))

  -- The 32-bit network of the first interface, where that is not `lo` and its mask has 16 to 30
  -- leading ones, is written and read back as that prefix, and the scan visits as many different hosts as
  -- the network has, or 254 where there are more, each above the address of the network and below
  -- its broadcast address, where an address has no slash in its text and is read back from it.
  pub expand_cidr-first_subnet :
      (i : Interface) (is : List Interface) (address bits : ℕ)
      → text_eq i.name (text "lo") ≡ false
      → i.ipv4 ≡ some (address, mask_of bits)
      → 16 ≤ bits
      → bits ≤ 30
      → bit_and address (mask_of bits) < 2 ^ 32
      → (hosts : List Text) × (expand_cidr inet (detect_local_subnet inet (some (i ∷ is)))
          ≡ some hosts)
        × (length hosts ≡ min (2 ^ (32 - bits) - 2) 254)
        × All (IsHost inet (bit_and address (mask_of bits)) bits) hosts
        × Distinct hosts
  unfolding expand
  expand_cidr-first_subnet i is address bits named addressed l h v =
      let net = bit_and address (mask_of bits) in
      let read : expand_cidr inet (detect_local_subnet inet (some (i ∷ is)))
          ≡ some (expand inet net (pos bits)) =
        rw (detect_local_subnet-named i is address bits named addressed (omega arith))
          (expand_cidr-subnet net bits v (omega arith)) in
      let in_range : (ltb bits 16 || ltb 30 bits) ≡ false = ground (arith, l, h) in
      let room : 2 ^ 2 ≤ 2 ^ (32 - bits) =
        pow-le-pow_right (omega arith) {i = 2} (omega (arith, h)) in
      let (count, hosts) =
        hosts_from-IsHost net bits 1 (min (2 ^ (32 - bits) - 2) 254) (omega arith)
          (omega (arith, room)) in
      (
        expand inet net (pos bits),
        read,
        rw in_range count,
        rw in_range hosts,
        rw in_range (hosts_from-Distinct net 1 (min (2 ^ (32 - bits) - 2) 254) (omega arith)),
      )

  -- The network of a first interface whose mask has less than 16 or 31 or 32 leading ones is not
  -- scanned, under the same conditions on interface and addresses.
  expand_cidr_other_size :
      (i : Interface) (is : List Interface) (address bits : ℕ)
      → text_eq i.name (text "lo") ≡ false
      → i.ipv4 ≡ some (address, mask_of bits)
      → (bits < 16) ⊎ (30 < bits)
      → bits ≤ 32
      → bit_and address (mask_of bits) < 2 ^ 32
      → expand_cidr inet (detect_local_subnet inet (some (i ∷ is))) ≡ some []
  expand_cidr_other_size i is address bits named addressed w h v =
      let net = bit_and address (mask_of bits) in
      rw (detect_local_subnet-named i is address bits named addressed h)
        (expand_cidr-subnet net bits v h ∙ ap some (unfold expand in ground (arith, w)))
