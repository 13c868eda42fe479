-- ===== src/LogCollector/Batches.antt =====
-- How a round's entries are cut into payloads.
use orbis_agent_desktop.Base.{
  ℕ, zero, suc, ◌+◌, ◌-◌, ◌≤◌, ◌<◌, min, ◌≡◌, refl, sym, ap, Bool, List, [], ◌∷◌, Text,
  if◌then◌else◌, length, take, drop, flatten, map, All, ltb, arith, take-append-drop, length-drop,
  length-take, drop_all, take_all, Bool-cases, inl, inr, ◌∙◌, subst, leb, text, true, false,
}
use orbis_agent_desktop.Json.{JsonLib, AlwaysDumps, ok, err}
use orbis_agent_desktop.LogCollector.System.{LogEntry}
use orbis_agent_desktop.LogCollector.{log_batch_max, item, send, finished, publish_loop}

-- The batches from `start` on.
pub batches : ℕ → List LogEntry → ℕ → List (List LogEntry)
batches zero entries start = []
batches (suc fuel) entries start =
    let rest = batches fuel entries (start + log_batch_max) in
    if ltb start (length entries) then take log_batch_max (drop start entries) ∷ rest else []

abbrev pub Sized : List LogEntry → Type 0
Sized b = (0 < length b) × (length b ≤ log_batch_max)

drop-drop {ℓ} : {A : Type ℓ} (m n : ℕ) (xs : List A) → drop m (drop n xs) ≡ drop (n + m) xs
drop-drop m zero xs = grind arith
drop-drop m (suc n) [] = drop_all m [] (omega arith) ∙ sym (drop_all (suc n + m) [] (omega arith))
drop-drop m (suc n) (x ∷ xs) =
    subst (λ k. drop m (drop n xs) ≡ drop k (x ∷ xs)) {x = suc (n + m)} {y = suc n + m}
      (omega arith) (drop-drop m n xs)

flatten-batches :
    (fuel : ℕ) (entries : List LogEntry) (start : ℕ)
    → length entries < fuel + start
    → flatten (batches fuel entries start) ≡ drop start entries
unfolding batches
flatten-batches zero entries start h = sym (drop_all start entries (omega arith))
flatten-batches (suc fuel) entries start h =
    let ih = flatten-batches fuel entries (start + log_batch_max) (omega (arith, h)) in
    elim (Bool-cases (ltb start (length entries))) [
      | inl e ↦ rw e (
          rw ih (
            rw (sym (drop-drop log_batch_max start entries))
              (take-append-drop log_batch_max (drop start entries))))
      | inr e ↦ rw e (sym (drop_all start entries (ground (arith, e))))
    ]

batches-Sized :
    (fuel : ℕ) (entries : List LogEntry) (start : ℕ) → All Sized (batches fuel entries start)
unfolding batches
batches-Sized zero entries start = tt
batches-Sized (suc fuel) entries start =
    let ih = batches-Sized fuel entries (start + log_batch_max) in
    elim (Bool-cases (ltb start (length entries))) [
      | inl e ↦ rw e (
        ground
            (arith, e, length-take log_batch_max (drop start entries), length-drop start entries),
        ih,
      )
      | inr e ↦ rw e tt
    ]

-- The window of the loop is a prefix of at most the batch size.
take_window :
    (n : ℕ) (entries : List LogEntry) (start : ℕ)
    → take (min (start + n) (length entries) - start) (drop start entries)
      ≡ take n (drop start entries)
take_window n entries start = elim (Bool-cases (leb (start + n) (length entries))) [
  | inl e ↦ ap (λ k. take k (drop start entries)) (ground (arith, e))
  | inr e ↦
      take_all (min (start + n) (length entries) - start) (drop start entries)
        (ground (arith, length-drop start entries, e))
      ∙ sym (take_all n (drop start entries) (ground (arith, length-drop start entries, e)))
]

module _ (json : JsonLib) (dumps : AlwaysDumps json) {W : Type 0}
    (publish_fn : W → Text → Text → Bool × W) (store_fn : W → Text → Text → W) where
  -- The document of an entry; metadata that is not JSON is an empty object.
  entry_doc : LogEntry → json.Value
  entry_doc e =
      let metadata : json.Value = elim (json.parse e.metadata_json) [
        | err what ↦ json.object []
        | ok v ↦ v
      ] in
      json.object (
        (text "device_id", json.of_text e.device_id)
        ∷ (text "timestamp", json.of_text e.timestamp)
        ∷ (text "level", json.of_text e.level)
        ∷ (text "source", json.of_text e.source)
        ∷ (text "message", json.of_text e.message)
        ∷ (text "metadata", metadata)
        ∷ [])

  abbrev payload_of : List LogEntry → Text
  payload_of b = dumps.dumped (json.array (map entry_doc b))

  -- A payload is published, and handed to the store function after a refusal only.
  published_or_stored : Bool × W → Text → Text → W
  published_or_stored (true, w) topic payload = w
  published_or_stored (false, w) topic payload = store_fn w topic payload

  -- The batches one after the other, each as one payload.
  pub deliver : Text → List (List LogEntry) → W → W
  deliver topic [] w = w
  deliver topic (b ∷ bs) w =
      deliver topic bs
        (published_or_stored (publish_fn w topic (payload_of b)) topic (payload_of b))

  item_lem : (e : LogEntry) → item json e ≡ entry_doc e
  unfolding item entry_doc
  item_lem e = refl

  map-item : (b : List LogEntry) → map (item json) b ≡ map entry_doc b
  map-item [] = refl
  map-item (e ∷ b) = rw (item_lem e) (ap (λ l. entry_doc e ∷ l) (map-item b))

  send_lem :
      (topic payload : Text) (w : W)
      → send json publish_fn store_fn topic payload w
        ≡ published_or_stored (publish_fn w topic payload) topic payload
  unfolding send published_or_stored
  send_lem topic payload w = go (publish_fn w topic payload)
    where
      go :
          (r : Bool × W)
          → (if r.0 then r.1 else store_fn r.1 topic payload) ≡ published_or_stored r topic payload
      go (true, v) = refl
      go (false, v) = refl

  publish_loop-batches :
      (fuel : ℕ) (topic : Text) (entries : List LogEntry) (start : ℕ) (w : W)
      → length entries ≤ fuel + start
      → publish_loop json publish_fn store_fn (suc fuel) topic entries start w
        ≡ (deliver topic (batches (suc fuel) entries start) w, finished)
  unfolding publish_loop batches deliver
  publish_loop-batches zero topic entries start w h =
      elim (Bool-cases (ltb start (length entries))) [
        | inl e ↦ absurd (ground (arith, e))
        | inr e ↦ rw e refl
      ]
  publish_loop-batches (suc fuel) topic entries start w h =
      let batch = take log_batch_max (drop start entries) in
      let b = map entry_doc batch in
      let p = payload_of batch in
      let w' = send json publish_fn store_fn topic p w in
      let ih =
        publish_loop-batches fuel topic entries (start + log_batch_max) w' (omega (arith, h)) in
      elim (Bool-cases (ltb start (length entries))) [
        | inl e ↦ rw e (
            rw (take_window log_batch_max entries start) (
              rw (map-item batch) (
                rw (dumps.dump_ok (json.array b)) (
                  ih
                  ∙ ap
                      (λ v. (
                        deliver topic (batches (suc fuel) entries (start + log_batch_max)) v,
                        finished,
                      ))
                      (send_lem topic p w)))))
        | inr e ↦ rw e refl
      ]

  -- The entries of a round reach the world in batches, in order and each once: no batch is empty
  -- or larger than the maximum, and the round ends. Each batch is given to the publish function as the
  -- array of the documents of its entries and, where that is refused, to the store function. No document may fail to be written as JSON.
  pub publish_loop_lem :
      (topic : Text) (entries : List LogEntry) (w : W)
      → (bs : List (List LogEntry)) × (flatten bs ≡ entries)
        × All Sized bs
        × (publish_loop json publish_fn store_fn (suc (length entries)) topic entries 0 w
            ≡ (deliver topic bs w, finished))
  publish_loop_lem topic entries w =
      let fuel = suc (length entries) in
      (
        batches fuel entries 0,
        flatten-batches fuel entries 0 (omega arith),
        batches-Sized fuel entries 0,
        publish_loop-batches (length entries) topic entries 0 w (omega arith),
      )
