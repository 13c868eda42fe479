-- ===== src/Base/Files.antt =====
-- The files of a machine, by their paths, and the calls of `std::filesystem` on them. A fault is what
-- the system reports of a call that it refuses.
use orbis_agent_desktop.Base.Bytes.{Text, text, text_eq, text_eq_refl, text_eq_ne}
use orbis_agent_desktop.Base.Tests.{if◌then◌else◌}
use Prim.Native.Nat.{ℕ}
use mathlib.Core.Path.{◌≡◌, ◌∙◌, refl, sym, ap}
use mathlib.Core.Logic.{◌≢◌}
use mathlib.Core.Option.{Option, none, some}
use mathlib.Core.List.{List}

abbrev pub Files : Type 0
Files = Text → Option (List ℕ)

unfoldable pub write : Files → Text → List ℕ → Files
write fs path content p = if text_eq p path then some content else fs p

unfoldable pub remove : Files → Text → Files
remove fs path p = if text_eq p path then none else fs p

-- How a copy fails: the text of the exception, and what the target then has, from what it had. A copy
-- that opened its target has truncated it, and may have written a part.
pub record Fault : Type 0 where
  pub what : Text
  pub left : Option (List ℕ) → Option (List ℕ)

pub data Copied : Type 0 where
  copied : Files → Copied
  refused : Text → Files → Copied

unfoldable pub spoil : Files → Text → Fault → Files
spoil fs path fault p = if text_eq p path then fault.left (fs p) else fs p

unfoldable pub copy_content : Files → Text → Option (List ℕ) → Copied
copy_content fs to none = refused (text "No such file or directory") fs
copy_content fs to (some content) = copied (write fs to content)

-- `fs::copy_file(from, to, overwrite_existing)`
unfoldable pub copy_file : Files → Text → Text → Option Fault → Copied
unfolding copy_content spoil
copy_file fs from to none = copy_content fs to (fs from)
copy_file fs from to (some fault) = refused fault.what (spoil fs to fault)

pub write_self :
    (fs : Files) (path : Text) (content : List ℕ) → write fs path content path ≡ some content
unfolding write
write_self fs path content = rw (text_eq_refl path)

pub write_ne :
    (fs : Files) (path p : Text) (content : List ℕ) → p ≢ path → write fs path content p ≡ fs p
unfolding write
write_ne fs path p content h = rw (text_eq_ne p path h)

pub remove_ne : (fs : Files) (path p : Text) → p ≢ path → remove fs path p ≡ fs p
unfolding remove
remove_ne fs path p h = rw (text_eq_ne p path h)

-- A copy that succeeds had a source, and changes the target alone.
pub copy_file_copied :
    (fs fs' : Files) (from to : Text) (fault : Option Fault)
    → copy_file fs from to fault ≡ copied fs'
    → (content : List ℕ) × (fs from ≡ some content) × (fs' ≡ write fs to content)
unfolding copy_file
copy_file_copied fs fs' from to (some x) e = cc
copy_file_copied fs fs' from to none e = go (fs from) refl e
  where
    go :
        (o : Option (List ℕ))
        → fs from ≡ o
        → copy_content fs to o ≡ copied fs'
        → (content : List ℕ) × (fs from ≡ some content) × (fs' ≡ write fs to content)
    go none p q = cc
    go (some content) p q = (content, p, cc)

pub spoil_self :
    (fs : Files) (path : Text) (fault : Fault) → spoil fs path fault path ≡ fault.left (fs path)
unfolding spoil
spoil_self fs path fault = rw (text_eq_refl path)

pub spoil_ne :
    (fs : Files) (path p : Text) (fault : Fault) → p ≢ path → spoil fs path fault p ≡ fs p
unfolding spoil
spoil_ne fs path p fault h = rw (text_eq_ne p path h)

-- A copy that fails changes the target alone.
pub copy_file-refused :
    (fs fs' : Files) (from to what p : Text) (fault : Option Fault)
    → copy_file fs from to fault ≡ refused what fs'
    → p ≢ to
    → fs' p ≡ fs p
unfolding copy_file
copy_file-refused fs fs' from to what p (some x) e h =
    let same : spoil fs to x ≡ fs' = cc in ap (λ (f : Files). f p) (sym same) ∙ spoil_ne fs to p x h
copy_file-refused fs fs' from to what p none e h = go (fs from) e
  where
    go : (o : Option (List ℕ)) → copy_content fs to o ≡ refused what fs' → fs' p ≡ fs p
    go none q = let same : fs ≡ fs' = cc in ap (λ (f : Files). f p) (sym same)
    go (some content) q = cc
