-- ===== src/Executor/Effects.antt =====
-- The effects of the command executor's methods: what they publish and trigger, in order, the
-- readings of the clock, and the exception that may end them.
use orbis_agent_desktop.Base.{ℕ, ◌+◌, Text, List, [], ◌∷◌, ◌++◌}
use orbis_agent_desktop.Json.{Result, ok, err}

pub data Action : Type 0 where
  publish : Text → Text → Action
  collect_now : Action
  scan_now : Action
  -- The detached thread that runs `UpdateManager::update(command_id, url, sha256, version)`.
  start_update : Text → Text → Text → Text → Action

pub record Outcome {ℓ} (A : Type ℓ) : Type ℓ where
  pub result : Result A
  pub actions : List Action
  pub reads : ℕ

-- From the number of clock readings so far.
abbrev pub Exec {ℓ} : Type ℓ → Type ℓ
Exec A = ℕ → Outcome A

abbrev pub pure {ℓ} : {A : Type ℓ} → A → Exec A
pure a n = record { result = ok a; actions = []; reads = n }

abbrev pub lift {ℓ} : {A : Type ℓ} → Result A → Exec A
lift r n = record { result = r; actions = []; reads = n }

abbrev pub act : Action → Exec (Unit {0})
act a n = record { result = ok tt; actions = a ∷ []; reads = n }

-- The clock's reading, through a clock given as the sequence of its readings.
abbrev pub read : (ℕ → Text) → Exec Text
read now n = record { result = ok (now n); actions = []; reads = n + 1 }

abbrev pub continue {ℓ κ} :
    {A : Type ℓ} {B : Type κ} → Result A → List Action → ℕ → (A → Exec B) → Outcome B
continue (ok a) before n f =
    let o = f a n in record { result = o.result; actions = before ++ o.actions; reads = o.reads }
continue (err what) before n f = record { result = err what; actions = before; reads = n }

infixl 5 ◌>>=◌ ◌>>◌
abbrev pub ◌>>=◌ {ℓ κ} : {A : Type ℓ} {B : Type κ} → Exec A → (A → Exec B) → Exec B
◌>>=◌ m f n = let o = m n in continue o.result o.actions o.reads f

abbrev pub ◌>>◌ {ℓ} : {B : Type ℓ} → Exec (Unit {0}) → Exec B → Exec B
m >> k = m >>= λ _. k

-- `try { m } catch (const std::exception& e) { h(e.what()) }`
abbrev pub recover {ℓ} : {A : Type ℓ} → Result A → List Action → ℕ → (Text → Exec A) → Outcome A
recover (ok a) before n h = record { result = ok a; actions = before; reads = n }
recover (err what) before n h =
    let o = h what n in record { result = o.result; actions = before ++ o.actions; reads = o.reads }

abbrev pub catch {ℓ} : {A : Type ℓ} → Exec A → (Text → Exec A) → Exec A
catch m h n = let o = m n in recover o.result o.actions o.reads h
