-- ===== src/Json.antt =====
-- The JSON library that the agent uses, as a parameter of the components that call it, and the
-- results of calls that may throw.
use orbis_agent_desktop.Base.{Text, List, ◌≡◌, refl, ◌⊎◌, inl, inr, Option}
use orbis_agent_desktop.Base.Int.{ℤ}

-- A value, or the text of the `std::exception` that was thrown.
pub data Result {ℓ} (A : Type ℓ) : Type ℓ where
  ok : A → Result A
  err : Text → Result A

pub Result-cases {ℓ} :
    {A : Type ℓ} (r : Result A) → ((what : Text) × (r ≡ err what)) ⊎ ((a : A) × (r ≡ ok a))
Result-cases (ok a) = inr (a, refl)
Result-cases (err what) = inl (what, refl)

pub record JsonLib : Type 1 where
  pub Value : Type 0
  -- `json::parse`, which throws
  pub parse : Text → Result Value
  -- `j.value(key, default)`, which throws where `j` is no object or the value has another type
  pub value_text : Value → Text → Text → Result Text
  pub value_int : Value → Text → ℤ → Result ℤ
  pub value_json : Value → Text → Value → Result Value
  -- `is_array`, with the elements; `contains(key)`, with the member
  pub elements : Value → Option (List Value)
  pub member : Value → Text → Option Value
  pub null : Value
  pub of_text : Text → Value
  pub of_int : ℤ → Value
  -- An object from its keys in the order of assignment, and an array.
  pub object : List (Text × Value) → Value
  pub array : List Value → Value
  -- `j.dump()`, which throws where a text is not valid UTF-8
  pub dump : Value → Result Text

-- Every document can be written: no text in it is invalid UTF-8.
pub record AlwaysDumps (json : JsonLib) : Type 0 where
  pub dumped : json.Value → Text
  pub dump_ok : (v : json.Value) → json.dump v ≡ ok (dumped v)
