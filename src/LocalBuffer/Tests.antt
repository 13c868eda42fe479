-- ===== src/LocalBuffer/Tests.antt =====
-- A table that never fails and one that cannot delete, which meet what is assumed of SQLite, and
-- the theorems about the buffer at small inputs.
use orbis_agent_desktop.Base.{
  ℕ, zero, suc, ◌<◌, ◌≤◌, ◌≡◌, refl, Text, text, Bool, true, false, List, [], ◌∷◌, ◌++◌, none, some,
  c_string, length, take, drop, keep, not, ◌==◌, All, arith, All-append,
}
use orbis_agent_desktop.LocalBuffer.{store, flush, Progress, buffer_max_messages}
use orbis_agent_desktop.LocalBuffer.Database.{Sqlite, Row, Laws, NeverFails, Ascending}
use orbis_agent_desktop.LocalBuffer.Bounds.{rows-store, length-store}
use orbis_agent_desktop.LocalBuffer.Flush.{drain, flush-drain, flush-stuck}

pub record Table : Type 0 where
  pub contents : List Row
  next : ℕ
  below : All (λ r. r.id < next) contents
  rising : Ascending contents

pub All-below_suc : (n : ℕ) (rs : List Row) → All (λ r. r.id < n) rs → All (λ r. r.id < suc n) rs
All-below_suc n [] h = tt
All-below_suc n (r ∷ rs) h = (omega arith, All-below_suc n rs h.1)

pub All-keep : (P : Row → Type 0) (p : Row → Bool) (rs : List Row) → All P rs → All P (keep p rs)
All-keep P p [] h = tt
All-keep P p (r ∷ rs) h = ground (arith, All-keep P p rs h.1)

pub Ascending-keep : (p : Row → Bool) (rs : List Row) → Ascending rs → Ascending (keep p rs)
Ascending-keep p [] h = tt
Ascending-keep p (r ∷ rs) h =
    ground (arith, Ascending-keep p rs h.1, All-keep (λ x. r.id < x.id) p rs h.0)

pub All-drop : (P : Row → Type 0) (n : ℕ) (rs : List Row) → All P rs → All P (drop n rs)
All-drop P zero rs h = h
All-drop P (suc n) [] h = tt
All-drop P (suc n) (r ∷ rs) h = All-drop P n rs h.1

pub Ascending-drop : (n : ℕ) (rs : List Row) → Ascending rs → Ascending (drop n rs)
Ascending-drop zero rs h = h
Ascending-drop (suc n) [] h = tt
Ascending-drop (suc n) (r ∷ rs) h = Ascending-drop n rs h.1

pub Ascending-snoc :
    (x : Row) (rs : List Row) → All (λ r. r.id < x.id) rs → Ascending rs → Ascending (rs ++ x ∷ [])
Ascending-snoc x [] h k = (tt, tt)
Ascending-snoc x (r ∷ rs) h k =
    (All-append (λ y. r.id < y.id) rs (x ∷ []) k.0 (h.0, tt), Ascending-snoc x rs h.1 k.1)

abbrev add_row : Table → Text → Text → ℕ → Table
add_row t topic payload now = record {
  contents = t.contents ++ row ∷ [];
  next = suc t.next;
  below =
      All-append (λ r. r.id < suc t.next) t.contents (row ∷ [])
        (All-below_suc t.next t.contents t.below) (omega arith, tt);
  rising = Ascending-snoc row t.contents t.below t.rising;
}
  where
    row : Row
    row = record { id = t.next; topic = topic; payload = payload; timestamp = now; attempts = 0 }

abbrev without : Table → ℕ → Table
without t id = record {
  contents = keep (λ r. not (r.id == id)) t.contents;
  next = t.next;
  below = All-keep (λ r. r.id < t.next) (λ r. not (r.id == id)) t.contents t.below;
  rising = Ascending-keep (λ r. not (r.id == id)) t.contents t.rising;
}

abbrev without_oldest : Table → ℕ → Table
without_oldest t n = record {
  contents = drop n t.contents;
  next = t.next;
  below = All-drop (λ r. r.id < t.next) n t.contents t.below;
  rising = Ascending-drop n t.contents t.rising;
}

abbrev pub table_db : Sqlite
table_db = record {
  Db = Table;
  rows = λ t. t.contents;
  open_file = λ _. some (record { contents = []; next = 1; below = tt; rising = tt });
  create_table = λ t. some t;
  pragmas = λ t. t;
  count = λ t. some (length t.contents);
  select_oldest = λ t n. some (take n t.contents);
  insert = λ t topic payload now. some (add_row t topic payload now);
  delete_id = λ t id. some (without t id);
  delete_oldest = λ t n. some (without_oldest t n);
}

same_contents : (t u : Table) → some t ≡ some u → u.contents ≡ t.contents
same_contents t u e = cc

pub table_db-Laws : Laws table_db
table_db-Laws = record {
  ascending = λ t. t.rising;
  count_rows = λ t n e. ground arith;
  select_rows = λ t n rs e. ground arith;
  insert_rows =
      λ t t' topic payload now e. (t.next, same_contents (add_row t topic payload now) t' e);
  delete_id_rows = λ t t' id e. same_contents (without t id) t' e;
  delete_oldest_rows = λ t t' n e. same_contents (without_oldest t n) t' e;
}

pub table_db-NeverFails : NeverFails table_db
table_db-NeverFails = record {
  counts = λ t. (length t.contents, refl);
  selects = λ t n. (take n t.contents, refl);
  inserts = λ t topic payload now. (add_row t topic payload now, refl);
  deletes = λ t id. (without t id, refl);
  prunes = λ t n. (without_oldest t n, refl);
}

abbrev pub empty_table : Table
empty_table = record { contents = []; next = 1; below = tt; rising = tt }

abbrev pub two_rows : Table
two_rows = add_row (add_row empty_table (text "t") (text "a") 5) (text "t") (text "b") 6

-- A connection that takes a number of messages and then is lost.
abbrev limited : ℕ → Text → Text → Bool × ℕ
limited zero topic payload = (false, zero)
limited (suc n) topic payload = (true, n)

abbrev pub up : Unit {0} → Text → Text → Bool × Unit {0}
up w topic payload = (true, w)

-- A table on a disk that has become read-only.
abbrev stuck_db : Sqlite
stuck_db = record table_db { delete_id = λ t id. none }

rows-store_example :
    (id : ℕ) × ((store table_db two_rows (text "t") (text "c") 7).contents
      ≡ two_rows.contents
        ++ record { id = id; topic = text "t"; payload = text "c"; timestamp = 7; attempts = 0 }
          ∷ [])
unfolding c_string text
rows-store_example =
    rows-store table_db table_db-Laws table_db-NeverFails two_rows (text "t") (text "c") 7

length-store_example :
    length (store table_db two_rows (text "t") (text "c") 7).contents ≤ buffer_max_messages
length-store_example =
    length-store table_db table_db-Laws table_db-NeverFails two_rows (text "t") (text "c") 7
      (omega arith)

flush-drain_example :
    (p : Progress table_db limited) × (flush table_db limited 3 1 two_rows ≡ some p)
    × (drain table_db limited 1 two_rows.contents 0 ≡ (p.world, p.flushed, p.db.contents))
flush-drain_example =
    flush-drain table_db limited table_db-Laws table_db-NeverFails 3 1 two_rows (omega arith)

flush-stuck_example : flush stuck_db up 1000 tt two_rows ≡ none
flush-stuck_example =
    flush-stuck stuck_db up (λ w t p. refl) (λ d id. refl) 1000 tt two_rows
      (record { id = 1; topic = text "t"; payload = text "a"; timestamp = 5; attempts = 0 })
      (drop 1 two_rows.contents) refl
