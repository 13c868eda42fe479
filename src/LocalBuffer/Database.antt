-- ===== src/LocalBuffer/Database.antt =====
-- SQLite as the buffer uses it: one table of messages behind the statements of LocalBuffer.cpp.
-- A statement that fails, to prepare or to step, is `none`.
use orbis_agent_desktop.Base.{
  ℕ, ◌<◌, ◌≡◌, Text, List, [], ◌∷◌, ◌++◌, Option, some, length, take, drop, keep, not, ◌==◌, All,
}

pub record Row : Type 0 where
  pub id : ℕ
  pub topic : Text
  pub payload : Text
  pub timestamp : ℕ
  pub attempts : ℕ

pub record Sqlite : Type 1 where
  pub Db : Type 0
  -- The rows of `messages` in the order of their ids.
  pub rows : Db → List Row
  -- `sqlite3_open`, `CREATE TABLE IF NOT EXISTS`, the two pragmas
  pub open_file : Text → Option Db
  pub create_table : Db → Option Db
  pub pragmas : Db → Db
  -- `SELECT COUNT(*) FROM messages`
  pub count : Db → Option ℕ
  -- `SELECT id, topic, payload FROM messages ORDER BY id ASC LIMIT ?`
  pub select_oldest : Db → ℕ → Option (List Row)
  -- `INSERT INTO messages(topic, payload, timestamp, attempts) VALUES(?,?,?,0)`
  pub insert : Db → Text → Text → ℕ → Option Db
  -- `DELETE FROM messages WHERE id = ?`
  pub delete_id : Db → ℕ → Option Db
  -- `DELETE FROM messages WHERE id IN (SELECT id FROM messages ORDER BY id ASC LIMIT ?)`
  pub delete_oldest : Db → ℕ → Option Db

-- The ids rise along the list.
abbrev pub Ascending : List Row → Type 0
Ascending [] = Unit
Ascending (r ∷ rs) = All (λ x. r.id < x.id) rs × Ascending rs

-- What SQL says of the statements, where they succeed.
pub record Laws (s : Sqlite) : Type 0 where
  -- `id` is the primary key.
  pub ascending : (d : s.Db) → Ascending (s.rows d)
  pub count_rows : (d : s.Db) (n : ℕ) → s.count d ≡ some n → n ≡ length (s.rows d)
  pub select_rows :
      (d : s.Db) (n : ℕ) (rs : List Row) → s.select_oldest d n ≡ some rs → rs ≡ take n (s.rows d)
  -- AUTOINCREMENT gives an id above all others, so the new row comes last.
  pub insert_rows :
      (d d' : s.Db) (topic payload : Text) (now : ℕ)
      → s.insert d topic payload now ≡ some d'
      → (id : ℕ) × (s.rows d'
          ≡ s.rows d
            ++ record { id = id; topic = topic; payload = payload; timestamp = now; attempts = 0 }
              ∷ [])
  pub delete_id_rows :
      (d d' : s.Db) (id : ℕ)
      → s.delete_id d id ≡ some d'
      → s.rows d' ≡ keep (λ r. not (r.id == id)) (s.rows d)
  pub delete_oldest_rows :
      (d d' : s.Db) (n : ℕ) → s.delete_oldest d n ≡ some d' → s.rows d' ≡ drop n (s.rows d)

-- No statement fails: the disk is writable, not full and not locked by others.
pub record NeverFails (s : Sqlite) : Type 0 where
  pub counts : (d : s.Db) → (n : ℕ) × (s.count d ≡ some n)
  pub selects : (d : s.Db) (n : ℕ) → (rs : List Row) × (s.select_oldest d n ≡ some rs)
  pub inserts : (d : s.Db) (t p : Text) (now : ℕ) → (d' : s.Db) × (s.insert d t p now ≡ some d')
  pub deletes : (d : s.Db) (id : ℕ) → (d' : s.Db) × (s.delete_id d id ≡ some d')
  pub prunes : (d : s.Db) (n : ℕ) → (d' : s.Db) × (s.delete_oldest d n ≡ some d')
