-- ===== src/LocalBuffer.antt =====
-- src/buffer/LocalBuffer.hpp and LocalBuffer.cpp: the persistent buffer of undelivered messages.
-- SQLite is a parameter. Each operation runs alone: the mutex guards every statement, and a store
-- between two steps of a flush is not modelled.
pub mod Database
pub mod Bounds
pub mod Flush
pub mod Tests
use orbis_agent_desktop.Base.{
  ℕ, zero, suc, ◌+◌, ◌-◌, Text, Bool, true, false, List, [], ◌∷◌, Option, none, some, leb,
  if◌then◌else◌, c_string,
}
use Database.{Sqlite, Row}

abbrev pub buffer_max_messages : ℕ
buffer_max_messages = 100000

abbrev pub buffer_flush_batch_size : ℕ
buffer_flush_batch_size = 50

pub data Error : Type 0 where
  cannot_open ddl_failed : Error

pub data Result {ℓ} (A : Type ℓ) : Type ℓ where
  ok : A → Result A
  err : Error → Result A

module _ (sqlite : Sqlite) where
  open sqlite use {Db}

  -- The results of the two pragmas are ignored.
  unfoldable pub init_db : Text → Result Db
  init_db db_path = elim (sqlite.open_file db_path) [
    | none ↦ err cannot_open
    | some d ↦ elim (sqlite.create_table d) [
      | none ↦ err ddl_failed
      | some d' ↦ ok (sqlite.pragmas d')
    ]
  ]

  -- A failed statement leaves the database as it was.
  abbrev pub after : Db → Option Db → Db
  after d none = d
  after d (some d') = d'

  pub prune_if_needed : Db → Db
  prune_if_needed d = elim (sqlite.count d) [
    | none ↦ d
    | some cnt ↦
        if leb buffer_max_messages cnt
        then after d (sqlite.delete_oldest d (cnt - buffer_max_messages + 1000))
        else d
  ]

  -- `now_ms` is the clock's reading. The texts are bound up to their first NUL.
  pub store : Db → Text → Text → ℕ → Db
  store d topic payload now_ms =
      let d' = prune_if_needed d in
      after d' (sqlite.insert d' (c_string topic) (c_string payload) now_ms)

  pub size : Db → ℕ
  size d = elim (sqlite.count d) [ none ↦ 0 | some n ↦ n ]

  -- `flush_fn_` acts on the world that it publishes to.
  module _ {W : Type 0} (flush_fn : W → Text → Text → Bool × W) where
    pub record Progress : Type 0 where
      pub world : W
      pub db : Db
      pub flushed : ℕ
      pub interrupted : Bool

    -- `for (auto& row : batch)`: a failed delete is ignored.
    pub flush_batch : W → Db → List Row → ℕ → Progress
    flush_batch w d [] flushed = record {
      world = w;
      db = d;
      flushed = flushed;
      interrupted = false;
    }
    flush_batch w d (row ∷ batch) flushed =
        let (published, w') = flush_fn w row.topic row.payload in
        let rest = flush_batch w' (after d (sqlite.delete_id d row.id)) batch (flushed + 1) in
        if published
        then rest
        else record { world = w'; db = d; flushed = flushed; interrupted = true }

    -- `while (true)`, on fuel: `none` is a loop that has not ended.
    pub flush_loop : ℕ → W → Db → ℕ → Option Progress
    flush_loop zero w d flushed = none
    flush_loop (suc fuel) w d flushed = elim (sqlite.select_oldest d buffer_flush_batch_size) [
      | none ↦ some (record { world = w; db = d; flushed = flushed; interrupted = false })
      | some [] ↦ some (record { world = w; db = d; flushed = flushed; interrupted = false })
      | some (row ∷ batch) ↦
          let p = flush_batch w d (row ∷ batch) flushed in
          let rest = flush_loop fuel p.world p.db p.flushed in
          if p.interrupted then some p else rest
    ]

    pub flush : ℕ → W → Db → Option Progress
    unfolding flush_loop
    flush fuel w d = flush_loop fuel w d 0
