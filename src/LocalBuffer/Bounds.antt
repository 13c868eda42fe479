-- ===== src/LocalBuffer/Bounds.antt =====
-- The capacity of the buffer and what a store keeps.
use orbis_agent_desktop.Base.{
  ℕ, ◌+◌, ◌-◌, ◌≤◌, ◌≡◌, Text, [], ◌∷◌, ◌++◌, length, drop, arith, length-append, length-drop, leb,
  if◌then◌else◌, ◌<◌, c_string,
}
use orbis_agent_desktop.LocalBuffer.{store, prune_if_needed, buffer_max_messages}
use orbis_agent_desktop.LocalBuffer.Database.{Sqlite, Laws, NeverFails}

-- How many rows a store of a table of `n` rows drops.
abbrev pub pruned : ℕ → ℕ
pruned n = if leb buffer_max_messages n then n - buffer_max_messages + 1000 else 0

module _ (s : Sqlite) (laws : Laws s) (sound : NeverFails s) where
  rows-prune :
      (d : s.Db) → s.rows (prune_if_needed s d) ≡ drop (pruned (length (s.rows d))) (s.rows d)
  unfolding prune_if_needed
  rows-prune d =
      let (n, e) = sound.counts d in
      let (d', p) = sound.prunes d (n - buffer_max_messages + 1000) in
      ground (
        arith,
        e,
        p,
        laws.count_rows d n e,
        laws.delete_oldest_rows d d' (n - buffer_max_messages + 1000) p,
      )

  -- Where no statement fails, a store drops the oldest rows if the table is at capacity, keeps the
  -- others in order, and puts the message last, its topic and payload up to their first NUL.
  pub rows-store :
      (d : s.Db) (topic payload : Text) (now : ℕ)
      → (id : ℕ) × (s.rows (store s d topic payload now)
          ≡ drop (pruned (length (s.rows d))) (s.rows d)
            ++ record {
              id = id;
              topic = c_string topic;
              payload = c_string payload;
              timestamp = now;
              attempts = 0;
            }
              ∷ [])
  unfolding store
  rows-store d topic payload now =
      let d₁ = prune_if_needed s d in
      let (d', e) = sound.inserts d₁ (c_string topic) (c_string payload) now in
      let (id, p) = laws.insert_rows d₁ d' (c_string topic) (c_string payload) now e in
      (id, rw e (rw p (rw (rows-prune d))))

  -- Where no statement fails, a store leads from a buffer within its capacity to one within its
  -- capacity.
  pub length-store :
      (d : s.Db) (topic payload : Text) (now : ℕ)
      → length (s.rows d) ≤ buffer_max_messages
      → length (s.rows (store s d topic payload now)) ≤ buffer_max_messages
  length-store d topic payload now h =
      let xs = s.rows d in
      let (id, e) = rows-store d topic payload now in
      rw e (
        rw (length-append (drop (pruned (length xs)) xs))
          (ground (arith, length-drop (pruned (length xs)) xs)))

  -- Below its capacity the buffer only appends.
  pub rows-store_room :
      (d : s.Db) (topic payload : Text) (now : ℕ)
      → length (s.rows d) < buffer_max_messages
      → (id : ℕ) × (s.rows (store s d topic payload now)
          ≡ s.rows d
            ++ record {
              id = id;
              topic = c_string topic;
              payload = c_string payload;
              timestamp = now;
              attempts = 0;
            }
              ∷ [])
  rows-store_room d topic payload now h =
      let (id, e) = rows-store d topic payload now in
      let none_pruned : pruned (length (s.rows d)) ≡ 0 = ground (arith, h) in
      (id, rw none_pruned at e)
