-- ===== src/LocalBuffer/Flush.antt =====
-- What a flush delivers: the loop over batches against one pass over the stored rows.
use orbis_agent_desktop.Base.{
  zero, suc, ℕ, ◌+◌, ◌<◌, ◌≡◌, refl, ◌∙◌, Text, Bool, true, false, List, [], ◌∷◌, ◌++◌, keep, not,
  ◌==◌, All, arith, if◌then◌else◌, Bool-cases, subst, ◌⊎◌, inr, inl, take, length, some, suc, drop,
  sym, take-append-drop, ap, length-drop, none,
}
use orbis_agent_desktop.LocalBuffer.{
  after, Progress, flush_batch, flush_loop, buffer_flush_batch_size, flush,
}
use orbis_agent_desktop.LocalBuffer.Database.{Sqlite, Row, Laws, NeverFails, Ascending}

-- Removing the id of the first row of an ascending table takes that row only.
keep_all : (id : ℕ) (rs : List Row) → All (λ x. id < x.id) rs → keep (λ r. not (r.id == id)) rs ≡ rs
keep_all id [] h = refl
keep_all id (r ∷ rs) h = ground (arith, keep_all id rs h.1)

keep_tail :
    (r : Row) (rs : List Row) → Ascending (r ∷ rs) → keep (λ x. not (x.id == r.id)) (r ∷ rs) ≡ rs
keep_tail r rs h = ground (arith, keep_all r.id rs h.0)

module _ (s : Sqlite) {W : Type 0} (flush_fn : W → Text → Text → Bool × W) where
  -- The specification: publish the rows in order up to the first refusal; the world after that, the
  -- number published, the rows that stay.
  unfoldable pub drain : W → List Row → ℕ → W × ℕ × List Row
  drain w [] n = (w, n, [])
  drain w (r ∷ rs) n =
      let (published, w') = flush_fn w r.topic r.payload in
      let rest = drain w' rs (n + 1) in if published then rest else (w', n, r ∷ rs)

  abbrev outcome : Progress s flush_fn → W × ℕ × List Row
  outcome p = (p.world, p.flushed, s.rows p.db)

  -- Where a batch stands in the drain of the whole table.
  abbrev Batched : W × ℕ × List Row → List Row → Progress s flush_fn → Type 0
  Batched whole rest p =
      ((p.interrupted ≡ true) × (whole ≡ outcome p))
      ⊎ ((p.interrupted ≡ false) × (whole ≡ drain p.world rest p.flushed) × (s.rows p.db ≡ rest))

  module _ (laws : Laws s) (sound : NeverFails s) where
    delete_first :
        (d : s.Db) (r : Row) (rs : List Row)
        → s.rows d ≡ r ∷ rs
        → s.rows (after s d (s.delete_id d r.id)) ≡ rs
    delete_first d r rs e =
        let (d', p) = sound.deletes d r.id in
        rw p (
          laws.delete_id_rows d d' r.id p
          ∙ rw e (keep_tail r rs (subst Ascending e (laws.ascending d))))

    flush_batch-Batched :
        (w : W) (d : s.Db) (batch rest : List Row) (n : ℕ)
        → s.rows d ≡ batch ++ rest
        → Batched (drain w (batch ++ rest) n) rest (flush_batch s flush_fn w d batch n)
    unfolding flush_batch drain
    flush_batch-Batched w d [] rest n e = inr (refl, refl, e)
    flush_batch-Batched w d (r ∷ batch) rest n e =
        let (published, w') = flush_fn w r.topic r.payload in
        let ih =
          flush_batch-Batched w' (after s d (s.delete_id d r.id)) batch rest (n + 1)
            (delete_first d r (batch ++ rest) e) in
        elim (Bool-cases (flush_fn w r.topic r.payload).0) [
          | inl y ↦ rw y ih
          | inr y ↦ rw y (inl (refl, rw e))
        ]

    -- The loop, on this fuel, ends where the drain does.
    abbrev Drains : ℕ → W → s.Db → ℕ → Type 0
    Drains fuel w d n =
        (p : Progress s flush_fn) × (flush_loop s flush_fn fuel w d n ≡ some p)
        × (drain w (s.rows d) n ≡ outcome p)

    take-nil : (xs : List Row) → [] ≡ take buffer_flush_batch_size xs → xs ≡ []
    take-nil [] h = refl
    take-nil (x ∷ xs) h = cc

    flush_loop-step :
        (fuel : ℕ)
        → ((w : W) (d : s.Db) (n : ℕ) → length (s.rows d) < fuel → Drains fuel w d n)
        → (w : W) (d : s.Db) (n : ℕ) (rs : List Row)
        → s.select_oldest d buffer_flush_batch_size ≡ some rs
        → length (s.rows d) < suc fuel
        → Drains (suc fuel) w d n
    unfolding flush_loop drain
    flush_loop-step fuel ih w d n [] e h = (
      record { world = w; db = d; flushed = n; interrupted = false },
      rw (e, flush_loop),
      rw (take-nil (s.rows d) (laws.select_rows d buffer_flush_batch_size [] e)),
    )
    flush_loop-step fuel ih w d n (r ∷ batch) e h =
        let rest = drop buffer_flush_batch_size (s.rows d) in
        let split : s.rows d ≡ (r ∷ batch) ++ rest =
          sym (take-append-drop buffer_flush_batch_size (s.rows d))
          ∙ ap (λ xs. xs ++ rest)
              (sym (laws.select_rows d buffer_flush_batch_size (r ∷ batch) e)) in
        let p = flush_batch s flush_fn w d (r ∷ batch) n in
        elim (flush_batch-Batched w d (r ∷ batch) rest n split) [
          | inl (stopped, whole) ↦ (p, rw (e, flush_loop) (rw stopped), rw split whole)
          | inr (going, whole, left) ↦
              let (q, ran, spec) = ih p.world p.db p.flushed (
                rw left (
                  omega
                    (arith, length-drop buffer_flush_batch_size (s.rows d), ap length split, h))) in
              (
                q,
                rw (e, flush_loop) (rw going ran),
                ap (λ rs. drain w rs n) split
                    ∙ (whole ∙ subst (λ rs. drain p.world rs p.flushed ≡ outcome q) left spec),
              )
        ]

    flush_loop-Drains :
        (fuel : ℕ) (w : W) (d : s.Db) (n : ℕ) → length (s.rows d) < fuel → Drains fuel w d n
    flush_loop-Drains zero w d n h = absurd (omega arith)
    flush_loop-Drains (suc fuel) w d n h =
        let (rs, e) = sound.selects d buffer_flush_batch_size in
        flush_loop-step fuel (flush_loop-Drains fuel) w d n rs e h

    -- Where no statement fails and the fuel passes the number of stored rows, a flush ends; it
    -- publishes the rows oldest first up to the first refusal, counts those published, and leaves
    -- exactly the others, in order.
    pub flush-drain :
        (fuel : ℕ) (w : W) (d : s.Db)
        → length (s.rows d) < fuel
        → (p : Progress s flush_fn) × (flush s flush_fn fuel w d ≡ some p)
          × (drain w (s.rows d) 0 ≡ (p.world, p.flushed, s.rows p.db))
    unfolding flush
    flush-drain fuel w d h = flush_loop-Drains fuel w d 0 h

    drain_all :
        ((w : W) (t p : Text) → (flush_fn w t p).0 ≡ true)
        → (w : W) (rs : List Row) (n : ℕ)
        → ((drain w rs n).1 ≡ n + length rs) × ((drain w rs n).2 ≡ [])
    unfolding drain
    drain_all up w [] n = (omega arith, refl)
    drain_all up w (r ∷ rs) n =
        let ih = drain_all up (flush_fn w r.topic r.payload).1 rs (n + 1) in
        rw (up w r.topic r.payload) (omega (arith, ih.0), ih.1)

    -- Where no statement fails and the fuel passes the number of stored rows, a flush with a
    -- connection that takes every message ends, empties the buffer, and returns the number of rows
    -- that were in it.
    flush_connected :
        ((w : W) (t p : Text) → (flush_fn w t p).0 ≡ true)
        → (fuel : ℕ) (w : W) (d : s.Db) → length (s.rows d) < fuel
        → (p : Progress s flush_fn) × (flush s flush_fn fuel w d ≡ some p)
          × (p.flushed ≡ length (s.rows d))
          × (s.rows p.db ≡ [])
    flush_connected up fuel w d h =
        let (p, ran, spec) = flush-drain fuel w d h in
        let (count, left) = drain_all up w (s.rows d) 0 in
        (
          p,
          ran,
          omega (arith, count, ap (λ (o : W × ℕ × List Row). o.1) spec),
          sym (ap (λ (o : W × ℕ × List Row). o.2) spec) ∙ left,
        )

  -- A connection that takes every message, over a table that cannot delete.
  module _ (up : (w : W) (t p : Text) → (flush_fn w t p).0 ≡ true)
      (stuck : (d : s.Db) (id : ℕ) → s.delete_id d id ≡ none) where
    flush_batch-stuck :
        (w : W) (d : s.Db) (batch : List Row) (n : ℕ)
        → ((flush_batch s flush_fn w d batch n).db ≡ d)
          × ((flush_batch s flush_fn w d batch n).interrupted ≡ false)
    unfolding flush_batch
    flush_batch-stuck w d [] n = (refl, refl)
    flush_batch-stuck w d (r ∷ batch) n =
        rw (up w r.topic r.payload, stuck d r.id)
          (flush_batch-stuck (flush_fn w r.topic r.payload).1 d batch (n + 1))

    flush_loop-stuck :
        (fuel : ℕ) (w : W) (d : s.Db) (n : ℕ) (r : Row) (batch : List Row)
        → s.select_oldest d buffer_flush_batch_size ≡ some (r ∷ batch)
        → flush_loop s flush_fn fuel w d n ≡ none
    unfolding flush_loop
    flush_loop-stuck zero w d n r batch e = refl
    flush_loop-stuck (suc fuel) w d n r batch e =
        let p = flush_batch s flush_fn w d (r ∷ batch) n in
        let (same, going) = flush_batch-stuck w d (r ∷ batch) n in
        rw (e, flush_loop)
          (rw going (flush_loop-stuck fuel p.world p.db p.flushed r batch (rw same e)))

    -- Where the connection takes every message and no row can be deleted, a flush of a buffer that is not
    -- empty never ends, whatever the fuel.
    pub flush-stuck :
        (fuel : ℕ) (w : W) (d : s.Db) (r : Row) (batch : List Row)
        → s.select_oldest d buffer_flush_batch_size ≡ some (r ∷ batch)
        → flush s flush_fn fuel w d ≡ none
    unfolding flush
    flush-stuck fuel w d r batch e = flush_loop-stuck fuel w d 0 r batch e
