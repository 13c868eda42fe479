-- ===== src/Plugins/Removal.antt =====
-- What a round of collection leaves loaded.
use orbis_agent_desktop.Base.{
  ℕ, ◌+◌, ◌≡◌, refl, ap, Bool, true, false, List, [], ◌∷◌, ◌++◌, if◌then◌else◌, length, keep, arith,
  append_assoc, length-append, flatten, subst,
}
use orbis_agent_desktop.Json.{JsonLib, Result, ok, err}
use orbis_agent_desktop.Plugins.{
  LoadedPlugin, PluginLogEntry, Event, Collected, unload_plugin, try_collect, collect_loop,
  unload_at, remove_all, collect_all,
}

module _ (json : JsonLib) (collect : LoadedPlugin → Collected) where
  -- Whether a plugin's round ended without an exception.
  abbrev no_exception : Result (List PluginLogEntry) → Bool
  no_exception (ok es) = true
  no_exception (err what) = false

  pub succeeds : LoadedPlugin → Bool
  succeeds p = no_exception (try_collect json collect p)

  abbrev entries_of : Result (List PluginLogEntry) → List PluginLogEntry
  entries_of (ok es) = es
  entries_of (err what) = []

  -- The entries of the plugins, in their order.
  pub collected : List LoadedPlugin → List PluginLogEntry
  collected [] = []
  collected (p ∷ ps) = entries_of (try_collect json collect p) ++ collected ps

  -- The plugins that failed are unloaded, the last one first.
  pub unloaded : List LoadedPlugin → List Event
  unloaded [] = []
  unloaded (p ∷ ps) = if succeeds p then unloaded ps else unloaded ps ++ unload_plugin p

  unload_at_middle :
      (pre : List LoadedPlugin) (p : LoadedPlugin) (ps : List LoadedPlugin)
      → unload_at (length pre) (pre ++ p ∷ ps) ≡ (pre ++ ps, unload_plugin p)
  unfolding unload_at
  unload_at_middle [] p ps = refl
  unload_at_middle (q ∷ pre) p ps = rw (unload_at_middle pre p ps)

  -- The indices of the loop, for a list whose first part the loop has passed.
  abbrev Removes : List LoadedPlugin → List LoadedPlugin → List ℕ → Type 0
  Removes pre ps indices = remove_all indices (pre ++ ps) ≡ (pre ++ keep succeeds ps, unloaded ps)

  remove-here :
      (pre : List LoadedPlugin) (p : LoadedPlugin) (ps kept : List LoadedPlugin) (indices : List ℕ)
      (events : List Event)
      → remove_all indices (pre ++ p ∷ ps) ≡ (pre ++ p ∷ kept, events)
      → remove_all (length pre ∷ indices) (pre ++ p ∷ ps) ≡ (pre ++ kept, events ++ unload_plugin p)
  unfolding remove_all
  remove-here pre p ps kept indices events h = rw h (rw (unload_at_middle pre p kept))

  remove-collect_loop_step :
      (pre : List LoadedPlugin) (p : LoadedPlugin) (ps : List LoadedPlugin) (i : ℕ)
      → i ≡ length pre
      → remove_all (collect_loop json collect (i + 1) ps).1 (pre ++ p ∷ ps)
        ≡ (pre ++ p ∷ keep succeeds ps, unloaded ps)
      → (r : Result (List PluginLogEntry)) → try_collect json collect p ≡ r
      → Removes pre (p ∷ ps) (collect_loop json collect i (p ∷ ps)).1
  unfolding succeeds unloaded collect_loop remove_all
  remove-collect_loop_step pre p ps i e tail (ok []) q = rw (q, collect_loop) tail
  remove-collect_loop_step pre p ps i e tail (ok (x ∷ es)) q = rw (q, collect_loop) tail
  remove-collect_loop_step pre p ps i e tail (err what) q =
      rw (q, collect_loop, e)
        (remove-here pre p ps (keep succeeds ps) (collect_loop json collect (length pre + 1) ps).1
          (unloaded ps) (rw e at tail))

  remove-collect_loop :
      (pre ps : List LoadedPlugin) (i : ℕ)
      → i ≡ length pre
      → Removes pre ps (collect_loop json collect i ps).1
  remove-collect_loop pre [] i e = unfold remove_all collect_loop unloaded in refl
  remove-collect_loop pre (p ∷ ps) i e =
      remove-collect_loop_step pre p ps i e
        (subst
          (λ xs.
            remove_all (collect_loop json collect (i + 1) ps).1 xs
            ≡ (pre ++ p ∷ keep succeeds ps, unloaded ps))
          (append_assoc pre (p ∷ []) ps)
          (subst
            (λ xs.
              remove_all (collect_loop json collect (i + 1) ps).1 ((pre ++ p ∷ []) ++ ps)
              ≡ (xs, unloaded ps))
            (append_assoc pre (p ∷ []) (keep succeeds ps))
            (remove-collect_loop (pre ++ p ∷ []) ps (i + 1)
              (omega (arith, e, length-append pre (p ∷ []))))))
        (try_collect json collect p) refl

  batches-collect_loop_step :
      (p : LoadedPlugin) (ps : List LoadedPlugin) (i : ℕ)
      → flatten (collect_loop json collect (i + 1) ps).0 ≡ collected ps
      → (r : Result (List PluginLogEntry)) → try_collect json collect p ≡ r
      → flatten (collect_loop json collect i (p ∷ ps)).0 ≡ collected (p ∷ ps)
  unfolding collected collect_loop try_collect
  batches-collect_loop_step p ps i tail (ok []) q = rw (q, collect_loop) tail
  batches-collect_loop_step p ps i tail (ok (x ∷ es)) q =
      rw (q, collect_loop) (ap (λ l. x ∷ es ++ l) tail)
  batches-collect_loop_step p ps i tail (err what) q = rw (q, collect_loop) tail

  batches-collect_loop :
      (ps : List LoadedPlugin) (i : ℕ) → flatten (collect_loop json collect i ps).0 ≡ collected ps
  batches-collect_loop [] i = unfold collect_loop collected in refl
  batches-collect_loop (p ∷ ps) i =
      batches-collect_loop_step p ps i (batches-collect_loop ps (i + 1))
        (try_collect json collect p) refl

  -- A round of collection unloads exactly the plugins whose collection ended with an exception, the
  -- last one first, and keeps the others in their order, although it erases by index; the
  -- callback receives the entries of the plugins in their order.
  pub collect_all_lem :
      (plugins : List LoadedPlugin)
      → let r = collect_all json collect plugins in
        (r.plugins ≡ keep succeeds plugins)
        × (r.events ≡ unloaded plugins)
        × (flatten r.batches ≡ collected plugins)
  unfolding collect_all
  collect_all_lem plugins =
      let h = remove-collect_loop [] plugins 0 refl in
      (ap (λ r. r.0) h, ap (λ r. r.1) h, batches-collect_loop plugins 0)
