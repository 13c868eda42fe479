-- ===== src/Heartbeat/Schedule.antt =====
-- When the heartbeat publishes.
use orbis_agent_desktop.Base.{
  ℕ, zero, suc, ◌+◌, ◌*◌, ◌≤◌, ◌<◌, min, ◌≡◌, refl, ◌∙◌, true, false, List, [], ◌∷◌, ◌++◌, some,
  Text, text, leb, leb→le, arith, Bool-cases, inl, inr, subst,
}
use orbis_agent_desktop.Json.{JsonLib, AlwaysDumps}
use orbis_agent_desktop.Heartbeat.{
  Publication, Metrics, status_doc, build_payload, beat, publication, sleep, run_loop, run,
}

module _ (json : JsonLib) (dumps : AlwaysDumps json) (device_id : Text) (interval_sec : ℕ)
    (metrics : ℕ → Metrics json) where
  sleep-min :
      (stop left now : ℕ)
      → now ≤ stop
      → sleep json device_id interval_sec metrics stop left now ≡ min (now + left) stop
  unfolding sleep
  sleep-min stop zero now h = omega (arith, h)
  sleep-min stop (suc left) now h = elim (Bool-cases (leb stop now)) [
    | inl e ↦ rw e (omega (arith, leb→le stop now e, h))
    | inr e ↦ rw e (sleep-min stop left (now + 1) (ground (arith, e, h)) ∙ omega arith)
  ]

  -- What is published with a status at a time.
  abbrev pub published : ℕ → Text → Publication
  published now status =
      publication json device_id interval_sec metrics
        (dumps.dumped (status_doc json device_id (metrics now) status))

  beat-published :
      (now : ℕ) (status : Text)
      → beat json device_id interval_sec metrics now status ≡ published now status ∷ []
  unfolding beat build_payload
  beat-published now status =
      rw (dumps.dump_ok (status_doc json device_id (metrics now) status), beat) refl

  -- The publications of the times at which the loop runs its body.
  pub online_beats : ℕ → ℕ → List Publication
  online_beats zero now = []
  online_beats (suc n) now = published now (text "online") ∷ online_beats n (now + interval_sec)

  run_loop_stopped :
      (stop fuel : ℕ)
      → 0 < fuel
      → run_loop json device_id interval_sec metrics stop fuel stop ≡ some (stop, [])
  unfolding run_loop
  run_loop_stopped stop zero h = absurd (omega arith)
  run_loop_stopped stop (suc fuel) h = rw (the_time stop) refl
    where
      the_time : (n : ℕ) → leb n n ≡ true
      the_time n = ground arith

  -- One turn of the loop, from its time to the time at which the sleep ends.
  run_loop-turn :
      (stop fuel now later : ℕ) (pubs : List Publication)
      → now < stop
      → min (now + interval_sec) stop ≡ later
      → run_loop json device_id interval_sec metrics stop fuel later ≡ some (stop, pubs)
      → run_loop json device_id interval_sec metrics stop (suc fuel) now
        ≡ some (stop, published now (text "online") ∷ pubs)
  unfolding run_loop
  run_loop-turn stop fuel now later pubs h m r =
      let going : leb stop now ≡ false = ground (arith, h) in
      rw going (
        rw (sleep-min stop interval_sec now (omega (arith, h)) ∙ m)
          (rw r (rw (beat-published now (text "online")) refl)))

  run_loop-online_beats :
      (stop fuel now : ℕ)
      → 0 < interval_sec
      → now ≤ stop
      → stop < fuel + now
      → (n : ℕ) × (run_loop json device_id interval_sec metrics stop fuel now
          ≡ some (stop, online_beats n now))
        × (stop ≤ now + n * interval_sec)
        × (now + n * interval_sec < stop + interval_sec)
  unfolding online_beats
  run_loop-online_beats stop zero now p h f = absurd (omega (arith, h, f))
  run_loop-online_beats stop (suc fuel) now p h f = elim (Bool-cases (leb stop now)) [
    | inl e ↦
        let same : stop ≡ now = omega (arith, leb→le stop now e, h) in
        (
          0,
          subst
              (λ t.
                run_loop json device_id interval_sec metrics stop (suc fuel) t ≡ some (stop, []))
              same (run_loop_stopped stop (suc fuel) (omega arith)),
          omega (arith, same),
          omega (arith, same, p),
        )
    | inr e ↦
        let before : now < stop = ground (arith, e) in
        elim (Bool-cases (leb (now + interval_sec) stop)) [
          | inl g ↦
              let (n, r, least, most) =
                run_loop-online_beats stop fuel (now + interval_sec) p (leb→le _ _ g)
                  (omega (arith, f, p)) in
              (
                suc n,
                run_loop-turn stop fuel now (now + interval_sec)
                    (online_beats n (now + interval_sec)) before (omega (arith, leb→le _ _ g)) r,
                omega (arith, least),
                omega (arith, most),
              )
          | inr g ↦
              let past : stop < now + interval_sec = ground (arith, g) in
              (
                1,
                run_loop-turn stop fuel now stop [] before (omega (arith, past))
                    (run_loop_stopped stop fuel (omega (arith, f, before))),
                omega (arith, past),
                omega (arith, before),
              )
        ]
  ]

  run-run_loop :
      (stop fuel ended : ℕ) (pubs : List Publication)
      → run_loop json device_id interval_sec metrics stop fuel 0 ≡ some (ended, pubs)
      → run json device_id interval_sec metrics stop fuel
        ≡ some (pubs ++ published ended (text "offline") ∷ [])
  unfolding run
  run-run_loop stop fuel ended pubs r =
      rw (r, run) (rw (beat-published ended (text "offline")) refl)

  -- Where every document can be written, the interval is positive and the stop is requested in some
  -- second, the thread ends with fuel for more than that many turns. It has published "online" at
  -- every multiple of the interval before that second and then "offline" in that very second.
  pub run_lem :
      (stop fuel : ℕ)
      → 0 < interval_sec
      → stop < fuel
      → (n : ℕ) × (run json device_id interval_sec metrics stop fuel
          ≡ some (online_beats n 0 ++ published stop (text "offline") ∷ []))
        × (stop ≤ n * interval_sec)
        × (n * interval_sec < stop + interval_sec)
  run_lem stop fuel p f =
      let (n, r, least, most) =
        run_loop-online_beats stop fuel 0 p (omega arith) (omega (arith, f)) in
      (
        n,
        run-run_loop stop fuel stop (online_beats n 0) r,
        omega (arith, least),
        omega (arith, most),
      )
