-- ===== src/Health/Levels.antt =====
-- How probes in a row move the health level.
use tide_guard.Base.{
  ℕ, ◌+◌, ◌≤◌, ◌<◌, ◌≡◌, refl, ◌∙◌, ap, true, false, List, [], ◌∷◌, ◌++◌, All, length, leb, arith,
}
use tide_guard.Health.{
  ok, slow, pause, OriginHealthConfig, OriginHealthState, ProbeResult, advance_health_state, worse,
  is_ok_level, is_pause_level,
}

-- Probes in a row, each with its time.
unfoldable pub run_probes :
    OriginHealthConfig → OriginHealthState → List (ProbeResult × ℕ) → OriginHealthState
run_probes config state [] = state
run_probes config state ((probe, now) ∷ probes) =
    run_probes config (advance_health_state config state probe now) probes

abbrev pub AllFailed : List (ProbeResult × ℕ) → Type 0
AllFailed = All λ p. p.0.success ≡ false

abbrev pub AllSucceeded : List (ProbeResult × ℕ) → Type 0
AllSucceeded = All λ p. p.0.success ≡ true

module _ (config : OriginHealthConfig) where
  run_probes-append :
      (state : OriginHealthState) (a b : List (ProbeResult × ℕ))
      → run_probes config state (a ++ b) ≡ run_probes config (run_probes config state a) b
  unfolding run_probes
  run_probes-append state [] b = refl
  run_probes-append state ((probe, now) ∷ a) b =
      run_probes-append (advance_health_state config state probe now) a b

  -- Failing probes that bring the run of failures to the threshold make the level one worse, and
  -- the next run starts at 0.
  run_probes-worsen :
      (state : OriginHealthState) (probes : List (ProbeResult × ℕ))
      → AllFailed probes
      → is_pause_level state.level ≡ false
      → state.consecutive_fails < config.fail_threshold
      → state.consecutive_fails + length probes ≡ config.fail_threshold
      → ((run_probes config state probes).level ≡ worse state.level)
        × ((run_probes config state probes).consecutive_fails ≡ 0)
  unfolding run_probes advance_health_state
  run_probes-worsen state [] f l more total = absurd (omega arith)
  run_probes-worsen state ((probe, now) ∷ []) f l more total =
      let last : leb config.fail_threshold (state.consecutive_fails + 1) ≡ true = ground arith in
      rw (f.0, l, last) (refl, refl)
  run_probes-worsen state ((probe, now) ∷ p ∷ ps) f l more total =
      let short : leb config.fail_threshold (state.consecutive_fails + 1) ≡ false = ground arith in
      let next = advance_health_state config state probe now in
      let kept : (next.level ≡ state.level)
          × (next.consecutive_fails ≡ state.consecutive_fails + 1) =
        rw (f.0, l, short) (refl, refl) in
      let (level, fails) =
        run_probes-worsen next (p ∷ ps) f.1 (rw kept.0 l) (omega arith) (omega arith) in
      (level ∙ ap worse kept.0, fails)

  -- The pause level lasts through failures.
  run_probes-paused :
      (state : OriginHealthState) (probes : List (ProbeResult × ℕ))
      → AllFailed probes
      → state.level ≡ pause
      → (run_probes config state probes).level ≡ pause
  unfolding run_probes advance_health_state
  run_probes-paused state [] f l = l
  run_probes-paused state ((probe, now) ∷ ps) f l =
      run_probes-paused (advance_health_state config state probe now) ps f.1 (rw (f.0, l) refl)

  run_probes-recover :
      (state : OriginHealthState) (probes : List (ProbeResult × ℕ))
      → AllSucceeded probes
      → is_ok_level state.level ≡ false
      → state.consecutive_ok < config.recover_threshold
      → state.consecutive_ok + length probes ≡ config.recover_threshold
      → (run_probes config state probes).level ≡ ok
  unfolding run_probes advance_health_state
  run_probes-recover state [] f l more total = absurd (omega arith)
  run_probes-recover state ((probe, now) ∷ []) f l more total =
      let last : leb config.recover_threshold (state.consecutive_ok + 1) ≡ true = ground arith in
      rw (f.0, l, last) refl
  run_probes-recover state ((probe, now) ∷ p ∷ ps) f l more total =
      let short : leb config.recover_threshold (state.consecutive_ok + 1) ≡ false = ground arith in
      let next = advance_health_state config state probe now in
      let kept : (next.level ≡ state.level) × (next.consecutive_ok ≡ state.consecutive_ok + 1) =
        rw (f.0, l, short) (refl, refl) in
      run_probes-recover next (p ∷ ps) f.1 (rw kept.0 l) (omega arith) (omega arith)

  -- With a threshold of at least one: starting at the level ok with no failure counted, a run of
  -- as many failures as the threshold gives the level slow, a second such run gives pause, and any
  -- failures after that keep it.
  pub outage-levels :
      (state : OriginHealthState) (first second rest : List (ProbeResult × ℕ))
      → 1 ≤ config.fail_threshold
      → state.level ≡ ok
      → state.consecutive_fails ≡ 0
      → (AllFailed first × AllFailed second × AllFailed rest)
      → length first ≡ config.fail_threshold
      → length second ≡ config.fail_threshold
      → ((run_probes config state first).level ≡ slow)
        × ((run_probes config state (first ++ second)).level ≡ pause)
        × ((run_probes config state ((first ++ second) ++ rest)).level ≡ pause)
  outage-levels state first second rest t l z (f, g, h) m n =
      let s1 = run_probes config state first in
      let (slowed, again) =
        run_probes-worsen state first f (rw l refl) (omega arith) (omega arith) in
      let at_slow : s1.level ≡ slow = slowed ∙ ap worse l in
      let s2 = run_probes config s1 second in
      let paused =
        (run_probes-worsen s1 second g (rw at_slow refl) (omega arith) (omega arith)).0 in
      let at_pause : s2.level ≡ pause = paused ∙ ap worse at_slow in
      (
        at_slow,
        rw (run_probes-append state first second) at_pause,
        rw (run_probes-append state (first ++ second) rest, run_probes-append state first second)
            (run_probes-paused s2 rest h at_pause),
      )

  -- Fewer successes than the threshold leave the level.
  run_probes-keep :
      (state : OriginHealthState) (probes : List (ProbeResult × ℕ))
      → AllSucceeded probes
      → is_ok_level state.level ≡ false
      → state.consecutive_ok + length probes < config.recover_threshold
      → (run_probes config state probes).level ≡ state.level
  unfolding run_probes advance_health_state
  run_probes-keep state [] f l more = refl
  run_probes-keep state ((probe, now) ∷ ps) f l more =
      let short : leb config.recover_threshold (state.consecutive_ok + 1) ≡ false = ground arith in
      let next = advance_health_state config state probe now in
      let kept : (next.level ≡ state.level) × (next.consecutive_ok ≡ state.consecutive_ok + 1) =
        rw (f.0, l, short) (refl, refl) in
      run_probes-keep next ps f.1 (rw kept.0 l) (omega arith) ∙ kept.0

  -- At any level but ok with no success counted, as after a failed probe: successes in a row that
  -- are fewer than the threshold of recovery leave the level as it is, and with those that make up
  -- the threshold it is ok.
  pub recovery-level :
      (state : OriginHealthState) (early late : List (ProbeResult × ℕ))
      → is_ok_level state.level ≡ false
      → state.consecutive_ok ≡ 0
      → AllSucceeded early
      → AllSucceeded (early ++ late)
      → length early < config.recover_threshold
      → length (early ++ late) ≡ config.recover_threshold
      → ((run_probes config state early).level ≡ state.level)
        × ((run_probes config state (early ++ late)).level ≡ ok)
  recovery-level state early late l z s t few enough = (
    run_probes-keep state early s l (omega arith),
    run_probes-recover state (early ++ late) t l (omega arith) (omega arith),
  )
