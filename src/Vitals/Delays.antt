-- ===== src/Vitals/Delays.antt =====
-- frontend/components/AgentVitals.tsx: the delay between two polls.
use native.Mathlib.Nat.{pow-suc, mul_assoc}
use isolator_v_wasm_sandbox.Common.{
  ℕ, zero, suc, ◌≤◌, ◌*◌, ◌^◌, min, ◌≡◌, ◌≢◌, refl, ◌∙◌, ap, true, false, if◌then◌else◌, List, [],
  ◌∷◌, arith,
}
use isolator_v_wasm_sandbox.Common.Backoff.{double_capped}
use isolator_v_wasm_sandbox.Vitals.{
  JsNumber, VitalsFetchResult, ok, failed, Hud, mounted, next_backoff, absorb, fetch_vitals, poll,
  stopped, started, Event, polled, stop, start, step, run_all, poll_interval_ms,
  poll_backoff_base_ms, poll_backoff_max_ms,
}

-- 0.8 s doubled k times, up to 30 s.
abbrev pub delay_after : ℕ → ℕ
delay_after k = min (poll_interval_ms * 2 ^ k) poll_backoff_max_ms

one-le-pow : (k : ℕ) → 1 ≤ 2 ^ k
one-le-pow zero = omega arith
one-le-pow (suc k) = rw pow-suc (omega (arith, one-le-pow k))

next_backoff-delay_after : (k : ℕ) → next_backoff (delay_after k) ≡ delay_after (suc k)
unfolding next_backoff double_capped
next_backoff-delay_after k =
    let doubled : 800 * 2 ^ suc k ≡ 800 * 2 ^ k * 2 = rw pow-suc (rw mul_assoc) in
    ground (arith, doubled, one-le-pow k)

module _ (num : JsNumber) where
  -- The network errors in a row, as the replies give them: a good reply and a new session begin the
  -- row again, and an error of another kind leaves it as it is.
  abbrev pub counted : ℕ → VitalsFetchResult num → ℕ
  counted k (ok snapshot) = 0
  counted k (failed network_error fallback) = if network_error then suc k else k

  abbrev pub errors_in_row : Event num → Hud num → ℕ → ℕ
  errors_in_row (polled reply elapsed) h k = counted k (fetch_vitals num reply elapsed h.latest)
  errors_in_row stop h k = k
  errors_in_row start h k = 0

  abbrev pub all_errors_in_row : List (Event num) → Hud num → ℕ → ℕ
  all_errors_in_row [] h k = k
  all_errors_in_row (e ∷ es) h k = all_errors_in_row es (step num e h) (errors_in_row e h k)

  absorb-delay :
      (r : VitalsFetchResult num) (h : Hud num) (k : ℕ)
      → h.backoff_ms ≡ delay_after k
      → (absorb num r h).backoff_ms ≡ delay_after (counted k r)
  absorb-delay (ok snapshot) h k e = refl
  absorb-delay (failed true fallback) h k e = ap next_backoff e ∙ next_backoff-delay_after k
  absorb-delay (failed false fallback) h k e = e

  step-delay :
      (e : Event num) (h : Hud num) (k : ℕ)
      → h.backoff_ms ≡ delay_after k
      → (step num e h).backoff_ms ≡ delay_after (errors_in_row e h k)
  unfolding step poll stopped started
  step-delay (polled reply elapsed) h k e =
      absorb-delay (fetch_vitals num reply elapsed h.latest) h k e
  step-delay stop h k e = e
  step-delay start h k e = refl

  run_all-delay_from :
      (es : List (Event num)) (h : Hud num) (k : ℕ)
      → h.backoff_ms ≡ delay_after k
      → (run_all num es h).backoff_ms ≡ delay_after (all_errors_in_row es h k)
  unfolding run_all
  run_all-delay_from [] h k e = e
  run_all-delay_from (x ∷ es) h k e =
      run_all-delay_from es (step num x h) (errors_in_row x h k) (step-delay x h k e)

  -- Whatever the replies and sessions: the delay to the next poll is 0.8 s doubled once for each
  -- network error of the last row of them, up to 30 s. So it is never POLL_BACKOFF_BASE_MS, 5 s, from
  -- which the back-off is meant to start.
  pub run_all-delay :
      (es : List (Event num))
      → ((run_all num es (mounted num)).backoff_ms
          ≡ delay_after (all_errors_in_row es (mounted num) 0))
        × ((run_all num es (mounted num)).backoff_ms ≢ poll_backoff_base_ms)
  unfolding mounted
  run_all-delay es =
      let delay = run_all-delay_from es (mounted num) 0 refl in
      (delay, λ e. omega (arith, delay, e))
