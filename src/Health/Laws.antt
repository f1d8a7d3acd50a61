-- ===== src/Health/Laws.antt =====
-- frontend/components/OrchestratorStatus.tsx: what the indicator shows.
use native.Mathlib.Nat.{zero-add, suc-add}
use isolator_v_wasm_sandbox.Common.{
  ℕ, zero, suc, ◌+◌, ◌≤◌, ◌≡◌, refl, sym, ap, ◌∙◌, true, false, Bool-cases, inl, inr, Option, none,
  some, is_some, List, [], ◌∷◌, leb, arith,
}
use isolator_v_wasm_sandbox.Common.Backoff.{iterate, iterate_shift, double_capped}
use isolator_v_wasm_sandbox.Health.{
  poll_base_ms, poll_max_ms, count_down, online, offline, Reply, check_health, Status, mounted,
  seconds, second_passed, poll, Event, probed, second, step, run_all,
}

-- The seconds that a countdown may show.
abbrev pub InSpan : Option ℕ → Type 0
InSpan none = Unit
InSpan (some n) = (1 ≤ n) × (n ≤ 120)

-- What holds between two events.
pub record Inv (s : Status) : Type 0 where
  pub delay_low : poll_base_ms ≤ s.backoff_ms
  pub delay_high : s.backoff_ms ≤ poll_max_ms
  pub same_count : s.retry_in ≡ s.countdown
  pub counts_offline : is_some s.countdown ≡ true → s.status ≡ offline
  pub counts_down : InSpan s.countdown
  pub fast_online : s.status ≡ online → s.backoff_ms ≡ poll_base_ms

mounted-Inv : Inv mounted
unfolding mounted
mounted-Inv = ground arith

poll-Inv : (r : Reply) (s : Status) → Inv s → Inv (poll r s)
unfolding poll double_capped
poll-Inv r s h = elim (Bool-cases (check_health r)) [
  | inl e ↦ rw e (ground arith)
  | inr e ↦ rw e (ground arith)
]

count_down-Inv : (c : Option ℕ) (s : Status) → Inv s → s.countdown ≡ c → Inv (count_down c s)
count_down-Inv none s h e = h
count_down-Inv (some n) s h e = elim (Bool-cases (leb n 1)) [
  | inl b ↦ rw b (ground arith)
  | inr b ↦ rw b (ground arith)
]

step-Inv : (e : Event) (s : Status) → Inv s → Inv (step e s)
unfolding step second_passed
step-Inv (probed r) s h = poll-Inv r s h
step-Inv second s h = count_down-Inv s.countdown s h refl

status-Inv_from : (es : List Event) (s : Status) → Inv s → Inv (run_all es s)
unfolding run_all
status-Inv_from [] s h = h
status-Inv_from (e ∷ es) s h = status-Inv_from es (step e s) (step-Inv e s h)

-- Whatever the probes and the clock do: the back-off lies between 10 s and 2 min, and is 10 s while
-- the indicator is green; a countdown runs only while it shows the orchestrator as offline; and the
-- seconds shown are those of the countdown, between 1 and 120.
pub status-Inv : (es : List Event) → Inv (run_all es mounted)
status-Inv es = status-Inv_from es mounted mounted-Inv

-- What the tooltip shows when n seconds are left.
abbrev pub remaining : ℕ → Option ℕ
remaining zero = none
remaining (suc n) = some (suc n)

second_passed-remaining :
    (n : ℕ) (s : Status)
    → s.countdown ≡ some (suc n)
    → ((second_passed s).countdown ≡ remaining n) × ((second_passed s).retry_in ≡ remaining n)
unfolding second_passed
second_passed-remaining zero s h = rw h (refl, refl)
second_passed-remaining (suc n) s h = rw h (ground arith)

seconds_pass :
    (k n : ℕ) (s : Status)
    → s.countdown ≡ some (suc (k + n))
    → (iterate (suc k) second_passed s).retry_in ≡ remaining n
seconds_pass zero n s h =
    let first : s.countdown ≡ some (suc n) = h ∙ ap (λ m. some (suc m)) (zero-add n) in
    (second_passed-remaining n s first).1
seconds_pass (suc k) n s h =
    let first : s.countdown ≡ some (suc (suc (k + n))) = h ∙ ap (λ m. some (suc m)) (suc-add k n) in
    ap (λ (t : Status). t.retry_in) (sym (iterate_shift (suc k) second_passed s))
    ∙ seconds_pass k n (second_passed s) (second_passed-remaining (suc (k + n)) s first).0

-- A failed probe turns the indicator to offline with the doubled delay, up to 2 min, as the delay of
-- the next probe, and with its seconds as the countdown. The countdown shows one less each second,
-- and nothing once all the seconds of the delay have passed.
pub poll_counts_down :
    (r : Reply) (s : Status) (k n : ℕ)
    → check_health r ≡ false
    → suc (k + n) ≡ seconds (double_capped poll_max_ms s.backoff_ms)
    → ((poll r s).status ≡ offline)
      × ((poll r s).timer ≡ some (double_capped poll_max_ms s.backoff_ms))
      × ((poll r s).retry_in ≡ some (suc (k + n)))
      × ((iterate (suc k) second_passed (poll r s)).retry_in ≡ remaining n)
unfolding poll
poll_counts_down r s k n dead e =
    (rw dead, rw dead, rw dead (rw (← e)), seconds_pass k n _ (rw dead (rw (← e))))
