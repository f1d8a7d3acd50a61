-- ===== src/Health/Tip.antt =====
-- frontend/components/OrchestratorStatus.tsx: the dot and its tooltip.
use isolator_v_wasm_sandbox.Common.{
  Text, codes, decimal, ℕ, ◌≤◌, ◌≡◌, ◌∙◌, ◌⊎◌, inl, inr, refl, Bool, true, false, Bool-cases,
  Option, none, some, List, [], ◌∷◌, ◌++◌, arith,
}
use isolator_v_wasm_sandbox.Health.{
  HealthState, checking, online, offline, Status, Event, probed, second, Reply, check_health, poll,
  count_down, second_passed, step, run_all, mounted,
}
use isolator_v_wasm_sandbox.Health.Laws.{InSpan, status-Inv}

pub data Dot : Type 0 where
  ok_dot warn_pulse muted_pulse : Dot

unfoldable pub dot_class : HealthState → Dot
dot_class online = ok_dot
dot_class offline = warn_pulse
dot_class checking = muted_pulse

abbrev pub offline_text : Option ℕ → Text
offline_text none = codes "Orchestrator offline — retrying…"
offline_text (some n) = codes "Orchestrator offline — retrying in " ++ decimal n ++ codes "s"

abbrev pub tip_for : HealthState → Option ℕ → Text
tip_for online retry_in = codes "Orchestrator reachable"
tip_for offline retry_in = offline_text retry_in
tip_for checking retry_in = codes "Checking orchestrator…"

unfoldable pub tip_text : Status → Text
tip_text s = tip_for s.status s.retry_in

-- Whether the last of the probes found the orchestrator, if there was one.
abbrev pub last_probe_from : Option Bool → List Event → Option Bool
last_probe_from found [] = found
last_probe_from found (probed reply ∷ es) = last_probe_from (some (check_health reply)) es
last_probe_from found (second ∷ es) = last_probe_from found es

abbrev pub last_probe : List Event → Option Bool
last_probe es = last_probe_from none es

abbrev state_of : Option Bool → HealthState
state_of none = checking
state_of (some true) = online
state_of (some false) = offline

count_down-status : (c : Option ℕ) (s : Status) → (count_down c s).status ≡ s.status
count_down-status none s = refl
count_down-status (some n) s = ground arith

poll-status :
    (reply : Reply) (s : Status) → (poll reply s).status ≡ state_of (some (check_health reply))
unfolding poll
poll-status reply s = elim (Bool-cases (check_health reply)) [ inl e ↦ rw e | inr e ↦ rw e ]

run_all-status :
    (es : List Event) (found : Option Bool) (s : Status)
    → s.status ≡ state_of found
    → (run_all es s).status ≡ state_of (last_probe_from found es)
unfolding run_all step second_passed
run_all-status [] found s h = h
run_all-status (probed reply ∷ es) found s h =
    run_all-status es (some (check_health reply)) (poll reply s) (poll-status reply s)
run_all-status (second ∷ es) found s h =
    run_all-status es found (second_passed s) (count_down-status s.countdown s ∙ h)

-- What the dot and its tooltip say after a probe, if there was one.
abbrev pub Says : Option Bool → Dot → Text → Type 0
Says none dot t = (dot ≡ muted_pulse) × (t ≡ codes "Checking orchestrator…")
Says (some true) dot t = (dot ≡ ok_dot) × (t ≡ codes "Orchestrator reachable")
Says (some false) dot t =
    (dot ≡ warn_pulse)
    × ((t ≡ codes "Orchestrator offline — retrying…")
        ⊎ ((n : ℕ) × (1 ≤ n)
            × (n ≤ 120)
            × (t ≡ codes "Orchestrator offline — retrying in " ++ decimal n ++ codes "s")))

offline-Says :
    (retry_in : Option ℕ)
    → InSpan retry_in
    → Says (some false) warn_pulse (tip_for offline retry_in)
offline-Says none h = (refl, inl refl)
offline-Says (some n) (low, high) = (refl, inr (n, low, high, refl))

state-Says :
    (found : Option Bool) (state : HealthState) (retry_in : Option ℕ)
    → state ≡ state_of found
    → InSpan retry_in
    → Says found (dot_class state) (tip_for state retry_in)
unfolding dot_class
state-Says none state retry_in e span = rw e (refl, refl)
state-Says (some true) state retry_in e span = rw e (refl, refl)
state-Says (some false) state retry_in e span = rw e (offline-Says retry_in span)

-- Whatever the probes and the clock do: before the first probe the dot and its tooltip say that the
-- orchestrator is checked, and from then on what the last probe has found: that it can be reached, or
-- that it is offline, with no time or with 1 to 120 seconds to the next try.
pub tip_text-Says :
    (es : List Event)
    → let s = run_all es mounted in Says (last_probe es) (dot_class s.status) (tip_text s)
unfolding tip_text mounted
tip_text-Says es =
    let s = run_all es mounted in
    let inv = status-Inv es in
    state-Says (last_probe es) s.status s.retry_in (run_all-status es none mounted refl)
      (rw inv.same_count inv.counts_down)
