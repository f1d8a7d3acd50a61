-- ===== src/Health/Tests.antt =====
-- The theorems on frontend/components/OrchestratorStatus.tsx at concrete probes.
use isolator_v_wasm_sandbox.Common.{codes, decimal, ◌≡◌, refl, false, [], ◌∷◌, suc, ◌+◌}
use isolator_v_wasm_sandbox.Common.Backoff.{double_capped}
use isolator_v_wasm_sandbox.Health.{
  Reply, Event, poll_max_ms, check_health, seconds, mounted, run_all, step, poll, second_passed,
}
use isolator_v_wasm_sandbox.Health.Tip.{Says, last_probe, dot_class, tip_text, tip_text-Says}

threw_fails : check_health Reply.threw ≡ false
unfolding check_health
threw_fails = refl

twenty : suc (4 + 15) ≡ seconds (double_capped poll_max_ms 10000)
unfolding double_capped
twenty = refl

tip_text-Says_example :
    Says
      (last_probe (Event.probed Reply.threw ∷ Event.second ∷ []))
      (dot_class (run_all (Event.probed Reply.threw ∷ Event.second ∷ []) mounted).status)
      (tip_text (run_all (Event.probed Reply.threw ∷ Event.second ∷ []) mounted))
tip_text-Says_example = tip_text-Says (Event.probed Reply.threw ∷ Event.second ∷ [])

nineteen_left :
    tip_text (run_all (Event.probed Reply.threw ∷ Event.second ∷ []) mounted)
    ≡ codes "Orchestrator offline — retrying in 19s"
unfolding tip_text run_all step poll check_health double_capped second_passed mounted decimal
nineteen_left = refl
