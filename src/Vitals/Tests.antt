-- ===== src/Vitals/Tests.antt =====
-- The theorems on frontend/components/AgentVitals.tsx at concrete polls.
use isolator_v_wasm_sandbox.Common.{
  ℕ, ◌≡◌, ◌≢◌, ◌≤◌, refl, true, none, some, List, [], ◌∷◌, length, leb,
}
use isolator_v_wasm_sandbox.Vitals.{
  JsNumber, Body, Reply, threw, response, Hud, polled, mounted, run_all, sparkline_samples,
  poll_backoff_base_ms,
}
use isolator_v_wasm_sandbox.Vitals.Delays.{delay_after, all_errors_in_row, run_all-delay}
use isolator_v_wasm_sandbox.Vitals.Window.{last_samples, polls, shown, polls_window}

-- The numbers of the responses, where they are natural.
abbrev naturals : JsNumber
naturals = record { Number = ℕ; of_numeral = λ n. n; at_least = λ a n. leb n a }

abbrev one_body : Body naturals
one_body = record { mem_used_bytes = 4096; mem_limit_bytes = 52428800; cpu_pct = 12 }

abbrev replies : List (Reply naturals × ℕ)
replies = (response 200 (some one_body), 10) ∷ (threw true, 900) ∷ []

abbrev empty_hud : Hud naturals
empty_hud = record { snapshots = []; latest = none; backoff_ms = 800; tick = 0 }

run_all-delay_example :
    ((run_all naturals
        (polled (threw true) 0 ∷ polled (threw true) 1600 ∷ [])
        (mounted naturals)).backoff_ms
      ≡ delay_after (
          all_errors_in_row naturals
            (polled (threw true) 0 ∷ polled (threw true) 1600 ∷ [])
            (mounted naturals)
            0))
    × ((run_all naturals
          (polled (threw true) 0 ∷ polled (threw true) 1600 ∷ [])
          (mounted naturals)).backoff_ms
        ≢ poll_backoff_base_ms)
run_all-delay_example =
    run_all-delay naturals (polled (threw true) 0 ∷ polled (threw true) 1600 ∷ [])

polls_window_example :
    ((polls naturals replies empty_hud).snapshots ≡ last_samples (shown naturals replies empty_hud))
    × (length (polls naturals replies empty_hud).snapshots ≤ sparkline_samples)
polls_window_example = polls_window naturals replies empty_hud refl
