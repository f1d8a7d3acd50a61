-- ===== src/Vitals/DisplayTests.antt =====
-- The theorems on the displays of frontend/components/AgentVitals.tsx at concrete inputs.
use isolator_v_wasm_sandbox.Common.{
  arith, Text, codes, decimal, to_fixed_1, ℕ, ◌≡◌, refl, true, some, List, [], ◌∷◌, length, ◌-◌,
  All,
}
use isolator_v_wasm_sandbox.Vitals.{Event, polled, threw, response, start, mounted, run_all}
use isolator_v_wasm_sandbox.Vitals.Panels.{agent_vitals, format_mem, format_wall}
use isolator_v_wasm_sandbox.Vitals.Current.{ShowsLast, agent_vitals-ShowsLast}
use isolator_v_wasm_sandbox.Vitals.Formats.{fractions, exact, over}
use isolator_v_wasm_sandbox.Vitals.Sparkline.{draw_sparkline}
use isolator_v_wasm_sandbox.Vitals.Sparkline.Canvas.{
  line_of, Follows, IsLargest, InCanvas, draw_sparkline-IsLine,
}

abbrev one_poll : List (Event fractions)
one_poll =
    start
    ∷ polled
        (response 200 (
          some (record {
            mem_used_bytes = over 1572864 1;
            mem_limit_bytes = over 52428800 1;
            cpu_pct = over 25 2;
          })))
        10
    ∷ polled (threw true) 900
    ∷ []

agent_vitals-ShowsLast_example :
    ShowsLast fractions exact
      (run_all fractions one_poll (mounted fractions)).snapshots
      (agent_vitals fractions exact true (run_all fractions one_poll (mounted fractions)))
agent_vitals-ShowsLast_example = agent_vitals-ShowsLast fractions exact true one_poll

megabytes : format_mem fractions exact (over 1572864 1) ≡ codes "1.5 MB"
unfolding format_mem to_fixed_1
megabytes = refl

two_minutes : format_wall fractions exact (over 119600 1) ≡ codes "1m 60s"
unfolding format_wall decimal
two_minutes = refl

-- Samples in hundredths.
abbrev samples : List ℕ
samples = 0 ∷ 1250 ∷ 5000 ∷ []

abbrev no_property : Text → Text
no_property name = []

draw_sparkline-IsLine_example :
    let ps =
      line_of (draw_sparkline no_property true 100 64 20 samples (codes "var(--color-ok)")) in
    (max : ℕ) × IsLargest 100 samples max
    × Follows 64 20 max (length samples - 1) 0 samples ps
    × All (InCanvas 64 20) ps
draw_sparkline-IsLine_example =
    draw_sparkline-IsLine no_property 100 64 20 samples (codes "var(--color-ok)") (omega arith)
      (omega arith) (omega arith) (omega arith)
