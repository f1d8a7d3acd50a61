-- ===== src/Tooltip/Tests.antt =====
-- frontend/components/Tooltip.tsx at concrete events.
use isolator_v_wasm_sandbox.Common.{◌≡◌, refl, true, false, List, [], ◌∷◌}
use isolator_v_wasm_sandbox.Tooltip.{
  mounted, show, fire, Event, mouse_enter, mouse_leave, timer, key_down, step, run_all,
}
use isolator_v_wasm_sandbox.Tooltip.Laws.{IsAtRest, run_all-IsAtRest}

-- The pointer comes, waits for the delay, types and leaves; then it passes by.
abbrev visit : List Event
visit = mouse_enter false ∷ timer 1 ∷ key_down ∷ mouse_leave ∷ mouse_enter false ∷ mouse_leave ∷ []

shown_in_between : (run_all (mouse_enter false ∷ timer 1 ∷ []) mounted).visible ≡ true
unfolding run_all step show fire mounted
shown_in_between = refl

run_all-IsAtRest_example : IsAtRest (run_all visit mounted)
run_all-IsAtRest_example = run_all-IsAtRest visit refl
