-- ===== src/Editor/Tests.antt =====
-- The theorems on frontend/components/CodeEditor.tsx at a concrete program.
use Prim.{tt}
use isolator_v_wasm_sandbox.Common.{
  codes, to_fixed_1, ◌≡◌, ◌↔◌, refl, true, false, none, some, [], ◌∷◌, length, List,
}
use isolator_v_wasm_sandbox.Editor.{
  idle, Editor, Body, threw, Event, compile, keydown, change, settle, run_all, response, settled,
  handle_compile_and_run, change_source,
}
use isolator_v_wasm_sandbox.Editor.View.{render, check, sends, compile_and_run}
use isolator_v_wasm_sandbox.Editor.View.Shown.{render-click}
use isolator_v_wasm_sandbox.Editor.Laws.{requests_for, run_all-IsSingle}

abbrev fresh : Editor
fresh = record {
  source = codes "fn main() {}";
  compile_state = idle;
  compile_result = none;
  compile_error = none;
  requests = [];
  handed_over = [];
}

abbrev good_body : Body
good_body = record {
  body_stderr = none;
  body_error = none;
  body_compile_ms = some 840;
  body_warnings = none;
  body_wasm = codes "AGFzbQ==";
  body_bytes = 4;
}

abbrev typing : List Event
typing =
    compile false
    ∷ keydown true false (codes "Enter")
    ∷ change (codes "x")
    ∷ settle 0 (threw (codes "down"))
    ∷ []

run_all-IsSingle_example :
    length (run_all [] typing fresh).requests ≡ requests_for (run_all [] typing fresh).compile_state
run_all-IsSingle_example = run_all-IsSingle [] typing fresh (tt, (tt, (tt, (tt, tt)))) refl

abbrev compiled_once : List Event
compiled_once =
    change (codes "fn main() {}") ∷ compile false ∷ settle 0 (response true good_body) ∷ []

render-click_example :
    (((render true false fresh).run_button.disabled ≡ true)
      ↔ (handle_compile_and_run false fresh ≡ fresh))
    × (run_all [] (sends true false fresh compile_and_run) fresh
        ≡ handle_compile_and_run false fresh)
render-click_example = render-click true false [] fresh

compiled_badge :
    (render true false (run_all [] compiled_once fresh)).badges
    ≡ check (codes "0.0 KB in 840ms") ∷ []
unfolding render run_all settled handle_compile_and_run to_fixed_1 change_source
compiled_badge = refl
