-- ===== src/Screen/Tests.antt =====
-- The screen of frontend/components/ExecutionConsole.tsx at concrete consoles.
use isolator_v_wasm_sandbox.Common.{
  Text, codes, false, ◌≡◌, ◌≢◌, refl, true, none, some, List, [], ◌∷◌, All, negsuc,
}
use isolator_v_wasm_sandbox.Vfs.{lookup}
use isolator_v_wasm_sandbox.Console.{
  running, nonzero, Decoder, Outcome, initial, handle_run, handle_file_select, on_end, after_commit,
}
use isolator_v_wasm_sandbox.Console.Actions.{Action, run, end, file_select, react, step, run_all}
use isolator_v_wasm_sandbox.Terminal
use isolator_v_wasm_sandbox.Terminal.Socket.{
  Event, xterm_loaded, session_opened, socket_opened, typed, react_all,
}
use isolator_v_wasm_sandbox.Screen.Limits.{
  IsLimited, value_in, sandbox_limits, fallback_limit, react_all-AreLimited,
}
use isolator_v_wasm_sandbox.Screen.{
  run_button, stop_button, toolbar, badge_tip, content, welcome_pane, session_crashed, welcome,
  render,
}
use isolator_v_wasm_sandbox.Screen.Laws.{click, IsIdleWhenDisabled, toolbar-click}
use isolator_v_wasm_sandbox.Screen.Reached.{IsLive, OneTab, run_all-IsLive, run_all-OneTab}

abbrev decode_hi : Decoder
decode_hi b64 = some (codes "hi")

-- A run, a file that is opened, and the end.
abbrev started : List Action
started = run 5 ∷ file_select (codes "/out/a.txt") ∷ []

tip_of_failure : badge_tip nonzero (negsuc 6) ≡ codes "Session ended — non-zero exit (code -7)"
unfolding badge_tip
tip_of_failure = refl

-- A session that the terminal reports as failed is shown as crashed by the welcome pane.
crashed_pane :
    (render (run_all true decode_hi (run 5 ∷ end Outcome.error none none ∷ []) initial)).content
    ≡ welcome_pane session_crashed
unfolding render content welcome run_all step react handle_run on_end after_commit initial
crashed_pane = refl

toolbar-click_example :
    IsIdleWhenDisabled true decode_hi (run_button initial.sandbox_state) 7 initial
    × IsIdleWhenDisabled true decode_hi (stop_button initial.sandbox_state) 7 initial
    × All
        (λ b. click true decode_hi b 7 initial ≡ react true decode_hi (b.act 7) initial)
        (toolbar initial.sandbox_state)
toolbar-click_example = toolbar-click true decode_hi 7 initial

started_runs : (run_all true decode_hi started initial).sandbox_state ≡ running
unfolding run_all step react handle_run handle_file_select after_commit initial lookup
started_runs = refl

run_all-IsLive_example :
    (id : Text) × ((run_all true decode_hi started initial).session_id ≡ some id)
    × IsLive (render (run_all true decode_hi started initial)) id
run_all-IsLive_example = run_all-IsLive true decode_hi started started_runs

started_file : (run_all true decode_hi started initial).preview_file ≢ some []
unfolding run_all step react handle_run handle_file_select after_commit initial lookup
started_file h = cc h

run_all-OneTab_example : OneTab (run_all true decode_hi started initial)
run_all-OneTab_example = run_all-OneTab true decode_hi started started_file

abbrev one_request : List Event
one_request =
    xterm_loaded
    ∷ session_opened
    ∷ socket_opened false (codes "session_1") (some (codes "AGFzbQ=="))
    ∷ typed true (codes "y")
    ∷ []

react_all-AreLimited_example :
    All IsLimited (react_all one_request Terminal.initial).sent
    × (value_in sandbox_limits (codes "Memory") ≡ some (fallback_limit 0))
react_all-AreLimited_example = react_all-AreLimited one_request 0
