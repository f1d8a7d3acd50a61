-- ===== src/Hints/Tests.antt =====
-- frontend/components/StatusBar.tsx and frontend/components/HelpOverlay.tsx: runs at concrete inputs.
use isolator_v_wasm_sandbox.Terminal.{Write, initial as new_terminal}
use isolator_v_wasm_sandbox.Terminal.Socket.{cleaned_up, react}
use isolator_v_wasm_sandbox.Common.{List, ◌≡◌, ◌++◌, codes, ◌≡◌, refl, true, some, [], ◌∷◌, All}
use isolator_v_wasm_sandbox.Console.{Console, running, initial}
use isolator_v_wasm_sandbox.Hints.{status_bar, shortcuts_table, hint}
use isolator_v_wasm_sandbox.Hints.Laws.{IsHonestRow, shortcuts_table-IsHonest}

abbrev busy : Console
unfolding initial
busy = record initial {
  sandbox_state = running;
  session_id = some (codes "session_1");
  preview_file = some (codes "/a.csv");
  help_open = true;
}

bar_of_busy :
    (status_bar busy.sandbox_state busy.session_id).right
    ≡ hint (codes "Esc") (codes "Stop") ∷ hint (codes "⌘⇧R") (codes "Reset") ∷ []
unfolding status_bar initial
bar_of_busy = refl

left_of_busy :
    (status_bar busy.sandbox_state busy.session_id).left
    ≡ codes "Executing" ∷ codes "session_1" ∷ []
unfolding status_bar initial
left_of_busy = refl

shortcuts_table-IsHonest_example :
    All (IsHonestRow true 1000 busy) shortcuts_table
    × ((more : List Write) × ((react cleaned_up new_terminal).screen ≡ new_terminal.screen ++ more))
shortcuts_table-IsHonest_example = shortcuts_table-IsHonest true 1000 busy new_terminal
