-- ===== src/Console/Actions.antt =====
-- frontend/components/ExecutionConsole.tsx: every event that the console reacts to, and its life
-- as a sequence of them.
use isolator_v_wasm_sandbox.Common.{
  Text, ℕ, Bool, true, false, Option, List, [], ◌∷◌, if◌then◌else◌, ℤ,
}
use isolator_v_wasm_sandbox.Console.{
  Console, terminal, preview, InputMode, DemoKey, Decoder, Outcome, handle_run, handle_compiled,
  handle_stop, handle_reset, handle_file_select, handle_crash, handle_reconnect, on_end,
  after_commit, is_running,
}
use isolator_v_wasm_sandbox.Vfs.{Snapshot}
use isolator_v_wasm_sandbox.Console.Keys.{has_path, KeyEvent, keydown}

-- The events: handlers of the toolbar and the panes, the child components' callbacks, the keys.
pub data Action : Type 0 where
  run : ℕ → Action
  compiled : ℕ → Text → Action
  stop : Action
  reset : Action
  file_select : Text → Action
  crash : Action
  reconnect : Action
  end : Outcome → Option Snapshot → Option ℤ → Action
  key : ℕ → KeyEvent → Action
  show_terminal : Action
  show_preview : Action
  select_mode : InputMode → Action
  select_demo : DemoKey → Action
  open_help : Action
  close_help : Action

-- The Preview tab is there only while a file is open, and the two selectors are disabled while a
-- session runs.
abbrev pub click_preview : Console → Console
click_preview s = if has_path s.preview_file then record s { active_tab = preview } else s

abbrev pub choose_mode : InputMode → Console → Console
choose_mode mode s = if is_running s.sandbox_state then s else record s { input_mode = mode }

abbrev pub choose_demo : DemoKey → Console → Console
choose_demo demo s = if is_running s.sandbox_state then s else record s { selected_demo = demo }

module _ (is_mac : Bool) (decode : Decoder) where
  unfoldable pub react : Action → Console → Console
  react (run now) s = handle_run now s
  react (compiled now wasm_b64) s = handle_compiled now wasm_b64 s
  react stop s = handle_stop s
  react reset s = handle_reset s
  react (file_select path) s = handle_file_select decode path s
  react crash s = handle_crash s
  react reconnect s = handle_reconnect s
  react (end outcome vfs_snapshot exit_code) s = on_end outcome vfs_snapshot exit_code s
  react (key now e) s = keydown is_mac now e s
  react show_terminal s = record s { active_tab = terminal }
  react show_preview s = click_preview s
  react (select_mode mode) s = choose_mode mode s
  react (select_demo demo) s = choose_demo demo s
  react open_help s = record s { help_open = true }
  react close_help s = record s { help_open = false }

  unfoldable pub step : Action → Console → Console
  step a s = after_commit (react a s)

  unfoldable pub run_all : List Action → Console → Console
  run_all [] s = s
  run_all (a ∷ as') s = run_all as' (step a s)
