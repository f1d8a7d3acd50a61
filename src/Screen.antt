-- ===== src/Screen.antt =====
-- frontend/components/ExecutionConsole.tsx: what the console renders, with its buttons and their
-- handlers. The vitals, the theme and the texts that never change are left out.
pub mod Laws
pub mod Reached
pub mod Limits
mod Tests
use isolator_v_wasm_sandbox.Common.{
  Text, codes, signed_decimal, base_name, is_truthy, ℕ, Bool, true, false, not, ◌&&◌, Option, none,
  some, is_some, List, [], ◌∷◌, ◌++◌, if◌then◌else◌, ℤ,
}
use isolator_v_wasm_sandbox.Console.{
  Console, SandboxState, idle, running, crashed, complete, nonzero, Tab, terminal, preview,
  InputMode, demo, editor, DemoKey, is_running,
}
use isolator_v_wasm_sandbox.Console.Actions.{
  Action, run, stop, reset, open_help, show_terminal, show_preview,
}
use isolator_v_wasm_sandbox.Preview.{Props}
use isolator_v_wasm_sandbox.Preview.Inline.{props_of}

-- `ToolbarButton`: `act` is the event of a click, at the time that it has.
pub record Button : Type 0 where
  pub label : Text
  pub disabled : Bool
  pub title : Option Text
  pub act : ℕ → Action

abbrev reason : Bool → Text → Option Text
reason disabled words = if disabled then some words else none

unfoldable pub run_button : SandboxState → Button
run_button state = record {
  label = codes "Run";
  disabled = is_running state;
  title = reason (is_running state) (codes "Session already running");
  act = run;
}

unfoldable pub stop_button : SandboxState → Button
stop_button state = record {
  label = codes "Stop";
  disabled = not (is_running state);
  title = reason (not (is_running state)) (codes "No session is running");
  act = λ now. stop;
}

unfoldable pub reset_button : Button
reset_button = record { label = codes "Reset"; disabled = false; title = none; act = λ now. reset }

abbrev pub toolbar : SandboxState → List Button
toolbar state = run_button state ∷ stop_button state ∷ reset_button ∷ []

-- A `select` with the value that it shows.
pub record Select {ℓ} (A : Type ℓ) : Type ℓ where
  pub value : A
  pub disabled : Bool

pub data Dot : Type 0 where
  pulsing still_danger still_muted : Dot

-- The session's badge; it is there where there is an id.
pub record Badge : Type 0 where
  pub id : Text
  pub tip : Text
  pub dot : Dot

unfoldable pub badge_tip : SandboxState → ℤ → Text
unfolding signed_decimal
badge_tip running code = codes "Session active — connected to sandbox"
badge_tip crashed code = codes "Session crashed — reconnect or reset"
badge_tip nonzero code =
    codes "Session ended — non-zero exit (code " ++ signed_decimal code ++ codes ")"
badge_tip _ code = codes "Session ended"

unfoldable pub badge_dot : SandboxState → Dot
badge_dot running = pulsing
badge_dot crashed = still_danger
badge_dot nonzero = still_danger
badge_dot _ = still_muted

-- An optional text as a condition: the empty one counts as none.
abbrev pub given : Option Text → Option Text
given none = none
given (some t) = if is_truthy t then some t else none

abbrev badge_of : SandboxState → ℤ → Option Text → Option Badge
badge_of state code none = none
badge_of state code (some id) =
    some (record { id = id; tip = badge_tip state code; dot = badge_dot state })

unfoldable pub badge : Console → Option Badge
badge s = badge_of s.sandbox_state s.last_exit_code (given s.session_id)

-- One tab of the tab bar.
pub record TabView : Type 0 where
  pub label : Text
  pub active : Bool
  pub act : Action

abbrev pub is_tab : Tab → Tab → Bool
is_tab terminal terminal = true
is_tab preview preview = true
is_tab _ _ = false

abbrev preview_tab : Tab → Option Text → List TabView
preview_tab tab none = []
preview_tab tab (some path) =
    record { label = base_name path; active = is_tab tab preview; act = show_preview } ∷ []

unfoldable pub tabs : Console → List TabView
tabs s =
    record { label = codes "Console"; active = is_tab s.active_tab terminal; act = show_terminal }
    ∷ preview_tab s.active_tab (given s.preview_file)

-- `WelcomePane`, with the buttons that each of its forms has.
pub data Welcome : Type 0 where
  execution_complete : Welcome
  exited_with : Text → Welcome
  session_crashed session_running idle_welcome : Welcome

unfoldable pub welcome : SandboxState → ℤ → Welcome
unfolding signed_decimal
welcome complete code = execution_complete
welcome nonzero code = exited_with (signed_decimal code)
welcome crashed code = session_crashed
welcome running code = session_running
welcome idle code = idle_welcome

abbrev plain_button : Text → (ℕ → Action) → Button
plain_button label act = record { label = label; disabled = false; title = none; act = act }

unfoldable pub welcome_buttons : Welcome → List Button
welcome_buttons execution_complete = plain_button (codes "Run Again") run ∷ []
welcome_buttons (exited_with code) = plain_button (codes "Run Again") run ∷ []
welcome_buttons session_crashed = []
welcome_buttons session_running = []
welcome_buttons idle_welcome =
    plain_button (codes "Start Sandbox") run
    ∷ plain_button (codes "How it works") (λ now. open_help)
    ∷ []

-- The top pane.
pub data Content : Type 0 where
  component_registry : Props → Content
  code_editor : (running : Bool) → Content
  welcome_pane : Welcome → Content

abbrev no_preview : Console → Content
no_preview s = elim s.input_mode [
  | editor ↦ code_editor (is_running s.sandbox_state)
  | demo ↦ welcome_pane (welcome s.sandbox_state s.last_exit_code)
]

abbrev content_for : Console → Option Text → Content
content_for s none = no_preview s
content_for s (some path) =
    if is_tab s.active_tab preview then component_registry (props_of path s) else no_preview s

unfoldable pub content : Console → Content
content s = content_for s (given s.preview_file)

-- The header of the terminal.
unfoldable pub terminal_hint : SandboxState → Option Text
terminal_hint idle = some (codes "Terminal connects when you start a session")
terminal_hint running = some (codes "Type to send stdin — output streams here")
terminal_hint _ = none

pub record Screen : Type 0 where
  pub help_overlay : Bool
  pub buttons : List Button
  pub mode_select : Select InputMode
  pub demo_select : Option (Select DemoKey)
  pub badge : Option Badge
  pub files_hint : Text
  pub vitals_panel : Bool
  pub tabs : List TabView
  pub content : Content
  pub terminal_hint : Option Text
  pub live : Bool

abbrev pub demo_select_of : InputMode → DemoKey → Bool → Option (Select DemoKey)
demo_select_of demo key disabled = some (record { value = key; disabled = disabled })
demo_select_of editor key disabled = none

unfoldable pub render : Console → Screen
unfolding badge tabs content
render s = record {
  help_overlay = s.help_open;
  buttons = toolbar s.sandbox_state;
  mode_select = record { value = s.input_mode; disabled = is_running s.sandbox_state };
  demo_select = demo_select_of s.input_mode s.selected_demo (is_running s.sandbox_state);
  badge = badge s;
  files_hint =
      if is_some (given s.session_id)
      then codes "Click a file to preview"
      else codes "Start a session to see files";
  vitals_panel = s.show_vitals;
  tabs = tabs s;
  content = content s;
  terminal_hint = terminal_hint s.sandbox_state;
  live = is_running s.sandbox_state;
}
