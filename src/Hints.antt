-- ===== src/Hints.antt =====
-- frontend/components/StatusBar.tsx and frontend/components/HelpOverlay.tsx: the shortcuts that they
-- name, the rest of the status bar, and the overlay's own keyboard handler.
pub mod Laws
pub mod Guides
mod Tests
use isolator_v_wasm_sandbox.Common.{
  Text, codes, text_eq, is_truthy, Bool, true, false, Option, none, some, List, [], ◌∷◌, map,
  if◌then◌else◌, ◌++◌,
}
use isolator_v_wasm_sandbox.Console.{
  Console, SandboxState, idle, running, crashed, complete, nonzero,
}
use isolator_v_wasm_sandbox.Console.Keys.{KeyEvent}

pub data Icon : Type 0 where
  circle loader alert_triangle check_circle x_circle : Icon

-- One entry of `shortcuts`.
pub record Hint : Type 0 where
  pub keys : Text
  pub desc : Text

abbrev pub hint : Text → Text → Hint
hint keys desc = record { keys = keys; desc = desc }

pub record StateConfig : Type 0 where
  pub icon : Icon
  pub label : Text
  pub tip : Text
  pub shortcuts : List Hint

-- `STATE_CONFIG`
abbrev pub state_config : SandboxState → StateConfig
state_config idle = record {
  icon = circle;
  label = codes "Ready";
  tip = codes "Select a WASM module from the file tree, then start a session.";
  shortcuts = hint (codes "⌘↵") (codes "Run") ∷ hint (codes "?") (codes "Help") ∷ [];
}
state_config running = record {
  icon = loader;
  label = codes "Executing";
  tip = codes "Sandbox is live. Output streams to the terminal — type to send stdin.";
  shortcuts = hint (codes "Esc") (codes "Stop") ∷ hint (codes "⌘⇧R") (codes "Reset") ∷ [];
}
state_config crashed = record {
  icon = alert_triangle;
  label = codes "Crashed";
  tip = codes "Terminal renderer crashed. Click \"Reconnect\" in the terminal pane to restart.";
  shortcuts = hint (codes "⌘⇧R") (codes "Reset") ∷ hint (codes "?") (codes "Help") ∷ [];
}
state_config complete = record {
  icon = check_circle;
  label = codes "Complete";
  tip = codes "Execution finished. Click files in the tree to inspect outputs.";
  shortcuts = hint (codes "⌘⇧R") (codes "Reset") ∷ hint (codes "⌘↵") (codes "Run again") ∷ [];
}
state_config nonzero = record {
  icon = x_circle;
  label = codes "Non-zero exit";
  tip = codes "Process exited with a non-zero code. Check the terminal for error output.";
  shortcuts = hint (codes "⌘⇧R") (codes "Reset") ∷ hint (codes "⌘↵") (codes "Run again") ∷ [];
}

-- What the bar renders: the icon, the texts on the left, the tip, the shortcuts.
pub record Bar : Type 0 where
  pub icon : Icon
  pub left : List Text
  pub centre : Text
  pub right : List Hint

abbrev pub id_shown : Option Text → List Text
id_shown none = []
id_shown (some id) = if is_truthy id then id ∷ [] else []

unfoldable pub status_bar : SandboxState → Option Text → Bar
status_bar sandbox_state session_id =
    let cfg = state_config sandbox_state in
    record {
      icon = cfg.icon;
      left = cfg.label ∷ id_shown session_id;
      centre = cfg.tip;
      right = cfg.shortcuts;
    }

-- One row of the overlay's table of shortcuts; a row has its keys one by one.
pub record Shortcut : Type 0 where
  pub caps : List Text
  pub description : Text

abbrev pub row : List Text → Text → Shortcut
row caps description = record { caps = caps; description = description }

-- `SHORTCUTS`
abbrev pub shortcuts_table : List Shortcut
shortcuts_table =
    row (codes "⌘" ∷ codes "↵" ∷ []) (codes "Start sandbox session")
    ∷ row (codes "Esc" ∷ []) (codes "Stop running session")
    ∷ row (codes "⌘" ∷ codes "⇧" ∷ codes "R" ∷ []) (codes "Reset — clear session and terminal")
    ∷ row (codes "?" ∷ []) (codes "Open this help overlay")
    ∷ row (codes "⌘" ∷ codes "K" ∷ []) (codes "Open command palette")
    ∷ row (codes "⌘" ∷ codes "⇧" ∷ codes "T" ∷ []) (codes "Switch to Terminal tab")
    ∷ row (codes "⌘" ∷ codes "⇧" ∷ codes "P" ∷ []) (codes "Switch to Preview tab")
    ∷ []

-- The overlay's keyboard handler, with the console's `onClose`; it listens while the overlay is open.
unfoldable pub handle_key : KeyEvent → Console → Console
unfolding text_eq
handle_key e s = if text_eq e.key (codes "Escape") then record s { help_open = false } else s
