-- ===== src/Hints/Guides.antt =====
-- frontend/components/HelpOverlay.tsx: the guides of the help overlay, and the clicks that close it.
pub mod Previews
use isolator_v_wasm_sandbox.Common.{Text, codes, false, List, [], ◌∷◌}
use isolator_v_wasm_sandbox.Console.{Console}
use isolator_v_wasm_sandbox.Hints.{Shortcut, shortcuts_table}

-- One of the three steps of the first section.
pub record StartStep : Type 0 where
  pub step : Text
  pub heading : Text
  pub body : Text

abbrev pub getting_started : List StartStep
getting_started =
    record {
      step = codes "1";
      heading = codes "Start a Session";
      body =
          codes
            "Press Run (⌘↵) to create a new sandbox session. A unique session ID appears in the toolbar.";
    }
    ∷ record {
      step = codes "2";
      heading = codes "Watch the Terminal";
      body =
          codes
            "The execution terminal streams live stdout and stderr from your WASM module. You can type to send stdin.";
    }
    ∷ record {
      step = codes "3";
      heading = codes "Inspect Output Files";
      body =
          codes
            "Files written by the sandbox appear in the left panel. Click any file to open an interactive preview.";
    }
    ∷ []

-- An entry of `PANELS`, without its icon.
pub record PanelGuide : Type 0 where
  pub name : Text
  pub location : Text
  pub desc : Text

abbrev pub panels : List PanelGuide
panels =
    record {
      name = codes "File Tree";
      location = codes "Left sidebar";
      desc =
          codes
            "Shows all files written by the sandbox during execution. Updates every 3 s while a session is live. Click any file to open a preview.";
    }
    ∷ record {
      name = codes "Console / Preview";
      location = codes "Top-right pane";
      desc =
          codes
            "The Console tab shows the welcome screen and execution summary. The Preview tab opens automatically when you click a file in the tree.";
    }
    ∷ record {
      name = codes "Execution Terminal";
      location = codes "Bottom-right pane";
      desc =
          codes
            "Live WebSocket-streamed stdout and stderr from the WASM sandbox. Hardware-accelerated with WebGL. Supports keyboard input forwarded as stdin.";
    }
    ∷ record {
      name = codes "Agent Vitals";
      location = codes "Toolbar (right) + Left sidebar (bottom)";
      desc =
          codes
            "Real-time memory usage, CPU load, and wall-clock elapsed time. Sparklines are drawn at 60 FPS on a canvas element.";
    }
    ∷ []

-- An entry of `PREVIEWS`, without its icon.
pub record PreviewGuide : Type 0 where
  pub ext : Text
  pub label : Text

abbrev pub guide : Text → Text → PreviewGuide
guide ext label = record { ext = ext; label = label }

abbrev pub previews : List PreviewGuide
previews =
    guide (codes ".csv") (codes "Sortable, paginated data grid")
    ∷ guide (codes ".json / .plot") (codes "Auto-detected timeseries bar chart")
    ∷ guide (codes ".wasm") (codes "Sections, exports & imports inspector")
    ∷ guide (codes ".log / .txt") (codes "Line-numbered log viewer (ANSI stripped)")
    ∷ guide (codes ".md") (codes "Markdown rendered as plain text")
    ∷ guide (codes ".png / .svg") (codes "Image viewer")
    ∷ []

abbrev pub tips : List Text
tips =
    codes "Drag the resize handles between panels to customise the layout to your workflow."
    ∷ codes
        "The file tree polls for new files every 3 s. Ghost files (faded, \"pending\" badge) are optimistically shown before the server confirms them."
    ∷ codes
        "Opening the same session in multiple tabs keeps the file trees in sync automatically using CRDT merge (Automerge)."
    ∷ codes
        "The terminal supports full ANSI colour sequences and passes keystrokes back to the sandbox as stdin."
    ∷ codes
        "If the terminal crashes with a Kernel Panic screen, click Reconnect to reinitialise the renderer without losing the session."
    ∷ []

-- What stands under a title of the overlay.
pub data Body : Type 0 where
  steps : List StartStep → Body
  shortcuts : List Shortcut → (note : Text) → Body
  panel_guide : List PanelGuide → Body
  preview_guide : List PreviewGuide → Body
  tip_list : List Text → Body

-- `Section`
pub record Section : Type 0 where
  pub title : Text
  pub children : Body

abbrev pub section : Text → Body → Section
section title children = record { title = title; children = children }

abbrev pub sections : List Section
sections =
    section (codes "Getting Started") (steps getting_started)
    ∷ section (codes "Keyboard Shortcuts")
        (shortcuts shortcuts_table (codes "On Windows / Linux replace ⌘ with Ctrl."))
    ∷ section (codes "Panel Guide") (panel_guide panels)
    ∷ section (codes "File Previews") (preview_guide previews)
    ∷ section (codes "Tips") (tip_list tips)
    ∷ []

-- What a click in the overlay hits: the backdrop itself, something in the panel that stands on it, or
-- one of the two buttons.
pub data Target : Type 0 where
  backdrop panel close_help got_it : Target

-- `onClose`
abbrev pub close_overlay : Console → Console
close_overlay s = record s { help_open = false }

-- A click bubbles up to the backdrop, which closes the overlay only for a click of its own.
unfoldable pub click : Target → Console → Console
click backdrop s = close_overlay s
click panel s = s
click close_help s = close_overlay s
click got_it s = close_overlay s
