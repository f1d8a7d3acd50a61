-- ===== src/Terminal/Xterm.antt =====
-- frontend/components/Terminal.tsx: the life of the xterm instance, from the dynamic import to its
-- disposal, and its palette, which follows the theme of frontend/components/ThemeToggle.tsx. An
-- effect is cut where the code waits: at the promise of the modules, and at the first animation
-- frame. `opened` counts the instances that are open, which the code does not keep.
pub mod Kept
pub mod Follows
mod Tests
use isolator_v_wasm_sandbox.Common.{
  Text, codes, ℕ, ◌+◌, ◌-◌, Bool, true, false, Option, none, some, List, [], ◌∷◌, ◌++◌, map,
  if◌then◌else◌,
}
use isolator_v_wasm_sandbox.Theme.{Page, toggle}

-- `ITheme`
pub record Palette : Type 0 where
  pub background : Text
  pub foreground : Text
  pub cursor : Text
  pub cursor_accent : Text
  pub selection_background : Text
  pub black : Text
  pub red : Text
  pub green : Text
  pub yellow : Text
  pub blue : Text
  pub magenta : Text
  pub cyan : Text
  pub white : Text
  pub bright_black : Text
  pub bright_red : Text
  pub bright_green : Text
  pub bright_yellow : Text
  pub bright_blue : Text
  pub bright_magenta : Text
  pub bright_cyan : Text
  pub bright_white : Text

unfoldable pub xterm_dark : Palette
xterm_dark = record {
  background = codes "#08080a";
  foreground = codes "#e8e8f0";
  cursor = codes "#6366f1";
  cursor_accent = codes "#f1f5f9";
  selection_background = codes "rgba(99,102,241,0.3)";
  black = codes "#1e1e26";
  red = codes "#f87171";
  green = codes "#4ade80";
  yellow = codes "#facc15";
  blue = codes "#60a5fa";
  magenta = codes "#c084fc";
  cyan = codes "#22d3ee";
  white = codes "#e8e8f0";
  bright_black = codes "#404060";
  bright_red = codes "#ef4444";
  bright_green = codes "#22c55e";
  bright_yellow = codes "#f59e0b";
  bright_blue = codes "#818cf8";
  bright_magenta = codes "#a855f7";
  bright_cyan = codes "#06b6d4";
  bright_white = codes "#f1f5f9";
}

unfoldable pub xterm_light : Palette
xterm_light = record {
  background = codes "#f4f4f8";
  foreground = codes "#1a1a2e";
  cursor = codes "#6366f1";
  cursor_accent = codes "#ffffff";
  selection_background = codes "rgba(99,102,241,0.25)";
  black = codes "#2c2c3e";
  red = codes "#c0392b";
  green = codes "#1a7a40";
  yellow = codes "#b7770d";
  blue = codes "#2563eb";
  magenta = codes "#7c3aed";
  cyan = codes "#0e7490";
  white = codes "#52527a";
  bright_black = codes "#6c6c8c";
  bright_red = codes "#e53e3e";
  bright_green = codes "#16a34a";
  bright_yellow = codes "#d97706";
  bright_blue = codes "#3b82f6";
  bright_magenta = codes "#9333ea";
  bright_cyan = codes "#0891b2";
  bright_white = codes "#1a1a2e";
}

-- `getXtermTheme`, on the page that is there when it is called.
unfoldable pub get_xterm_theme : Page → Palette
get_xterm_theme p = if p.light_class then xterm_light else xterm_dark

-- An instance, as far as the component changes it.
pub record Xterm : Type 0 where
  pub theme : Palette
  pub disposed : Bool

-- `loads` are the flags `disposed` of the effects whose modules have not come, the oldest first;
-- `waiting` are the instances that are open but whose first frame has not come; `xterm` is `xtermRef`.
pub record Stage : Type 0 where
  pub page : Page
  pub is_mounted : Bool
  pub loads : List Bool
  pub waiting : List Xterm
  pub xterm : Option Xterm
  pub opened : ℕ

unfoldable pub unmounted_on : Page → Stage
unmounted_on p = record {
  page = p;
  is_mounted = false;
  loads = [];
  waiting = [];
  xterm = none;
  opened = 0;
}

unfoldable pub mount : Stage → Stage
mount s = record s { is_mounted = true; loads = s.loads ++ false ∷ [] }

-- The promise of the modules that were asked for first is fulfilled.
abbrev pub open_unless : Bool → Stage → Stage
open_unless true s = s
open_unless false s = record s {
  waiting = s.waiting ++ record { theme = get_xterm_theme s.page; disposed = false } ∷ [];
  opened = s.opened + 1;
}

abbrev pub loaded_first : List Bool → Stage → Stage
loaded_first [] s = s
loaded_first (disposed ∷ loads) s = open_unless disposed (record s { loads = loads })

unfoldable pub modules_loaded : Stage → Stage
modules_loaded s = loaded_first s.loads s

-- The callback of the frame that follows: the instance is put in the ref. `Terminal.loaded` has what
-- else it does.
abbrev pub ready_first : List Xterm → Stage → Stage
ready_first [] s = s
ready_first (term ∷ waiting) s = record s { waiting = waiting; xterm = some term }

unfoldable pub first_frame : Stage → Stage
first_frame s = ready_first s.waiting s

-- The callback of the MutationObserver.
abbrev pub recoloured : Page → Option Xterm → Option Xterm
recoloured p none = none
recoloured p (some x) = some (record x { theme = get_xterm_theme p })

-- A click on the theme toggle, which changes the classes of the page, and the observer's callback,
-- which is called while the component is mounted.
unfoldable pub toggled : Bool → Stage → Stage
toggled saved s =
    let p = toggle saved s.page in
    record s { page = p; xterm = if s.is_mounted then recoloured p s.xterm else s.xterm }

abbrev pub disposed_of : Option Xterm → Option Xterm
disposed_of none = none
disposed_of (some x) = some (record x { disposed = true })

-- How many instances of a ref are open.
abbrev pub alive : Option Xterm → ℕ
alive none = 0
alive (some x) = if x.disposed then 0 else 1

abbrev pub dispose_loads : List Bool → List Bool
dispose_loads [] = []
dispose_loads (disposed ∷ loads) = true ∷ dispose_loads loads

-- The cleanups of the effects. Those of earlier effects have set their flags already.
unfoldable pub unmount : Stage → Stage
unmount s = record s {
  is_mounted = false;
  loads = dispose_loads s.loads;
  xterm = disposed_of s.xterm;
  opened = s.opened - alive s.xterm;
}

pub data Event : Type 0 where
  mounts loads_modules draws_frame unmounts : Event
  toggles : (saved : Bool) → Event

unfoldable pub step : Event → Stage → Stage
unfolding mount modules_loaded first_frame unmount toggled
step mounts s = mount s
step loads_modules s = modules_loaded s
step draws_frame s = first_frame s
step unmounts s = unmount s
step (toggles saved) s = toggled saved s

unfoldable pub run_all : List Event → Stage → Stage
unfolding step
run_all [] s = s
run_all (e ∷ es) s = run_all es (step e s)
