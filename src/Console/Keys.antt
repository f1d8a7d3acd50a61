-- ===== src/Console/Keys.antt =====
-- frontend/components/ExecutionConsole.tsx: the keyboard shortcuts.
use isolator_v_wasm_sandbox.Common.{
  is_truthy, Option, none, some, false, Text, codes, text_eq, ℕ, Bool, true, not, ◌&&◌,
  if◌then◌else◌,
}
use isolator_v_wasm_sandbox.Console.{
  Console, terminal, preview, handle_run, handle_stop, handle_reset,
}

-- What the handler reads of a `KeyboardEvent`; `in_text_input` says that the target is an input or
-- a text area.
pub record KeyEvent : Type 0 where
  pub key : Text
  pub meta_key : Bool
  pub ctrl_key : Bool
  pub shift_key : Bool
  pub in_text_input : Bool

abbrev key_is : KeyEvent → Text → Bool
key_is e k = text_eq e.key k

-- ⌘ on a Mac, Ctrl elsewhere.
abbrev pub mod_key : Bool → KeyEvent → Bool
mod_key is_mac e = if is_mac then e.meta_key else e.ctrl_key

-- A path that is there and not empty.
abbrev pub has_path : Option Text → Bool
has_path none = false
has_path (some path) = is_truthy path

abbrev pub open_preview : Console → Console
open_preview s = if has_path s.preview_file then record s { active_tab = preview } else s

-- The tests come in the order of the source; each that holds ends the handler.
unfoldable pub keydown : Bool → ℕ → KeyEvent → Console → Console
keydown is_mac now e s =
    if mod_key is_mac e && key_is e (codes "Enter") && not e.shift_key
    then handle_run now s
    else if key_is e (codes "Escape") && not e.shift_key && not (mod_key is_mac e)
    then handle_stop s
    else if mod_key is_mac e && e.shift_key && key_is e (codes "R")
    then handle_reset s
    else if mod_key is_mac e && e.shift_key && key_is e (codes "T")
    then record s { active_tab = terminal }
    else if mod_key is_mac e && e.shift_key && key_is e (codes "P")
    then open_preview s
    else if key_is e (codes "?") && not (mod_key is_mac e) && not e.in_text_input
    then record s { help_open = not s.help_open }
    else if mod_key is_mac e && key_is e (codes "k")
    then record s { help_open = true }
    else s
