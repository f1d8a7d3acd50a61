-- ===== src/Hints/Laws.antt =====
-- frontend/components/StatusBar.tsx and frontend/components/HelpOverlay.tsx with the keyboard handler of
-- frontend/components/ExecutionConsole.tsx: what the named shortcuts do.
use Prim.{tt}
use mathlib.Core.List.{append-nil}
use isolator_v_wasm_sandbox.Terminal.{Terminal, Write, output, drain}
use isolator_v_wasm_sandbox.Terminal.Socket.{cleaned_up, cleanup, react}
use isolator_v_wasm_sandbox.Common.{
  sym, map, Bool-cases, inl, inr, Text, codes, text_eq, to_lower_case, to_lower_unit, ℕ, ◌==◌, ◌≡◌,
  ◌≢◌, refl, Bool, true, false, not, ◌&&◌, none, some, List, [], ◌∷◌, ◌++◌, All, if◌then◌else◌,
  arith,
}
use isolator_v_wasm_sandbox.Console.{
  Console, SandboxState, idle, running, crashed, complete, nonzero, terminal, preview, is_running,
  handle_run, handle_stop, handle_reset,
}
use isolator_v_wasm_sandbox.Console.SessionId.{session_id_at}
use isolator_v_wasm_sandbox.Console.Keys.{has_path, KeyEvent, keydown, open_preview}
use isolator_v_wasm_sandbox.Hints.{
  Hint, state_config, status_bar, Shortcut, shortcuts_table, handle_key,
}

-- The event of the keys that a hint names: ⌘ is the modifier of the platform, ⇧ the shift key, ↵ and
-- Esc the named keys (⌘ and ⇧ are the code units 8984 and 8679), and any other key gives its letter, small where shift is not held.
abbrev pub with_letter : Bool → Bool → Bool → Text → KeyEvent
with_letter is_mac modified shifted letter = record {
  key = letter;
  meta_key = modified && is_mac;
  ctrl_key = modified && not is_mac;
  shift_key = shifted;
  in_text_input = false;
}

abbrev pub letter_of : Bool → Text → Text
letter_of true cap = cap
letter_of false cap = to_lower_case cap

abbrev pub cap_of : Bool → Text → Text
cap_of shifted cap =
    if text_eq cap (codes "↵")
    then codes "Enter"
    else if text_eq cap (codes "Esc")
    then codes "Escape"
    else letter_of shifted cap

abbrev pub press_from : Bool → Bool → Bool → Text → KeyEvent
press_from is_mac modified shifted [] = with_letter is_mac modified shifted []
press_from is_mac modified shifted (c ∷ s) =
    let with_mod = press_from is_mac true shifted s in
    let with_shift = press_from is_mac modified true s in
    if c == 8984
    then with_mod
    else if c == 8679
    then with_shift
    else with_letter is_mac modified shifted (cap_of shifted (c ∷ s))

abbrev pub press : Bool → Text → KeyEvent
press is_mac keys = press_from is_mac false false keys

-- What the words of a hint say that happens to the console.
pub data Promise : Type 0 where
  starts stops resets toggles_help opens_help shows_terminal shows_preview nothing : Promise

abbrev pub promises : List (Text × Promise)
promises =
    (codes "Run", starts)
    ∷ (codes "Run again", starts)
    ∷ (codes "Stop", stops)
    ∷ (codes "Reset", resets)
    ∷ (codes "Help", toggles_help)
    ∷ (codes "Start sandbox session", starts)
    ∷ (codes "Stop running session", stops)
    ∷ (codes "Reset — clear session and terminal", resets)
    ∷ (codes "Open this help overlay", toggles_help)
    ∷ (codes "Open command palette", opens_help)
    ∷ (codes "Switch to Terminal tab", shows_terminal)
    ∷ (codes "Switch to Preview tab", shows_preview)
    ∷ []

abbrev pub promise_in : List (Text × Promise) → Text → Promise
promise_in [] words = nothing
promise_in ((w, p) ∷ ps) words = if text_eq w words then p else promise_in ps words

abbrev pub promise_of : Text → Promise
promise_of words = promise_in promises words

-- That it happens, from the console `s` to the console `after`.
abbrev pub IsKept : ℕ → Console → Promise → Console → Type 0
IsKept now s starts after =
    (after.sandbox_state ≡ running)
    × (after.session_id
        ≡ (if is_running s.sandbox_state then s.session_id else some (session_id_at now)))
IsKept now s stops after = after.sandbox_state ≢ running
IsKept now s resets after =
    (after.sandbox_state ≡ idle) × (after.session_id ≡ none) × (after.inline_vfs_entries ≡ [])
IsKept now s toggles_help after = after.help_open ≡ not s.help_open
IsKept now s opens_help after = after.help_open ≡ true
IsKept now s shows_terminal after = after.active_tab ≡ terminal
IsKept now s shows_preview after =
    after.active_tab ≡ (if has_path s.preview_file then preview else s.active_tab)
IsKept now s nothing after = ⊥

starts-IsKept : (now : ℕ) (s : Console) → IsKept now s starts (handle_run now s)
unfolding handle_run
starts-IsKept now s = ground arith

stops-IsKept : (now : ℕ) (s : Console) → IsKept now s stops (handle_stop s)
unfolding handle_stop
stops-IsKept now s = ground arith

resets-IsKept : (now : ℕ) (s : Console) → IsKept now s resets (handle_reset s)
unfolding handle_reset
resets-IsKept now s = (refl, refl, refl)

-- A hint on the status bar keeps its word.
abbrev pub IsHonest : Bool → ℕ → Console → Hint → Type 0
IsHonest is_mac now s h =
    IsKept now s (promise_of h.desc) (keydown is_mac now (press is_mac h.keys) s)

hints_of :
    (is_mac : Bool) (now : ℕ) (s : Console) (state : SandboxState)
    → All (IsHonest is_mac now s) (state_config state).shortcuts
unfolding keydown text_eq to_lower_case to_lower_unit
hints_of true now s idle = (starts-IsKept now s, (refl, tt))
hints_of false now s idle = (starts-IsKept now s, (refl, tt))
hints_of true now s running = (stops-IsKept now s, (resets-IsKept now s, tt))
hints_of false now s running = (stops-IsKept now s, (resets-IsKept now s, tt))
hints_of true now s crashed = (resets-IsKept now s, (refl, tt))
hints_of false now s crashed = (resets-IsKept now s, (refl, tt))
hints_of true now s complete = (resets-IsKept now s, (starts-IsKept now s, tt))
hints_of false now s complete = (resets-IsKept now s, (starts-IsKept now s, tt))
hints_of true now s nonzero = (resets-IsKept now s, (starts-IsKept now s, tt))
hints_of false now s nonzero = (resets-IsKept now s, (starts-IsKept now s, tt))

-- Every shortcut that the status bar names does, when it is pressed on either platform outside a
-- text input, what its words say: it starts a session with the id of the time (a session that runs
-- goes on), stops the session, clears the console, or toggles the help overlay.
pub status_bar-IsHonest :
    (is_mac : Bool) (now : ℕ) (s : Console)
    → All (IsHonest is_mac now s) (status_bar s.sandbox_state s.session_id).right
unfolding status_bar
status_bar-IsHonest is_mac now s = hints_of is_mac now s s.sandbox_state

-- A row of the overlay's table, with the keys written one after the other, keeps its word.
abbrev pub join : List Text → Text
join [] = []
join (cap ∷ caps) = cap ++ join caps

abbrev pub IsHonestRow : Bool → ℕ → Console → Shortcut → Type 0
IsHonestRow is_mac now s r =
    IsKept now s (promise_of r.description) (keydown is_mac now (press is_mac (join r.caps)) s)

shows_preview-IsKept : (now : ℕ) (s : Console) → IsKept now s shows_preview (open_preview s)
shows_preview-IsKept now s = ground arith

cleanup-keeps_screen :
    (t : Terminal) → (more : List Write) × ((react cleaned_up t).screen ≡ t.screen ++ more)
unfolding react cleanup drain
cleanup-keeps_screen t = elim (Bool-cases t.ready) [
  | inl e ↦ (map output t.buffer, rw e refl)
  | inr e ↦ ([], rw e (sym (append-nil t.screen)))
]

table_rows :
    (is_mac : Bool) (now : ℕ) (s : Console) → All (IsHonestRow is_mac now s) shortcuts_table
unfolding keydown text_eq to_lower_case to_lower_unit
table_rows true now s = (
  starts-IsKept now s,
  (
    stops-IsKept now s,
    (resets-IsKept now s, (refl, (refl, (refl, (shows_preview-IsKept now s, tt))))),
  ),
)
table_rows false now s = (
  starts-IsKept now s,
  (
    stops-IsKept now s,
    (resets-IsKept now s, (refl, (refl, (refl, (shows_preview-IsKept now s, tt))))),
  ),
)

-- Every row of the help overlay's table of shortcuts does, when its keys are pressed together on
-- either platform outside a text input, what its words say of the console, where the command palette
-- is the help overlay itself, the help key toggles the overlay, a session that runs is not started
-- again, and the preview tab is shown if a file is open. What the row of Reset says of the terminal is
-- not so: the console drops the session and its files, while the cleanup that ends the session keeps
-- all that the terminal has shown.
pub shortcuts_table-IsHonest :
    (is_mac : Bool) (now : ℕ) (s : Console) (t : Terminal)
    → All (IsHonestRow is_mac now s) shortcuts_table
      × ((more : List Write) × ((react cleaned_up t).screen ≡ t.screen ++ more))
shortcuts_table-IsHonest is_mac now s t = (table_rows is_mac now s, cleanup-keeps_screen t)

-- The listeners of the window while the overlay is open: the console's and the overlay's, in the
-- order in which they were added. Both get each event.
abbrev pub listeners : Bool → ℕ → KeyEvent → Console → Console
listeners is_mac now e s = handle_key e (keydown is_mac now e s)

-- The Escape key closes the open overlay and stops a running session at once; nothing else of the
-- console changes.
pub listeners-escape :
    (is_mac : Bool) (now : ℕ) (s : Console)
    → listeners is_mac now (press is_mac (codes "Esc")) s
      ≡ record (handle_stop s) { help_open = false }
unfolding keydown handle_key text_eq handle_stop
listeners-escape true now s = refl
listeners-escape false now s = refl
