-- ===== src/Console/Invariant.antt =====
-- frontend/components/ExecutionConsole.tsx: what holds of the console between two events.
use isolator_v_wasm_sandbox.Common.{
  Text, ℕ, ◌≡◌, ◌⊎◌, Bool, true, false, Option, none, List, [], ◌∷◌, map, not, is_some, is_zero,
  if_elim, arith, ℤ,
}
use isolator_v_wasm_sandbox.Console.{
  Console, SandboxState, running, nonzero, terminal, preview, Decoder, Outcome, initial, entry_of,
  handle_run, handle_compiled, handle_stop, handle_reset, handle_file_select, handle_crash,
  handle_reconnect, on_end, after_commit,
}
use isolator_v_wasm_sandbox.Vfs.{Snapshot}
use isolator_v_wasm_sandbox.Console.Keys.{KeyEvent, keydown}
use isolator_v_wasm_sandbox.Console.Actions.{
  Action, run, compiled, stop, reset, file_select, crash, reconnect, end, key, react, step, run_all,
  click_preview,
}

-- What every handler keeps.
pub record Inv (s : Console) : Type 0 where
  pub session_live : s.sandbox_state ≡ running → is_some s.session_id ≡ true
  pub preview_open : s.active_tab ≡ preview → is_some s.preview_file ≡ true
  pub entries_listed : s.inline_vfs_entries ≡ map entry_of s.inline_vfs_snapshot
  pub one_content : (s.inline_file_content ≡ none) ⊎ (s.inline_file_b64 ≡ none)
  pub clean_exit : s.sandbox_state ≡ SandboxState.complete → is_zero s.last_exit_code ≡ true
  pub failed_exit : s.sandbox_state ≡ nonzero → is_zero s.last_exit_code ≡ false

initial-Inv : Inv initial
unfolding initial
initial-Inv = ground arith

handle_run-Inv : (now : ℕ) (s : Console) → Inv s → Inv (handle_run now s)
unfolding handle_run
handle_run-Inv now s h = ground arith

handle_compiled-Inv : (now : ℕ) (b : Text) (s : Console) → Inv s → Inv (handle_compiled now b s)
unfolding handle_compiled
handle_compiled-Inv now b s h = ground arith

handle_stop-Inv : (s : Console) → Inv s → Inv (handle_stop s)
unfolding handle_stop
handle_stop-Inv s h = ground arith

handle_reset-Inv : (s : Console) → Inv s → Inv (handle_reset s)
unfolding handle_reset
handle_reset-Inv s h = ground arith

handle_file_select-Inv :
    (decode : Decoder) (path : Text) (s : Console) → Inv s → Inv (handle_file_select decode path s)
unfolding handle_file_select
handle_file_select-Inv decode path s h = ground arith

on_end-Inv :
    (o : Outcome) (v : Option Snapshot) (c : Option ℤ) (s : Console) → Inv s → Inv (on_end o v c s)
unfolding on_end
on_end-Inv o v c s h = ground arith

handle_crash-Inv : (s : Console) → Inv s → Inv (handle_crash s)
unfolding handle_crash
handle_crash-Inv s h = ground arith

handle_reconnect-Inv : (s : Console) → Inv s → Inv (handle_reconnect s)
unfolding handle_reconnect
handle_reconnect-Inv s h = ground arith

show_terminal-Inv : (s : Console) → Inv s → Inv (record s { active_tab = terminal })
show_terminal-Inv s h = ground arith

click_preview-Inv : (s : Console) → Inv s → Inv (click_preview s)
click_preview-Inv s h = ground arith

help_open-Inv : (b : Bool) (s : Console) → Inv s → Inv (record s { help_open = b })
help_open-Inv b s h = ground arith

keydown-Inv :
    (is_mac : Bool) (now : ℕ) (e : KeyEvent) (s : Console) → Inv s → Inv (keydown is_mac now e s)
unfolding keydown
keydown-Inv is_mac now e s h = if_elim Inv _ _ _ (handle_run-Inv now s h) (
    if_elim Inv _ _ _ (handle_stop-Inv s h) (
      if_elim Inv _ _ _ (handle_reset-Inv s h) (
        if_elim Inv _ _ _ (show_terminal-Inv s h) (
          if_elim Inv _ _ _ (click_preview-Inv s h) (
            if_elim Inv _ _ _ (help_open-Inv (not s.help_open) s h)
              (if_elim Inv _ _ _ (help_open-Inv true s h) h))))))

react-Inv :
    (is_mac : Bool) (decode : Decoder) (a : Action) (s : Console)
    → Inv s
    → Inv (react is_mac decode a s)
unfolding react
react-Inv is_mac decode (run now) s h = handle_run-Inv now s h
react-Inv is_mac decode (compiled now b) s h = handle_compiled-Inv now b s h
react-Inv is_mac decode stop s h = handle_stop-Inv s h
react-Inv is_mac decode reset s h = handle_reset-Inv s h
react-Inv is_mac decode (file_select path) s h = handle_file_select-Inv decode path s h
react-Inv is_mac decode crash s h = handle_crash-Inv s h
react-Inv is_mac decode reconnect s h = handle_reconnect-Inv s h
react-Inv is_mac decode (end o v c) s h = on_end-Inv o v c s h
react-Inv is_mac decode (key now e) s h = keydown-Inv is_mac now e s h
react-Inv is_mac decode _ s h = ground arith

after_commit-Inv : (s : Console) → Inv s → Inv (after_commit s)
unfolding after_commit
after_commit-Inv s h = ground arith

run_all-Inv_from :
    (is_mac : Bool) (decode : Decoder) (as' : List Action) (s : Console)
    → Inv s
    → Inv (run_all is_mac decode as' s)
unfolding run_all step
run_all-Inv_from is_mac decode [] s h = h
run_all-Inv_from is_mac decode (a ∷ as') s h =
    run_all-Inv_from is_mac decode as' (after_commit (react is_mac decode a s))
      (after_commit-Inv _ (react-Inv is_mac decode a s h))

-- Whatever events the console has seen since it was mounted: a running session has an id; the
-- preview tab is shown only with a file open; the file tree's inline entries are those of the
-- stored snapshot; no more than one of the decoded text and the raw base64 is kept; and the states
-- `complete` and `nonzero` go with an exit code that is zero, or is not.
pub run_all-Inv :
    (is_mac : Bool) (decode : Decoder) (as' : List Action) → Inv (run_all is_mac decode as' initial)
run_all-Inv is_mac decode as' = run_all-Inv_from is_mac decode as' initial initial-Inv
