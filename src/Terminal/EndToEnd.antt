-- ===== src/Terminal/EndToEnd.antt =====
-- frontend/components/Terminal.tsx with frontend/components/ExecutionConsole.tsx: a session from the
-- socket to the console's state. The terminal's `onEnd` is the console's callback.
use isolator_v_wasm_sandbox.Common.{
  Text, ◌≡◌, ap, true, false, Option, none, some, or_else, All, List, [], ◌∷◌, ◌++◌, arith,
  if◌then◌else◌, is_zero, pos,
}
use isolator_v_wasm_sandbox.Console.{Console, SandboxState, crashed, nonzero, on_end}
use isolator_v_wasm_sandbox.Vfs.{Snapshot}
use isolator_v_wasm_sandbox.Terminal.{Chunk, Report, Terminal}
use isolator_v_wasm_sandbox.Terminal.Socket.{Control, is_exit, Event, react_all}
use isolator_v_wasm_sandbox.Terminal.Sessions.{Session, has_message}
use isolator_v_wasm_sandbox.Terminal.Reports.{
  IsInner, report_of, whole_session, react_all-whole_session,
}

-- The call `onEnd?.(…)` as the console sees it.
abbrev pub deliver : Report → Console → Console
deliver r s = on_end r.outcome r.vfs_snapshot r.exit_code s

-- The state that an exit frame stands for.
abbrev pub state_of : Control → SandboxState
state_of msg =
    if has_message msg.trap
    then crashed
    else if is_zero (or_else msg.code (pos 0))
    then SandboxState.complete
    else nonzero

abbrev nonempty_or : Option Snapshot → Snapshot → Snapshot
nonempty_or none old = old
nonempty_or (some []) old = old
nonempty_or (some (file ∷ files)) old = file ∷ files

-- The files that are shown after it: those of the frame if it has some and there was no trap, and
-- otherwise those that were shown before.
abbrev pub files_after : Control → Snapshot → Snapshot
files_after msg old = if has_message msg.trap then old else nonempty_or msg.vfs_snapshot old

deliver-report_of :
    (msg : Control) (s : Console)
    → ((deliver (report_of msg) s).sandbox_state ≡ state_of msg)
      × ((deliver (report_of msg) s).inline_vfs_snapshot ≡ files_after msg s.inline_vfs_snapshot)
unfolding on_end
deliver-report_of msg s = ground arith

-- A session that runs from a clean terminal to an exit frame and a close with code 1000 makes one
-- report, and what the console shows for it is what the frame says: crashed for a trap, complete for
-- exit code 0 or none, nonzero for another; with the frame's files if it has some and no trap, and
-- otherwise with the files that an earlier session left.
pub whole_session_shown :
    (before after : List Event) (msg : Control) (bytes : Chunk) (reason : Text) (t : Terminal)
    (s : Console)
    → is_exit msg ≡ true
    → All IsInner before
    → All IsInner after
    → t.vfs_snapshot ≡ none
    → t.has_trap ≡ false
    → (r : Report) × ((react_all (whole_session before msg bytes after 1000 reason) t).reports
        ≡ t.reports ++ r ∷ [])
      × ((deliver r s).sandbox_state ≡ state_of msg)
      × ((deliver r s).inline_vfs_snapshot ≡ files_after msg s.inline_vfs_snapshot)
whole_session_shown before after msg bytes reason t s x b a no_snapshot no_trap =
    let (state, files) = deliver-report_of msg s in
    (
      report_of msg,
      ap (λ (u : Session). u.told)
          (react_all-whole_session before after msg bytes reason t x b a no_snapshot no_trap),
      state,
      files,
    )
