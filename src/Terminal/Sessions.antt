-- ===== src/Terminal/Sessions.antt =====
-- frontend/components/Terminal.tsx: what the parent is told of a session's end. The refs that the
-- close handler reads form a small machine of their own.
use isolator_v_wasm_sandbox.Common.{
  Text, ℕ, ◌≡◌, refl, ap, ◌∙◌, Bool, true, false, Bool-cases, inl, inr, Option, none, some, or_else,
  if_elim, List, [], ◌∷◌, ◌++◌, arith, if◌then◌else◌, ◌==◌, ℤ, pos,
}
use isolator_v_wasm_sandbox.Console.{Outcome, error}
use isolator_v_wasm_sandbox.Vfs.{Snapshot}
use isolator_v_wasm_sandbox.Terminal.{
  Chunk, Line, connected, request_sent, send_failed, no_wasm, connection_lost, Report, Terminal,
  writeln, drain, loaded, flush_buffer, enqueue,
}
use isolator_v_wasm_sandbox.Terminal.Socket.{
  Control, Parsed, throws, null_value, control, is_exit, on_open, on_exit_frame, on_text, on_error,
  on_close, on_input, open_session, cleanup, Event, xterm_loaded, animation_frame, session_opened,
  socket_error, cleaned_up, socket_opened, binary_frame, text_frame, socket_closed, typed, react,
  react_all,
}

-- What is known of the session: whether its close is intended, what the exit frame brought, and
-- what the parent has been told.
pub record Session : Type 0 where
  pub closing : Bool
  pub snapshot : Option Snapshot
  pub code : Option ℤ
  pub trapped : Bool
  pub told : List Report

abbrev pub session_of : Terminal → Session
session_of t = record {
  closing = t.intentional_close;
  snapshot = t.vfs_snapshot;
  code = t.exit_code;
  trapped = t.has_trap;
  told = t.reports;
}

abbrev pub failed : Report
failed = record { outcome = error; vfs_snapshot = none; exit_code = none }

abbrev pub finished : Option Snapshot → ℤ → Report
finished snapshot code = record {
  outcome = Outcome.complete;
  vfs_snapshot = snapshot;
  exit_code = some code;
}

-- A trap with an empty message counts as none.
abbrev pub has_message : Option Text → Bool
has_message none = false
has_message (some []) = false
has_message (some (c ∷ s)) = true

abbrev pub newer : Option Snapshot → Option Snapshot → Option Snapshot
newer none old = old
newer (some snapshot) old = some snapshot

abbrev pub exit_session : Control → Session → Session
exit_session msg s = record s {
  snapshot = newer msg.vfs_snapshot s.snapshot;
  code = some (or_else msg.code (pos 0));
  trapped = if has_message msg.trap then true else s.trapped;
}

abbrev pub closing_report : Session → Report
closing_report s = if s.trapped then failed else finished s.snapshot (or_else s.code (pos 0))

abbrev pub close_session : ℕ → Session → Session
close_session code s =
    if s.closing
    then s
    else if code == 1000
    then record {
      closing = s.closing;
      snapshot = none;
      code = none;
      trapped = false;
      told = s.told ++ closing_report s ∷ [];
    }
    else record s { told = s.told ++ failed ∷ [] }

abbrev pub session_step : Event → Session → Session
session_step session_opened s = record s { closing = false }
session_step cleaned_up s = record s { closing = true }
session_step (text_frame (control msg) bytes) s = if is_exit msg then exit_session msg s else s
session_step (socket_closed code reason) s = close_session code s
session_step _ s = s

abbrev pub session_steps : List Event → Session → Session
session_steps [] s = s
session_steps (e ∷ es) s = session_steps es (session_step e s)

session-writeln : (l : Line) (t : Terminal) → session_of (writeln l t) ≡ session_of t
unfolding writeln
session-writeln l t = ground arith

session-drain : (t : Terminal) → session_of (drain t) ≡ session_of t
unfolding drain
session-drain t = refl

session-flush_buffer : (t : Terminal) → session_of (flush_buffer t) ≡ session_of t
unfolding flush_buffer
session-flush_buffer t = ground arith

session-on_open :
    (b : Bool) (id : Text) (wasm : Option Text) (t : Terminal)
    → session_of (on_open b id wasm t) ≡ session_of t
unfolding on_open
session-on_open b id wasm t =
    let same = λ (u : Terminal). session_of u ≡ session_of t in
    let greeted = session-writeln (connected id) t in
    if_elim same _ _ _
      (if_elim same b _ _ (session-writeln send_failed _ ∙ greeted)
        (session-writeln request_sent _ ∙ greeted))
      (session-writeln no_wasm _ ∙ greeted)

session-on_exit_frame :
    (msg : Control) (t : Terminal)
    → session_of (on_exit_frame msg t) ≡ exit_session msg (session_of t)
unfolding on_exit_frame drain writeln
session-on_exit_frame msg t = ground arith

session-on_close :
    (code : ℕ) (reason : Text) (t : Terminal)
    → session_of (on_close code reason t) ≡ close_session code (session_of t)
unfolding on_close writeln
session-on_close code reason t = ground arith

session-on_text :
    (p : Parsed) (bytes : Chunk) (t : Terminal)
    → session_of (on_text p bytes t) ≡ session_step (text_frame p bytes) (session_of t)
unfolding on_text enqueue
session-on_text throws bytes t = refl
session-on_text null_value bytes t = refl
session-on_text (control msg) bytes t = elim (Bool-cases (is_exit msg)) [
  | inl e ↦ rw e (session-on_exit_frame msg t)
  | inr e ↦ rw e
]

pub session-react :
    (e : Event) (t : Terminal) → session_of (react e t) ≡ session_step e (session_of t)
unfolding react loaded enqueue open_session on_error on_input cleanup
session-react xterm_loaded t = refl
session-react animation_frame t = session-flush_buffer t
session-react session_opened t = refl
session-react socket_error t =
    if_elim (λ u. session_of u ≡ session_of t) t.intentional_close _ _ refl
      (session-writeln connection_lost t)
session-react cleaned_up t = session-drain _
session-react (socket_opened b id wasm) t = session-on_open b id wasm t
session-react (binary_frame chunk) t = refl
session-react (text_frame parsed bytes) t = session-on_text parsed bytes t
session-react (socket_closed code reason) t = session-on_close code reason t
session-react (typed b text) t = if_elim (λ u. session_of u ≡ session_of t) b _ _ refl refl

-- The terminal refines the session machine: over any events, what it keeps of a session and what it
-- tells the parent are what the machine says, whatever is buffered, drawn or sent meanwhile.
pub session-react_all :
    (es : List Event) (t : Terminal) → session_of (react_all es t) ≡ session_steps es (session_of t)
unfolding react_all
session-react_all [] t = refl
session-react_all (e ∷ es) t =
    session-react_all es (react e t) ∙ ap (session_steps es) (session-react e t)
