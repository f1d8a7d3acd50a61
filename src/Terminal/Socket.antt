-- ===== src/Terminal/Socket.antt =====
-- frontend/components/Terminal.tsx: the life of the WebSocket, from the effect that opens it to
-- the effect's cleanup.
use isolator_v_wasm_sandbox.Common.{
  Text, codes, is_truthy, starts_with, drop, ℕ, Bool, true, false, Option, none, some, or_else,
  List, [], ◌∷◌, ◌++◌, if◌then◌else◌, ◌==◌, ℤ, pos, text_eq,
}
use isolator_v_wasm_sandbox.Console.{Outcome, error}
use isolator_v_wasm_sandbox.Vfs.{Snapshot}
use isolator_v_wasm_sandbox.Terminal.{
  Chunk, connected, request_sent, send_failed, no_wasm, wasm_trap, exited, connection_lost,
  ended_with_error, execute, stdin, Terminal, writeln, enqueue, drain, flush_buffer, loaded,
}

-- What the message handler reads of a JSON value by its four properties; a property that is
-- missing, or of another type than the one that the code casts or tests for, is `none`.
pub record Control : Type 0 where
  pub type : Option Text
  pub code : Option ℤ
  pub vfs_snapshot : Option Snapshot
  pub trap : Option Text

-- `JSON.parse` of a text frame: it throws; it gives `null`, of which reading a property throws; or
-- it gives a value whose properties can be read.
pub data Parsed : Type 0 where
  throws null_value : Parsed
  control : Control → Parsed

-- The WebSocket URL. `base` is NEXT_PUBLIC_ORCHESTRATOR_URL, `encode` is `encodeURIComponent`;
-- `secure` says that the page's protocol is https.
unfoldable pub ws_url : (Text → Text) → Text → Bool → Text → Text → Text
ws_url encode base secure host session_id =
    if is_truthy base
    then (if starts_with base (codes "http") then codes "ws" ++ drop 4 base else base)
      ++ codes "/ws/execute?session_id="
      ++ encode session_id
    else (if secure then codes "wss" else codes "ws")
      ++ codes "://"
      ++ host
      ++ codes "/api/v1/ws/execute?session_id="
      ++ encode session_id

-- The effect body, once `running` and `sessionId` are set: later closes count as unintentional.
unfoldable pub open_session : Terminal → Terminal
open_session t = record t { intentional_close = false }

-- `ws.send` of the execute request, which may throw.
abbrev pub send_request : Bool → Text → Text → Terminal → Terminal
send_request send_throws session_id wasm t =
    if send_throws
    then writeln send_failed t
    else writeln request_sent (record t { sent = t.sent ++ execute wasm session_id 30000 ∷ [] })

unfoldable pub on_open : Bool → Text → Option Text → Terminal → Terminal
on_open send_throws session_id wasm_payload t =
    let greeted = writeln (connected session_id) t in
    let wasm : Text = or_else wasm_payload [] in
    if is_truthy wasm
    then send_request send_throws session_id wasm greeted
    else writeln no_wasm greeted

abbrev pub keep_snapshot : Option Snapshot → Terminal → Terminal
keep_snapshot none t = t
keep_snapshot (some snapshot) t = record t { vfs_snapshot = some snapshot }

abbrev pub note_trap : Option Text → Terminal → Terminal
note_trap none t = t
note_trap (some []) t = t
note_trap (some (c ∷ s)) t = writeln (wasm_trap (c ∷ s)) (record t { has_trap = true })

-- The branch of the message handler for `{ type: "exit" }`.
unfoldable pub on_exit_frame : Control → Terminal → Terminal
on_exit_frame msg t =
    let kept = keep_snapshot msg.vfs_snapshot (drain t) in
    let coded = record kept { exit_code = some (or_else msg.code (pos 0)) } in
    writeln (exited msg.code) (note_trap msg.trap coded)

abbrev pub is_exit : Control → Bool
is_exit msg = text_eq (or_else msg.type []) (codes "exit")

-- A text frame; `bytes` is its UTF-8 encoding.
unfoldable pub on_text : Parsed → Chunk → Terminal → Terminal
on_text throws bytes t = enqueue bytes t
on_text null_value bytes t = enqueue bytes t
on_text (control msg) bytes t = if is_exit msg then on_exit_frame msg t else t

unfoldable pub on_error : Terminal → Terminal
on_error t = if t.intentional_close then t else writeln connection_lost t

abbrev pub report : Outcome → Option Snapshot → Option ℤ → Terminal → Terminal
report outcome vfs_snapshot exit_code t = record t {
  reports =
      t.reports
      ++ record { outcome = outcome; vfs_snapshot = vfs_snapshot; exit_code = exit_code } ∷ [];
}

-- A close with code 1000.
abbrev pub normal_close : Terminal → Terminal
normal_close t =
    let told =
      if t.has_trap
      then report error none none t
      else report Outcome.complete t.vfs_snapshot (some (or_else t.exit_code (pos 0))) t in
    record told { vfs_snapshot = none; exit_code = none; has_trap = false }

unfoldable pub on_close : ℕ → Text → Terminal → Terminal
on_close code reason t =
    if t.intentional_close
    then t
    else if code == 1000
    then normal_close t
    else report error none none (writeln (ended_with_error code reason) t)

-- Keyboard input goes out while the socket is open.
unfoldable pub on_input : Bool → Text → Terminal → Terminal
on_input is_open text t = if is_open then record t { sent = t.sent ++ stdin text ∷ [] } else t

-- The cleanup of the effect: Stop, Reset, another session, or unmount.
unfoldable pub cleanup : Terminal → Terminal
cleanup t = drain (record t { intentional_close = true })

-- All that happens to the terminal, one event at a time.
pub data Event : Type 0 where
  xterm_loaded animation_frame session_opened socket_error cleaned_up : Event
  socket_opened : (send_throws : Bool) → Text → Option Text → Event
  binary_frame : Chunk → Event
  text_frame : Parsed → Chunk → Event
  socket_closed : ℕ → Text → Event
  typed : (is_open : Bool) → Text → Event

unfoldable pub react : Event → Terminal → Terminal
react xterm_loaded t = loaded t
react animation_frame t = flush_buffer t
react session_opened t = open_session t
react socket_error t = on_error t
react cleaned_up t = cleanup t
react (socket_opened send_throws session_id wasm) t = on_open send_throws session_id wasm t
react (binary_frame chunk) t = enqueue chunk t
react (text_frame parsed bytes) t = on_text parsed bytes t
react (socket_closed code reason) t = on_close code reason t
react (typed is_open text) t = on_input is_open text t

unfoldable pub react_all : List Event → Terminal → Terminal
react_all [] t = t
react_all (e ∷ es) t = react_all es (react e t)
