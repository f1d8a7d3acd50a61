-- ===== src/Terminal.antt =====
-- frontend/components/Terminal.tsx: the refs of the terminal component as one record, the
-- back-pressure buffer, and the handlers of the WebSocket. `screen` is all that was written to
-- xterm, `sent` all that was sent, `reports` the calls of `onEnd`, each oldest first. Console logs
-- are left out.
mod Tests
pub mod Socket
pub mod Flush
pub mod Order
pub mod Pending
pub mod Sessions
pub mod Reports
pub mod EndToEnd
pub mod Xterm
use isolator_v_wasm_sandbox.Common.{
  Text, is_truthy, ℕ, ◌+◌, ◌-◌, Bool, true, false, Option, none, some, or_else, List, [], ◌∷◌, ◌++◌,
  map, length, if◌then◌else◌, ltb, ℤ, pos,
}
use isolator_v_wasm_sandbox.Console.{Outcome}
use isolator_v_wasm_sandbox.Vfs.{Snapshot}

-- A `Uint8Array`.
abbrev pub Chunk : Type 0
Chunk = List ℕ

-- The status lines that the component writes itself.
pub data Line : Type 0 where
  banner : Line
  connected : Text → Line
  request_sent : Line
  send_failed : Line
  no_wasm : Line
  wasm_trap : Text → Line
  exited : Option ℤ → Line
  connection_lost : Line
  ended_with_error : ℕ → Text → Line

pub data Write : Type 0 where
  output : Chunk → Write
  line : Line → Write

-- What is sent: the execute request (`timeout_ms` is 30 000), and keyboard input.
pub data Message : Type 0 where
  execute : (wasm_b64 session_id : Text) (timeout_ms : ℕ) → Message
  stdin : Text → Message

-- The arguments of one call of `onEnd`.
pub record Report : Type 0 where
  pub outcome : Outcome
  pub vfs_snapshot : Option Snapshot
  pub exit_code : Option ℤ

pub record Terminal : Type 0 where
  pub ready : Bool
  pub buffer : List Chunk
  pub raf : Bool
  pub pending_bytes : ℕ
  pub screen : List Write
  pub sent : List Message
  pub intentional_close : Bool
  pub vfs_snapshot : Option Snapshot
  pub exit_code : Option ℤ
  pub has_trap : Bool
  pub reports : List Report

unfoldable pub initial : Terminal
initial = record {
  ready = false;
  buffer = [];
  raf = false;
  pending_bytes = 0;
  screen = [];
  sent = [];
  intentional_close = false;
  vfs_snapshot = none;
  exit_code = none;
  has_trap = false;
  reports = [];
}

-- `MAX_BYTES_PER_FRAME`
abbrev pub max_bytes_per_frame : ℕ
max_bytes_per_frame = 32768

-- `xtermRef.current?.writeln(…)`
unfoldable pub writeln : Line → Terminal → Terminal
writeln l t = if t.ready then record t { screen = t.screen ++ line l ∷ [] } else t

-- The callback that opens xterm, after its modules have loaded.
unfoldable pub loaded : Terminal → Terminal
loaded t = record t { ready = true; screen = t.screen ++ line banner ∷ [] }

-- The refs that the loop of `flushBuffer` changes.
pub record Flushing : Type 0 where
  pub buffer : List Chunk
  pub pending_bytes : ℕ
  pub screen : List Write

-- The loop: chunks leave the buffer while `written` is below the limit of a frame. `-` stops at 0
-- where JavaScript would go below; `Flush` shows that neither happens.
unfoldable pub flush_loop : List Chunk → ℕ → ℕ → List Write → Flushing
flush_loop [] written pending screen = record {
  buffer = [];
  pending_bytes = pending;
  screen = screen;
}
flush_loop (chunk ∷ chunks) written pending screen =
    let rest =
      flush_loop chunks (written + length chunk) (pending - length chunk)
        (screen ++ output chunk ∷ []) in
    if ltb written max_bytes_per_frame
    then rest
    else record { buffer = chunk ∷ chunks; pending_bytes = pending; screen = screen }

abbrev pub is_empty : List Chunk → Bool
is_empty [] = true
is_empty (chunk ∷ chunks) = false

abbrev flushed : Flushing → Terminal → Terminal
flushed f t = record t {
  buffer = f.buffer;
  pending_bytes = f.pending_bytes;
  screen = f.screen;
  raf = if is_empty f.buffer then false else true;
}

-- `flushBuffer`, the callback of an animation frame.
unfoldable pub flush_buffer : Terminal → Terminal
flush_buffer t =
    if t.ready
    then flushed (flush_loop t.buffer 0 t.pending_bytes t.screen) t
    else record t { raf = false }

-- A frame is scheduled unless one is.
unfoldable pub enqueue : Chunk → Terminal → Terminal
enqueue chunk t = record t {
  buffer = t.buffer ++ chunk ∷ [];
  pending_bytes = t.pending_bytes + length chunk;
  raf = true;
}

-- What the exit frame's handler and the cleanup both do: the frame is cancelled, and all that is
-- buffered is written at once, or dropped where there is no xterm.
unfoldable pub drain : Terminal → Terminal
drain t = record t {
  raf = false;
  screen = if t.ready then t.screen ++ map output t.buffer else t.screen;
  buffer = [];
  pending_bytes = 0;
}
