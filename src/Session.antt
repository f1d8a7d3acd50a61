-- ===== src/Session.antt =====
-- frontend/components/ExecutionConsole.tsx with frontend/components/Terminal.tsx and
-- frontend/components/TerminalErrorBoundary.tsx: the console, the terminal in it, and the effect that opens and closes the socket of a session. What the terminal
-- reports goes to the console, and what the console shows decides which socket is open.
pub mod Effect
pub mod Tied
mod Tests
use isolator_v_wasm_sandbox.Common.{
  zero, suc, not, Text, text_eq, is_truthy, or_else, ℕ, Bool, true, false, ◌&&◌, Option, none, some,
  is_some, List, [], ◌∷◌, drop, length, if◌then◌else◌,
}
use isolator_v_wasm_sandbox.Console.{Console, Decoder, is_running, after_commit, wasm_payload}
use isolator_v_wasm_sandbox.Console.Actions
use isolator_v_wasm_sandbox.Console.Actions.{Action, crash, reconnect}
use isolator_v_wasm_sandbox.Demos.{payload_text}
use isolator_v_wasm_sandbox.Terminal.{Chunk, Report, Terminal}
use isolator_v_wasm_sandbox.Terminal.Socket.{
  Parsed, Event, xterm_loaded, animation_frame, session_opened, socket_error, cleaned_up,
  socket_opened, binary_frame, text_frame, socket_closed, typed, react,
}
use isolator_v_wasm_sandbox.Terminal.EndToEnd.{deliver}

-- The values that the effect depends on, and whether the terminal is mounted: a mount runs the effect
-- and an unmount its cleanup, as a change of a value does.
pub record Deps : Type 0 where
  pub mounted : Bool
  pub running : Bool
  pub session_id : Option Text
  pub wasm_b64 : Text

-- The socket of the effect, with what its handlers have captured.
pub record Connection : Type 0 where
  pub session_id : Text
  pub wasm : Text

-- `has_error` is that of the boundary, which shows the panic screen in place of the terminal, `deps`
-- are those that the effect has last run with, `ended` says that its socket has had its close event,
-- and `closing` counts the sockets of this terminal that the cleanup has closed and whose close event
-- is still to come.
pub record Bench : Type 0 where
  pub console : Console
  pub terminal : Terminal
  pub deps : Deps
  pub socket : Option Connection
  pub has_error : Bool
  pub ended : Bool
  pub closing : ℕ

-- What happens to the socket of the effect.
pub data Incoming : Type 0 where
  opens : (send_throws : Bool) → Incoming
  binary : Chunk → Incoming
  text : Parsed → Chunk → Incoming
  fails : Incoming
  closes : ℕ → Text → Incoming
  types : (is_open : Bool) → Text → Incoming

-- `late_closes` is the close event of a socket that the cleanup has closed before: it comes when the
-- closing handshake is over. `crash` and `reconnect` of the console are no events of their own: they go
-- with `panics`, an error in the terminal that the boundary catches, and with `reconnects`, a click on
-- the button of the panic screen.
pub data Happening : Type 0 where
  act : Action → Happening
  arrives : Incoming → Happening
  late_closes : ℕ → Text → Happening
  panics : Happening
  reconnects : Happening
  loads : Happening
  draws : Happening

abbrev pub event_of : Connection → Incoming → Event
event_of k (opens send_throws) = socket_opened send_throws k.session_id (some k.wasm)
event_of k (binary chunk) = binary_frame chunk
event_of k (text parsed bytes) = text_frame parsed bytes
event_of k fails = socket_error
event_of k (closes code reason) = socket_closed code reason
event_of k (types is_open input) = typed is_open input

abbrev pub is_closing : Incoming → Bool
is_closing (closes code reason) = true
is_closing _ = false

abbrev pub of_boundary : Action → Bool
of_boundary crash = true
of_boundary reconnect = true
of_boundary _ = false

abbrev pub same_bool : Bool → Bool → Bool
same_bool true b = b
same_bool false true = false
same_bool false false = true

abbrev pub same_id : Option Text → Option Text → Bool
same_id none none = true
same_id (some a) (some b) = text_eq a b
same_id _ _ = false

abbrev pub same_deps : Deps → Deps → Bool
same_deps d e =
    same_bool d.mounted e.mounted
    && same_bool d.running e.running
    && same_id d.session_id e.session_id
    && text_eq d.wasm_b64 e.wasm_b64

-- The cleanup of the effect, if it has opened a socket.
unfoldable pub leave : Bench → Bench
leave b =
    if is_some b.socket
    then record b {
      terminal = react cleaned_up b.terminal;
      socket = none;
      ended = false;
      closing = if b.ended then b.closing else suc b.closing;
    }
    else b

-- The socket that the effect opens, after its two tests.
unfoldable pub wanted : Deps → Option Connection
wanted d =
    let id : Text = or_else d.session_id [] in
    if d.mounted && d.running && is_truthy id
    then some (record { session_id = id; wasm = d.wasm_b64 })
    else none

abbrev pub opened : Option Connection → Bench → Bench
opened none b = b
opened (some k) b = record b { terminal = react session_opened b.terminal; socket = some k }

-- The calls of `onEnd`, each followed by the console's own effect.
abbrev pub deliver_all : List Report → Console → Console
deliver_all [] c = c
deliver_all (r ∷ rs) c = deliver_all rs (after_commit (deliver r c))

-- An event of a socket, with the calls of `onEnd` that its handler makes.
unfoldable pub told : Event → Bench → Bench
told e b =
    let t = react e b.terminal in
    record b {
      terminal = t;
      console = deliver_all (drop (length b.terminal.reports) t.reports) b.console;
    }

module _ (btoa : List ℕ → Text) where
  -- What the console hands to the terminal.
  unfoldable pub deps_of : Bool → Console → Deps
  deps_of has_error c = record {
    mounted = not has_error;
    running = is_running c.sandbox_state;
    session_id = c.session_id;
    wasm_b64 = payload_text btoa (wasm_payload c);
  }

  -- The effect after a commit: it runs again if one of its values has changed.
  unfoldable pub commit : Bench → Bench
  commit b =
      let d = deps_of b.has_error b.console in
      if same_deps d b.deps then b else opened (wanted d) (record (leave b) { deps = d })

  abbrev pub arrive : Option Connection → Incoming → Bench → Bench
  arrive none i b = b
  arrive (some k) i b = commit (told (event_of k i) (record b { ended = is_closing i }))

  -- The close event of the first of the sockets that are closing, whose handler has the refs of the
  -- terminal.
  abbrev pub late : ℕ → ℕ → Text → Bench → Bench
  late zero code reason b = b
  late (suc n) code reason b = commit (told (socket_closed code reason) (record b { closing = n }))

  unfoldable pub initial : Bench
  initial = record {
    console = isolator_v_wasm_sandbox.Console.initial;
    terminal = isolator_v_wasm_sandbox.Terminal.initial;
    deps = deps_of false isolator_v_wasm_sandbox.Console.initial;
    socket = none;
    has_error = false;
    ended = false;
    closing = 0;
  }

module _ (is_mac : Bool) (decode : Decoder) where
  -- The boundary unmounts the terminal; after a reconnect there is a new one, with refs of its own.
  abbrev pub panicked : Bench → Bench
  panicked b = record b { console = Actions.step is_mac decode crash b.console; has_error = true }

  abbrev pub remounted : Bench → Bench
  remounted b = record b {
    console = Actions.step is_mac decode reconnect b.console;
    terminal = isolator_v_wasm_sandbox.Terminal.initial;
    has_error = false;
    ended = false;
    closing = 0;
  }

module _ (btoa : List ℕ → Text) (is_mac : Bool) (decode : Decoder) where
  unfoldable pub step : Happening → Bench → Bench
  step (act a) b =
      if of_boundary a
      then b
      else commit btoa (record b { console = Actions.step is_mac decode a b.console })
  step (arrives i) b = arrive btoa b.socket i b
  step (late_closes code reason) b = late btoa b.closing code reason b
  step panics b = if b.has_error then b else commit btoa (panicked is_mac decode b)
  step reconnects b = if b.has_error then commit btoa (remounted is_mac decode b) else b
  step loads b = record b { terminal = react xterm_loaded b.terminal }
  step draws b = record b { terminal = react animation_frame b.terminal }

  unfoldable pub run_all : List Happening → Bench → Bench
  run_all [] b = b
  run_all (h ∷ hs) b = run_all hs (step h b)
