-- ===== src/Screen/Limits.antt =====
-- frontend/components/ExecutionConsole.tsx, `WelcomePane`: the steps and the limits that it shows, with
-- frontend/components/Terminal.tsx and frontend/components/AgentVitals.tsx, which keep to the limits.
use isolator_v_wasm_sandbox.Common.{
  Text, codes, decimal, text_eq, ℕ, ◌/◌, ◌≡◌, refl, Bool, Option, none, some, List, [], ◌∷◌, ◌++◌,
  All, All-append, if◌then◌else◌, if_elim, is_truthy, or_else, arith,
}
use mathlib.Core.Path.{subst, sym}
use isolator_v_wasm_sandbox.Terminal.{
  Chunk, Message, execute, stdin, Terminal, initial, Line, connected, send_failed, request_sent,
  no_wasm, connection_lost, writeln, loaded, flush_buffer, enqueue, drain,
}
use isolator_v_wasm_sandbox.Terminal.Socket.{
  Control, Parsed, throws, null_value, control, on_open, on_exit_frame, on_text, on_error, on_close,
  on_input, open_session, cleanup, Event, xterm_loaded, animation_frame, session_opened,
  socket_error, cleaned_up, socket_opened, binary_frame, text_frame, socket_closed, typed, react,
  react_all,
}
use isolator_v_wasm_sandbox.Vitals.{fallback_of}
use isolator_v_wasm_sandbox.Vitals.Panels.{format_mem}
use isolator_v_wasm_sandbox.Vitals.Formats.{fractions, exact}

-- A step of the workflow, and a limit of the sandbox.
pub record Entry : Type 0 where
  pub label : Text
  pub value : Text

abbrev pub entry : Text → Text → Entry
entry label value = record { label = label; value = value }

abbrev pub workflow : List Entry
workflow =
    entry (codes "Run") (codes "Start a session")
    ∷ entry (codes "Watch") (codes "Live terminal output")
    ∷ entry (codes "Inspect") (codes "Preview output files")
    ∷ []

abbrev pub sandbox_limits : List Entry
sandbox_limits =
    entry (codes "Memory") (codes "50 MB")
    ∷ entry (codes "Timeout") (codes "30 s")
    ∷ entry (codes "Transport") (codes "HTTP")
    ∷ []

abbrev pub value_in : List Entry → Text → Option Text
value_in [] label = none
value_in (x ∷ xs) label = if text_eq x.label label then some x.value else value_in xs label

-- The text of a time in whole seconds.
abbrev pub in_seconds : ℕ → Text
in_seconds ms = decimal (ms / 1000) ++ codes " s"

-- An execute request asks for the timeout that the pane shows.
abbrev pub IsLimited : Message → Type 0
IsLimited (execute wasm session_id timeout_ms) =
    value_in sandbox_limits (codes "Timeout") ≡ some (in_seconds timeout_ms)
IsLimited (stdin text) = Unit

abbrev AreLimited : Terminal → Type 0
AreLimited t = All IsLimited t.sent

-- A handler that sends nothing.
kept : (t u : Terminal) → u.sent ≡ t.sent → AreLimited t → AreLimited u
kept t u e h = subst (All IsLimited) (sym e) h

writeln-sent : (l : Line) (t : Terminal) → (writeln l t).sent ≡ t.sent
unfolding writeln
writeln-sent l t = ground arith

writeln-AreLimited : (l : Line) (t : Terminal) → AreLimited t → AreLimited (writeln l t)
writeln-AreLimited l t = kept t (writeln l t) (writeln-sent l t)

request-IsLimited : (wasm id : Text) → IsLimited (execute wasm id 30000)
unfolding text_eq decimal
request-IsLimited wasm id = refl

on_open-AreLimited :
    (send_throws : Bool) (id : Text) (wasm : Option Text) (t : Terminal)
    → AreLimited t
    → AreLimited (on_open send_throws id wasm t)
unfolding on_open
on_open-AreLimited send_throws id wasm t h =
    let greeted = writeln (connected id) t in
    let wasm_b64 : Text = or_else wasm [] in
    let said = writeln-AreLimited (connected id) t h in
    let requested = record greeted { sent = greeted.sent ++ execute wasm_b64 id 30000 ∷ [] } in
    let asked : AreLimited requested =
      All-append IsLimited greeted.sent (execute wasm_b64 id 30000 ∷ []) said
        (request-IsLimited wasm_b64 id, tt) in
    if_elim AreLimited (is_truthy wasm_b64) _ _
      (if_elim AreLimited send_throws _ _ (writeln-AreLimited send_failed greeted said)
        (writeln-AreLimited request_sent requested asked))
      (writeln-AreLimited no_wasm greeted said)

on_exit_frame-sent : (msg : Control) (t : Terminal) → (on_exit_frame msg t).sent ≡ t.sent
unfolding on_exit_frame writeln drain
on_exit_frame-sent msg t = ground arith

on_text-sent : (p : Parsed) (bytes : Chunk) (t : Terminal) → (on_text p bytes t).sent ≡ t.sent
unfolding on_text enqueue
on_text-sent throws bytes t = refl
on_text-sent null_value bytes t = refl
on_text-sent (control msg) bytes t = ground (arith, on_exit_frame-sent msg t)

on_close-sent : (code : ℕ) (reason : Text) (t : Terminal) → (on_close code reason t).sent ≡ t.sent
unfolding on_close writeln
on_close-sent code reason t = ground arith

flush_buffer-sent : (t : Terminal) → (flush_buffer t).sent ≡ t.sent
unfolding flush_buffer
flush_buffer-sent t = ground arith

on_input-AreLimited :
    (is_open : Bool) (text : Text) (t : Terminal)
    → AreLimited t
    → AreLimited (on_input is_open text t)
unfolding on_input
on_input-AreLimited is_open text t h =
    if_elim AreLimited is_open _ t (All-append IsLimited t.sent (stdin text ∷ []) h (tt, tt)) h

react-AreLimited : (e : Event) (t : Terminal) → AreLimited t → AreLimited (react e t)
unfolding react loaded open_session enqueue cleanup drain on_error
react-AreLimited xterm_loaded t h = h
react-AreLimited animation_frame t h = kept t (flush_buffer t) (flush_buffer-sent t) h
react-AreLimited session_opened t h = h
react-AreLimited socket_error t h =
    if_elim AreLimited t.intentional_close t _ h (writeln-AreLimited connection_lost t h)
react-AreLimited cleaned_up t h = h
react-AreLimited (socket_opened send_throws id wasm) t h =
    on_open-AreLimited send_throws id wasm t h
react-AreLimited (binary_frame chunk) t h = h
react-AreLimited (text_frame parsed bytes) t h =
    kept t (on_text parsed bytes t) (on_text-sent parsed bytes t) h
react-AreLimited (socket_closed code reason) t h =
    kept t (on_close code reason t) (on_close-sent code reason t) h
react-AreLimited (typed is_open text) t h = on_input-AreLimited is_open text t h

react_all-AreLimited_from :
    (es : List Event) (t : Terminal) → AreLimited t → AreLimited (react_all es t)
unfolding react_all
react_all-AreLimited_from [] t h = h
react_all-AreLimited_from (e ∷ es) t h =
    react_all-AreLimited_from es (react e t) (react-AreLimited e t h)

-- The vitals of a session whose first poll has failed, where the arithmetic is exact: the limit that
-- the panel shows.
abbrev pub fallback_limit : ℕ → Text
fallback_limit elapsed =
    format_mem fractions exact (fallback_of fractions elapsed none).mem_limit_bytes

-- Whatever happens to a terminal from the beginning: every execute request that it has sent asks for
-- the timeout that the welcome pane shows; and the memory that the pane shows is the limit that the
-- vitals show before any telemetry has come.
pub react_all-AreLimited :
    (es : List Event) (elapsed : ℕ)
    → All IsLimited (react_all es initial).sent
      × (value_in sandbox_limits (codes "Memory") ≡ some (fallback_limit elapsed))
unfolding initial format_mem text_eq decimal
react_all-AreLimited es elapsed = (react_all-AreLimited_from es initial tt, refl)
