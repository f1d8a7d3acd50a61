-- ===== src/Terminal/Order.antt =====
-- frontend/components/Terminal.tsx: the program's output on its way to the screen.
use mathlib.Core.List.{append_assoc, append-nil}
use isolator_v_wasm_sandbox.Common.{
  Text, ℕ, ◌≡◌, refl, sym, ap, ◌∙◌, Bool, true, false, Bool-cases, Option, none, some, List, [],
  ◌∷◌, ◌++◌, map, inl, inr, if_elim, or_else,
}
use isolator_v_wasm_sandbox.Vfs.{Snapshot}
use isolator_v_wasm_sandbox.Terminal.{
  connected, request_sent, send_failed, no_wasm, wasm_trap, exited, connection_lost,
  ended_with_error, Chunk, Write, output, line, Line, Terminal, flush_buffer, enqueue, writeln,
  drain, loaded,
}
use isolator_v_wasm_sandbox.Terminal.Socket.{
  Control, Parsed, throws, null_value, control, on_open, send_request, keep_snapshot, note_trap,
  normal_close, on_exit_frame, on_text, on_error, on_close, on_input, open_session, cleanup,
  is_exit, Event, xterm_loaded, animation_frame, session_opened, socket_error, cleaned_up,
  socket_opened, binary_frame, text_frame, socket_closed, typed, react, react_all,
}
use isolator_v_wasm_sandbox.Terminal.Flush.{flush_buffer_lem, flush_buffer-ready}

-- The program's chunks among what was written, without the status lines.
abbrev pub outputs : List Write → List Chunk
outputs [] = []
outputs (output chunk ∷ ws) = chunk ∷ outputs ws
outputs (line l ∷ ws) = outputs ws

-- All the output that the terminal has taken in: what is shown, then what is buffered.
abbrev pub stream : Terminal → List Chunk
stream t = outputs t.screen ++ t.buffer

-- The output that an event brings: a binary frame, or a text frame that is no JSON object.
abbrev pub received : Event → List Chunk
received (binary_frame chunk) = chunk ∷ []
received (text_frame throws bytes) = bytes ∷ []
received (text_frame null_value bytes) = bytes ∷ []
received _ = []

abbrev pub received_all : List Event → List Chunk
received_all [] = []
received_all (e ∷ es) = received e ++ received_all es

outputs-append : (xs ys : List Write) → outputs (xs ++ ys) ≡ outputs xs ++ outputs ys
outputs-append [] ys = refl
outputs-append (output chunk ∷ xs) ys = ap (λ l. chunk ∷ l) (outputs-append xs ys)
outputs-append (line l ∷ xs) ys = outputs-append xs ys

outputs-map : (chunks : List Chunk) → outputs (map output chunks) ≡ chunks
outputs-map [] = refl
outputs-map (chunk ∷ chunks) = ap (λ l. chunk ∷ l) (outputs-map chunks)

outputs-snoc_line : (ws : List Write) (l : Line) → outputs (ws ++ line l ∷ []) ≡ outputs ws
outputs-snoc_line ws l = outputs-append ws (line l ∷ []) ∙ append-nil (outputs ws)

-- `u` comes from `t` with xterm still there and some more output taken in.
pub record Takes (chunks : List Chunk) (t u : Terminal) : Type 0 where
  pub still_ready : u.ready ≡ true
  pub taken_in : stream u ≡ stream t ++ chunks

Takes-trans : {t u v : Terminal} {xs : List Chunk} → Takes [] t u → Takes xs u v → Takes xs t v
Takes-trans {t} {xs} p q = record {
  still_ready = q.still_ready;
  taken_in = q.taken_in ∙ ap (λ l. l ++ xs) (p.taken_in ∙ append-nil (stream t));
}

Takes-end : {t u v : Terminal} {xs : List Chunk} → Takes xs t u → Takes [] u v → Takes xs t v
Takes-end {t} {u} {xs} p q = record {
  still_ready = q.still_ready;
  taken_in = q.taken_in ∙ append-nil (stream u) ∙ p.taken_in;
}

module _ (t : Terminal) (h : t.ready ≡ true) where
  Takes-refl : Takes [] t t
  Takes-refl = record { still_ready = h; taken_in = sym (append-nil _) }

  writeln-Takes : (l : Line) → Takes [] t (writeln l t)
  unfolding writeln
  writeln-Takes l =
      simp h (record { still_ready = refl; taken_in = rw outputs-snoc_line (sym (append-nil _)) })

  drain-Takes : Takes [] t (drain t)
  unfolding drain
  drain-Takes = record {
    still_ready = h;
    taken_in = simp (h, outputs-append, outputs-map, append-nil);
  }

  enqueue-Takes : (chunk : Chunk) → Takes (chunk ∷ []) t (enqueue chunk t)
  unfolding enqueue
  enqueue-Takes chunk = record {
    still_ready = h;
    taken_in = sym (append_assoc (outputs t.screen) t.buffer (chunk ∷ []));
  }

  loaded-Takes : Takes [] t (loaded t)
  unfolding loaded
  loaded-Takes = record { still_ready = refl; taken_in = rw outputs-snoc_line (sym (append-nil _)) }

  flush_buffer-Takes : Takes [] t (flush_buffer t)
  flush_buffer-Takes =
      let (taken, split_up, shown, _, _, _) = flush_buffer_lem t h in
      record {
        still_ready = flush_buffer-ready t ∙ h;
        taken_in =
            simp (shown, outputs-append, outputs-map, append-nil, append_assoc) (rw (← split_up));
      }

  -- A change of the other refs alone.
  same-Takes :
      (u : Terminal) → u.ready ≡ t.ready → u.screen ≡ t.screen → u.buffer ≡ t.buffer → Takes [] t u
  same-Takes u r s b = record { still_ready = r ∙ h; taken_in = simp (s, b, append-nil) }

-- One line more after some other change.
then-writeln :
    {t u : Terminal} {xs : List Chunk} (l : Line) → Takes xs t u → Takes xs t (writeln l u)
then-writeln {u} l p = Takes-end p (writeln-Takes u p.still_ready l)

module _ (t : Terminal) (h : t.ready ≡ true) where
  send_request-Takes : (b : Bool) (id wasm : Text) → Takes [] t (send_request b id wasm t)
  send_request-Takes b id wasm =
      if_elim (Takes [] t) b _ _ (writeln-Takes t h send_failed)
        (then-writeln request_sent (same-Takes t h _ refl refl refl))

  keep_snapshot-Takes : (snapshot : Option Snapshot) → Takes [] t (keep_snapshot snapshot t)
  keep_snapshot-Takes none = Takes-refl t h
  keep_snapshot-Takes (some snapshot) = same-Takes t h _ refl refl refl

  note_trap-Takes : (trap : Option Text) → Takes [] t (note_trap trap t)
  note_trap-Takes none = Takes-refl t h
  note_trap-Takes (some []) = Takes-refl t h
  note_trap-Takes (some (c ∷ s)) =
      then-writeln (wasm_trap (c ∷ s)) (same-Takes t h _ refl refl refl)

module _ (t : Terminal) (h : t.ready ≡ true) where
  on_open-Takes : (b : Bool) (id : Text) (wasm : Option Text) → Takes [] t (on_open b id wasm t)
  unfolding on_open
  on_open-Takes b id wasm =
      let greeted = writeln-Takes t h (connected id) in
      if_elim (Takes [] t) _ _ _
        (Takes-trans greeted (send_request-Takes _ greeted.still_ready b id (or_else wasm [])))
        (then-writeln no_wasm greeted)

  on_exit_frame-Takes : (msg : Control) → Takes [] t (on_exit_frame msg t)
  unfolding on_exit_frame
  on_exit_frame-Takes msg =
      let drained = drain-Takes t h in
      let kept = Takes-trans drained (keep_snapshot-Takes _ drained.still_ready msg.vfs_snapshot) in
      let coded = Takes-trans kept (same-Takes _ kept.still_ready _ refl refl refl) in
      then-writeln (exited msg.code)
        (Takes-trans coded (note_trap-Takes _ coded.still_ready msg.trap))

  on_text-Takes :
      (p : Parsed) (bytes : Chunk) → Takes (received (text_frame p bytes)) t (on_text p bytes t)
  unfolding on_text
  on_text-Takes throws bytes = enqueue-Takes t h bytes
  on_text-Takes null_value bytes = enqueue-Takes t h bytes
  on_text-Takes (control msg) bytes =
      if_elim (Takes [] t) (is_exit msg) _ _ (on_exit_frame-Takes msg) (Takes-refl t h)

  normal_close-Takes : Takes [] t (normal_close t)
  normal_close-Takes = elim (Bool-cases t.has_trap) [
    | inl e ↦ simp e (same-Takes t h _ refl refl refl)
    | inr e ↦ simp e (same-Takes t h _ refl refl refl)
  ]

  on_close-Takes : (code : ℕ) (reason : Text) → Takes [] t (on_close code reason t)
  unfolding on_close
  on_close-Takes code reason =
      let told = writeln-Takes t h (ended_with_error code reason) in
      if_elim (Takes [] t) _ _ _ (Takes-refl t h) (
        if_elim (Takes [] t) _ _ _ normal_close-Takes
          (Takes-trans told (same-Takes _ told.still_ready _ refl refl refl)))

  on_error-Takes : Takes [] t (on_error t)
  unfolding on_error
  on_error-Takes = if_elim (Takes [] t) _ _ _ (Takes-refl t h) (writeln-Takes t h connection_lost)

  on_input-Takes : (b : Bool) (text : Text) → Takes [] t (on_input b text t)
  unfolding on_input
  on_input-Takes true text = same-Takes t h _ refl refl refl
  on_input-Takes false text = Takes-refl t h

  cleanup-Takes : Takes [] t (cleanup t)
  unfolding cleanup
  cleanup-Takes =
      let marked = same-Takes t h (record t { intentional_close = true }) refl refl refl in
      Takes-trans marked (drain-Takes _ marked.still_ready)

  react-Takes : (e : Event) → Takes (received e) t (react e t)
  unfolding react open_session
  react-Takes xterm_loaded = loaded-Takes t h
  react-Takes animation_frame = flush_buffer-Takes t h
  react-Takes session_opened = same-Takes t h _ refl refl refl
  react-Takes socket_error = on_error-Takes
  react-Takes cleaned_up = cleanup-Takes
  react-Takes (socket_opened b id wasm) = on_open-Takes b id wasm
  react-Takes (binary_frame chunk) = enqueue-Takes t h chunk
  react-Takes (text_frame parsed bytes) = on_text-Takes parsed bytes
  react-Takes (socket_closed code reason) = on_close-Takes code reason
  react-Takes (typed b text) = on_input-Takes b text

-- With xterm there, over any sequence of frames, animation frames, closes, cleanups and keys: what
-- is on the screen followed by what is buffered is what was there before followed by all the output
-- received, chunk for chunk in the order of arrival. So nothing is lost, repeated or reordered.
pub react_all-stream :
    (es : List Event) (t : Terminal)
    → t.ready ≡ true
    → stream (react_all es t) ≡ stream t ++ received_all es
unfolding react_all
react_all-stream [] t h = sym (append-nil (stream t))
react_all-stream (e ∷ es) t h =
    let first = react-Takes t h e in
    react_all-stream es (react e t) first.still_ready
    ∙ ap (λ l. l ++ received_all es) first.taken_in
    ∙ append_assoc (stream t) (received e) (received_all es)
