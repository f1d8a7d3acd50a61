-- ===== src/Terminal/Pending.antt =====
-- frontend/components/Terminal.tsx: `pendingBytesRef`, the counter of the bytes in the buffer.
use isolator_v_wasm_sandbox.Common.{
  Text, is_truthy, or_else, ℕ, ◌+◌, ◌-◌, ◌≡◌, refl, sym, ap, ◌∙◌, not, Bool, true, false, none,
  some, Option, List, [], ◌∷◌, ◌++◌, length, ltb, ◌==◌, if_elim, if◌then◌else◌, arith,
}
use isolator_v_wasm_sandbox.Vfs.{Snapshot}
use isolator_v_wasm_sandbox.Terminal.{
  Chunk, Line, connected, request_sent, send_failed, no_wasm, wasm_trap, exited, connection_lost,
  ended_with_error, Write, output, Terminal, Flushing, is_empty, max_bytes_per_frame, writeln,
  loaded, flush_loop, flush_buffer, enqueue, drain,
}
use isolator_v_wasm_sandbox.Terminal.Socket.{
  Control, throws, null_value, control, open_session, on_open, on_exit_frame, keep_snapshot,
  note_trap, is_exit, on_text, on_error, on_close, on_input, cleanup, send_request, normal_close,
  Event, xterm_loaded, animation_frame, session_opened, socket_error, cleaned_up, socket_opened,
  binary_frame, text_frame, socket_closed, typed, react, react_all,
}
use isolator_v_wasm_sandbox.Terminal.Flush.{total, flush_buffer-ready}

abbrev pub IsCounted : Terminal → Type 0
IsCounted t = t.pending_bytes ≡ total t.buffer

total-snoc : (chunks : List Chunk) (c : Chunk) → total (chunks ++ c ∷ []) ≡ total chunks + length c
total-snoc [] c = ground arith
total-snoc (d ∷ chunks) c = omega (arith, total-snoc chunks c)

flush_loop-total :
    (chunks : List Chunk) (written : ℕ) (screen : List Write)
    → (flush_loop chunks written (total chunks) screen).pending_bytes
      ≡ total (flush_loop chunks written (total chunks) screen).buffer
unfolding flush_loop
flush_loop-total [] written screen = refl
flush_loop-total (c ∷ chunks) written screen =
    let taken : total (c ∷ chunks) - length c ≡ total chunks = omega arith in
    if_elim (λ (f : Flushing). f.pending_bytes ≡ total f.buffer) (ltb written max_bytes_per_frame) _
      _ (rw taken (flush_loop-total chunks (written + length c) (screen ++ output c ∷ []))) refl

flush_buffer-IsCounted : (t : Terminal) → IsCounted t → IsCounted (flush_buffer t)
unfolding flush_buffer
flush_buffer-IsCounted t h =
    if_elim IsCounted t.ready _ _ (rw h (flush_loop-total t.buffer 0 t.screen)) h

-- With xterm there: the counter is right, and a frame is scheduled exactly when chunks wait.
pub record IsScheduled (t : Terminal) : Type 0 where
  pub still_ready : t.ready ≡ true
  pub counted : IsCounted t
  pub scheduled : t.raf ≡ not (is_empty t.buffer)

-- A change of the other refs alone.
same-IsScheduled :
    (t u : Terminal)
    → u.ready ≡ t.ready
    → u.pending_bytes ≡ t.pending_bytes
    → u.raf ≡ t.raf
    → u.buffer ≡ t.buffer
    → IsScheduled t
    → IsScheduled u
same-IsScheduled t u r p f b h = record {
  still_ready = r ∙ h.still_ready;
  counted = p ∙ h.counted ∙ ap total (sym b);
  scheduled = f ∙ h.scheduled ∙ ap (λ l. not (is_empty l)) (sym b);
}

writeln-IsScheduled : (l : Line) (t : Terminal) → IsScheduled t → IsScheduled (writeln l t)
unfolding writeln
writeln-IsScheduled l t h =
    if_elim IsScheduled t.ready _ t (same-IsScheduled t _ refl refl refl refl h) h

drain-IsScheduled : (t : Terminal) → IsScheduled t → IsScheduled (drain t)
unfolding drain
drain-IsScheduled t h = record { still_ready = h.still_ready; counted = refl; scheduled = refl }

is_empty-snoc : (chunks : List Chunk) (c : Chunk) → is_empty (chunks ++ c ∷ []) ≡ false
is_empty-snoc [] c = refl
is_empty-snoc (d ∷ chunks) c = refl

enqueue-IsScheduled : (c : Chunk) (t : Terminal) → IsScheduled t → IsScheduled (enqueue c t)
unfolding enqueue
enqueue-IsScheduled c t h = record {
  still_ready = h.still_ready;
  counted = omega (arith, h.counted, total-snoc t.buffer c);
  scheduled = rw (is_empty-snoc t.buffer c) refl;
}

if_not : (b : Bool) → (if b then false else true) ≡ not b
if_not true = refl
if_not false = refl

flush_buffer-IsScheduled : (t : Terminal) → IsScheduled t → IsScheduled (flush_buffer t)
unfolding flush_buffer
flush_buffer-IsScheduled t h = record {
  still_ready = flush_buffer-ready t ∙ h.still_ready;
  counted = flush_buffer-IsCounted t h.counted;
  scheduled = rw h.still_ready (if_not (is_empty _));
}

send_request-IsScheduled :
    (b : Bool) (id wasm : Text) (t : Terminal)
    → IsScheduled t
    → IsScheduled (send_request b id wasm t)
send_request-IsScheduled b id wasm t h =
    if_elim IsScheduled b _ _ (writeln-IsScheduled send_failed t h)
      (writeln-IsScheduled request_sent _ (same-IsScheduled t _ refl refl refl refl h))

on_open-IsScheduled :
    (b : Bool) (id : Text) (wasm : Option Text) (t : Terminal)
    → IsScheduled t
    → IsScheduled (on_open b id wasm t)
unfolding on_open
on_open-IsScheduled b id wasm t h =
    let greeted = writeln-IsScheduled (connected id) t h in
    if_elim IsScheduled (is_truthy (or_else wasm [])) _ _
      (send_request-IsScheduled b id (or_else wasm []) (writeln (connected id) t) greeted)
      (writeln-IsScheduled no_wasm _ greeted)

keep_snapshot-IsScheduled :
    (snapshot : Option Snapshot) (t : Terminal)
    → IsScheduled t
    → IsScheduled (keep_snapshot snapshot t)
keep_snapshot-IsScheduled none t h = h
keep_snapshot-IsScheduled (some snapshot) t h = same-IsScheduled t _ refl refl refl refl h

note_trap-IsScheduled :
    (trap : Option Text) (t : Terminal) → IsScheduled t → IsScheduled (note_trap trap t)
note_trap-IsScheduled none t h = h
note_trap-IsScheduled (some []) t h = h
note_trap-IsScheduled (some (c ∷ s)) t h =
    writeln-IsScheduled (wasm_trap (c ∷ s)) _ (same-IsScheduled t _ refl refl refl refl h)

on_exit_frame-IsScheduled :
    (msg : Control) (t : Terminal) → IsScheduled t → IsScheduled (on_exit_frame msg t)
unfolding on_exit_frame
on_exit_frame-IsScheduled msg t h =
    let kept = keep_snapshot-IsScheduled msg.vfs_snapshot (drain t) (drain-IsScheduled t h) in
    writeln-IsScheduled (exited msg.code) _
      (note_trap-IsScheduled msg.trap _ (same-IsScheduled _ _ refl refl refl refl kept))

normal_close-IsScheduled : (t : Terminal) → IsScheduled t → IsScheduled (normal_close t)
normal_close-IsScheduled t h = same-IsScheduled _ _ refl refl refl refl (
    if_elim IsScheduled t.has_trap _ _ (same-IsScheduled t _ refl refl refl refl h)
      (same-IsScheduled t _ refl refl refl refl h))

on_close-IsScheduled :
    (code : ℕ) (reason : Text) (t : Terminal) → IsScheduled t → IsScheduled (on_close code reason t)
unfolding on_close
on_close-IsScheduled code reason t h =
    let written = writeln-IsScheduled (ended_with_error code reason) t h in
    if_elim IsScheduled t.intentional_close _ _ h (
      if_elim IsScheduled (code == 1000) _ _ (normal_close-IsScheduled t h)
        (same-IsScheduled _ _ refl refl refl refl written))

react-IsScheduled : (e : Event) (t : Terminal) → IsScheduled t → IsScheduled (react e t)
unfolding react open_session on_error cleanup on_input on_text loaded
react-IsScheduled xterm_loaded t h = record {
  still_ready = refl;
  counted = h.counted;
  scheduled = h.scheduled;
}
react-IsScheduled animation_frame t h = flush_buffer-IsScheduled t h
react-IsScheduled session_opened t h = same-IsScheduled t _ refl refl refl refl h
react-IsScheduled socket_error t h =
    if_elim IsScheduled t.intentional_close _ _ h (writeln-IsScheduled connection_lost t h)
react-IsScheduled cleaned_up t h = drain-IsScheduled _ (same-IsScheduled t _ refl refl refl refl h)
react-IsScheduled (socket_opened b id wasm) t h = on_open-IsScheduled b id wasm t h
react-IsScheduled (binary_frame chunk) t h = enqueue-IsScheduled chunk t h
react-IsScheduled (text_frame throws bytes) t h = enqueue-IsScheduled bytes t h
react-IsScheduled (text_frame null_value bytes) t h = enqueue-IsScheduled bytes t h
react-IsScheduled (text_frame (control msg) bytes) t h =
    if_elim IsScheduled (is_exit msg) _ _ (on_exit_frame-IsScheduled msg t h) h
react-IsScheduled (socket_closed code reason) t h = on_close-IsScheduled code reason t h
react-IsScheduled (typed is_open text) t h =
    if_elim IsScheduled is_open _ _ (same-IsScheduled t _ refl refl refl refl h) h

-- Over any sequence of events, from a terminal with xterm there, a right counter and a frame
-- scheduled exactly if chunks wait: xterm stays, `pendingBytesRef` is the number of bytes in the
-- buffer, and an animation frame is scheduled exactly when the buffer is not empty. So no output
-- waits without a frame that will write it.
pub react_all-IsScheduled :
    (es : List Event) (t : Terminal) → IsScheduled t → IsScheduled (react_all es t)
unfolding react_all
react_all-IsScheduled [] t h = h
react_all-IsScheduled (e ∷ es) t h = react_all-IsScheduled es (react e t) (react-IsScheduled e t h)
