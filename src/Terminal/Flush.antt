-- ===== src/Terminal/Flush.antt =====
-- frontend/components/Terminal.tsx: one frame of the back-pressure buffer, and how many it takes.
use isolator_v_wasm_sandbox.Common.{
  ℕ, zero, suc, ◌+◌, ◌-◌, ◌≤◌, ◌<◌, ◌≡◌, ◌⊎◌, ◌↔◌, inl, inr, refl, sym, ap, ◌∙◌, true, false,
  Bool-cases, List, [], ◌∷◌, ◌++◌, map, length, length-append, arith, ltb,
}
use mathlib.Core.List.{append_assoc, append-nil}
use isolator_v_wasm_sandbox.Common.Backoff.{iterate}
use isolator_v_wasm_sandbox.Terminal.{
  Chunk, Write, output, Terminal, Flushing, max_bytes_per_frame, flush_loop, flush_buffer,
}

-- The bytes of some chunks.
abbrev pub total : List Chunk → ℕ
total [] = 0
total (chunk ∷ chunks) = length chunk + total chunks

-- The bytes of all the chunks but the last.
abbrev pub total_before_last : List Chunk → ℕ
total_before_last [] = 0
total_before_last (chunk ∷ []) = 0
total_before_last (chunk ∷ next ∷ chunks) = length chunk + total_before_last (next ∷ chunks)

-- What one run of the loop does, from `written` bytes on: it writes the chunks `taken`.
record Flushes (chunks : List Chunk) (written pending : ℕ) (screen : List Write) (f : Flushing)
    : Type 0 where
  taken : List Chunk
  split_up : chunks ≡ taken ++ f.buffer
  shown : f.screen ≡ screen ++ map output taken
  counted : f.pending_bytes ≡ pending - total taken
  bounded : (taken ≡ []) ⊎ (written + total_before_last taken < max_bytes_per_frame)
  full : (f.buffer ≡ []) ⊎ (max_bytes_per_frame ≤ written + total taken)

bounded-cons :
    (chunk : Chunk) (taken : List Chunk) (written : ℕ)
    → written < max_bytes_per_frame
    → (taken ≡ []) ⊎ (written + length chunk + total_before_last taken < max_bytes_per_frame)
    → written + total_before_last (chunk ∷ taken) < max_bytes_per_frame
bounded-cons chunk [] written h b = omega arith
bounded-cons chunk (next ∷ taken) written h (inl e) = cc
bounded-cons chunk (next ∷ taken) written h (inr b) = omega arith

Flushes-cons :
    (chunk : Chunk) (chunks : List Chunk) (written pending : ℕ) (screen : List Write) (f : Flushing)
    → written < max_bytes_per_frame
    → Flushes chunks
        (written + length chunk)
        (pending - length chunk)
        (screen ++ output chunk ∷ [])
        f
    → Flushes (chunk ∷ chunks) written pending screen f
Flushes-cons chunk chunks written pending screen f h r = record {
  taken = chunk ∷ r.taken;
  split_up = ap (λ l. chunk ∷ l) r.split_up;
  shown = r.shown ∙ append_assoc screen (output chunk ∷ []) (map output r.taken);
  counted = r.counted ∙ omega arith;
  bounded = inr (bounded-cons chunk r.taken written h r.bounded);
  full = ground (arith, r.full);
}

flush_loop-Flushes :
    (chunks : List Chunk) (written pending : ℕ) (screen : List Write)
    → Flushes chunks written pending screen (flush_loop chunks written pending screen)
unfolding flush_loop
flush_loop-Flushes [] written pending screen = record {
  taken = [];
  split_up = refl;
  shown = sym (append-nil screen);
  counted = omega arith;
  bounded = inl refl;
  full = inl refl;
}
flush_loop-Flushes (chunk ∷ chunks) written pending screen =
    elim (Bool-cases (ltb written max_bytes_per_frame)) [
      | inr e ↦ rw e (record {
        taken = [];
        split_up = refl;
        shown = sym (append-nil screen);
        counted = omega arith;
        bounded = inl refl;
        full = inr (ground arith);
      })
      | inl e ↦ rw e (
          Flushes-cons chunk chunks written pending screen _ (ground arith)
            (flush_loop-Flushes chunks _ _ _))
    ]

length-buffer :
    {chunks : List Chunk} {written pending : ℕ} {screen : List Write} {f : Flushing}
    → Flushes chunks written pending screen f
    → 0 < max_bytes_per_frame - written
    → length f.buffer ≤ length chunks - 1
length-buffer {chunks} {written} {f} r h =
    let counts : length chunks ≡ length r.taken + length f.buffer =
      ap length r.split_up ∙ length-append r.taken f.buffer in
    go r.taken counts r.full
  where
    go :
        (taken : List Chunk)
        → length chunks ≡ length taken + length f.buffer
        → (f.buffer ≡ []) ⊎ (max_bytes_per_frame ≤ written + total taken)
        → length f.buffer ≤ length chunks - 1
    go taken e (inl empty) = rw empty (omega arith)
    go [] e (inr full) = absurd (omega arith)
    go (chunk ∷ taken) e (inr full) = omega arith

-- One animation frame with xterm there: it writes some chunks `taken` from the front of the buffer,
-- in order, and keeps the rest. It goes on only while less than 32 768 bytes are written, so all
-- but the last chunk stay below that, and it stops early only when as much is written. Another
-- frame is scheduled exactly when chunks remain.
pub flush_buffer_lem :
    (t : Terminal)
    → t.ready ≡ true
    → (taken : List Chunk) × (t.buffer ≡ taken ++ (flush_buffer t).buffer)
      × ((flush_buffer t).screen ≡ t.screen ++ map output taken)
      × ((taken ≡ []) ⊎ (total_before_last taken < max_bytes_per_frame))
      × (((flush_buffer t).buffer ≡ []) ⊎ (max_bytes_per_frame ≤ total taken))
      × (((flush_buffer t).raf ≡ false) ↔ ((flush_buffer t).buffer ≡ []))
unfolding flush_buffer
flush_buffer_lem t h =
    let r = flush_loop-Flushes t.buffer 0 t.pending_bytes t.screen in
    rw h (
      r.taken,
      r.split_up,
      r.shown,
      ground (arith, r.bounded),
      ground (arith, r.full),
      ground arith,
    )

pub flush_buffer-ready : (t : Terminal) → (flush_buffer t).ready ≡ t.ready
unfolding flush_buffer
flush_buffer-ready t = ground arith

length-flush_buffer :
    (t : Terminal) → t.ready ≡ true → length (flush_buffer t).buffer ≤ length t.buffer - 1
unfolding flush_buffer
length-flush_buffer t h =
    rw h (length-buffer (flush_loop-Flushes t.buffer 0 t.pending_bytes t.screen) (omega arith))

iterate-flush_buffer :
    (k : ℕ) (t : Terminal)
    → t.ready ≡ true
    → ((iterate k flush_buffer t).ready ≡ true)
      × (length (iterate k flush_buffer t).buffer ≤ length t.buffer - k)
iterate-flush_buffer zero t h = (h, omega arith)
iterate-flush_buffer (suc k) t h =
    let (r, b) = iterate-flush_buffer k t h in
    (flush_buffer-ready _ ∙ r, omega (arith, length-flush_buffer (iterate k flush_buffer t) r))

empty_of_length : (chunks : List Chunk) → length chunks ≤ 0 → chunks ≡ []
empty_of_length [] h = refl
empty_of_length (chunk ∷ chunks) h = absurd (omega arith)

-- With xterm there the buffer runs dry: as many frames as it holds chunks are enough to empty it,
-- whatever the sizes of the chunks.
pub flush_buffer_drains :
    (t : Terminal) → t.ready ≡ true → (iterate (length t.buffer) flush_buffer t).buffer ≡ []
flush_buffer_drains t h =
    empty_of_length _ (omega (arith, (iterate-flush_buffer (length t.buffer) t h).1))
