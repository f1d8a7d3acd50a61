-- ===== src/Panic/Tests.antt =====
-- frontend/components/TerminalErrorBoundary.tsx at a concrete error.
use isolator_v_wasm_sandbox.Common.{
  Text, decimal, codes, split, split_from, trim, ◌≡◌, refl, some, [], ◌∷◌,
}
use isolator_v_wasm_sandbox.Panic.{Failure, digest}
use isolator_v_wasm_sandbox.Panic.View.{kernel_panic, shown_time, pad_start}

-- The digest leaves out the first line and the blank ones.
bad_write : Failure
bad_write = record {
  message = codes "write after dispose";
  stack = some (codes "Error\n  at a\n\n  at b");
}

digest_of_stack : digest (some bad_write) ≡ codes "  at a" ∷ codes "  at b" ∷ []
unfolding digest bad_write split split_from trim
digest_of_stack = refl

abbrev noon : Text
noon = codes "2026-01-02T12:00:00.000Z"

noon_shown : shown_time noon ≡ codes "2026-01-02 12:00:00"
unfolding shown_time
noon_shown = refl

trace_of_stack :
    (kernel_panic noon (some bad_write)).call_trace
    ≡ record { number = codes "[000]"; text = codes "at a" }
      ∷ record { number = codes "[001]"; text = codes "at b" }
      ∷ []
unfolding kernel_panic digest bad_write split split_from trim pad_start decimal
trace_of_stack = refl
