-- ===== src/Panic/View.antt =====
-- frontend/components/TerminalErrorBoundary.tsx, `KernelPanic`: the texts of the panic screen.
use isolator_v_wasm_sandbox.Common.{
  Text, codes, decimal, trim, split, ℕ, zero, suc, ◌-◌, ◌≡◌, ◌≤◌, refl, ap, ◌∙◌, false, Option,
  List, [], ◌∷◌, ◌++◌, length, take, drop, filter, All, ◌==◌, if◌then◌else◌, length-take, arith,
}
use isolator_v_wasm_sandbox.Panic.{Failure, has_text, digest, stack_of, message_of}

abbrev pub zeros : ℕ → Text
zeros zero = []
zeros (suc n) = b'0' ∷ zeros n

-- `s.padStart(n, "0")`
unfoldable pub pad_start : ℕ → Text → Text
pad_start n s = zeros (n - length s) ++ s

-- A line of the call trace: its number in brackets, and the line of the stack without white space
-- around it.
pub record TraceLine : Type 0 where
  pub number : Text
  pub text : Text

abbrev pub numbered_from : ℕ → List Text → List TraceLine
numbered_from i [] = []
numbered_from i (l ∷ ls) =
    record { number = codes "[" ++ pad_start 3 (decimal i) ++ codes "]"; text = trim l }
    ∷ numbered_from (suc i) ls

-- `.replace("T", " ")`: the first T.
unfoldable pub replace_t : Text → Text
replace_t [] = []
replace_t (c ∷ s) = if c == b'T' then b' ' ∷ s else c ∷ replace_t s

-- `timestamp.slice(0, 19).replace("T", " ")`
unfoldable pub shown_time : Text → Text
unfolding replace_t
shown_time timestamp = replace_t (take 19 timestamp)

pub record PanicView : Type 0 where
  pub header : Text
  pub subsystem : Text
  pub fatal : Text
  pub message : Text
  pub call_trace : List TraceLine
  pub system_state : List (Text × Text)
  pub button : Text

-- `timestamp` is `new Date().toISOString()`.
unfoldable pub kernel_panic : Text → Option Failure → PanicView
unfolding shown_time
kernel_panic timestamp error = record {
  header = codes "*** KERNEL PANIC — NOT SYNCING";
  subsystem = codes "isolator-v / terminal subsystem";
  fatal = codes "[  FATAL  ] Unhandled exception in render tree";
  message = message_of error;
  call_trace = numbered_from 0 (digest error);
  system_state =
      (codes "PID", codes "—")
      ∷ (codes "CPU", codes "0x00")
      ∷ (codes "Signal", codes "SIGABRT")
      ∷ (codes "Timestamp", shown_time timestamp)
      ∷ (codes "Module", codes "xterm-renderer")
      ∷ (codes "Subsystem", codes "terminal")
      ∷ [];
  button = codes "Reconnect";
}

-- No T in a text.
abbrev pub HasNoT : Text → Type 0
HasNoT = All (λ c. (c == b'T') ≡ false)

replace_t-append :
    (before after : Text)
    → HasNoT before
    → replace_t (before ++ b'T' ∷ after) ≡ before ++ b' ' ∷ after
unfolding replace_t
replace_t-append [] after h = refl
replace_t-append (c ∷ before) after (first, rest) =
    rw first (ap (λ (s : Text). c ∷ s) (replace_t-append before after rest))

take-append : (n : ℕ) (xs ys : Text) → length xs ≡ n → take n (xs ++ ys) ≡ xs
take-append zero [] ys e = refl
take-append zero (x ∷ xs) ys e = absurd (omega (arith, e))
take-append (suc n) [] ys e = absurd (omega (arith, e))
take-append (suc n) (x ∷ xs) ys e =
    ap (λ (s : Text). x ∷ s) (take-append n xs ys (omega (arith, e)))

-- The time of an ISO date is shown to the second, with a space between date and time.
pub shown_time-iso :
    (date time fraction : Text)
    → HasNoT date
    → length (date ++ b'T' ∷ time) ≡ 19
    → shown_time ((date ++ b'T' ∷ time) ++ fraction) ≡ date ++ b' ' ∷ time
unfolding shown_time
shown_time-iso date time fraction h e =
    ap replace_t (take-append 19 (date ++ b'T' ∷ time) fraction e) ∙ replace_t-append date time h

length-numbered_from : (i : ℕ) (ls : List Text) → length (numbered_from i ls) ≡ length ls
length-numbered_from i [] = refl
length-numbered_from i (l ∷ ls) = omega (arith, length-numbered_from (suc i) ls)

-- The call trace has three lines at most.
pub call_trace-le :
    (timestamp : Text) (error : Option Failure)
    → length (kernel_panic timestamp error).call_trace ≤ 3
unfolding kernel_panic digest
call_trace-le timestamp error =
    let lines = drop 1 (filter has_text (split b'\n' (stack_of error))) in
    omega (arith, length-numbered_from 0 (take 3 lines), length-take 3 lines)
