-- ===== src/Console/SessionId.antt =====
-- frontend/components/ExecutionConsole.tsx: the session id, `sess_${Date.now().toString(36)}`.
use isolator_v_wasm_sandbox.Common.{
  Text, codes, ℕ, zero, suc, ◌+◌, ◌-◌, ◌*◌, ◌/◌, ◌%◌, ◌<◌, ◌≡◌, refl, ap, ◌∙◌, sym, [], ◌∷◌, ◌++◌,
  arith, if◌then◌else◌, ltb, leb, drop,
}

-- One digit of `toString(36)`.
unfoldable pub digit : ℕ → ℕ
digit d = if ltb d 10 then b'0' + d else b'a' + (d - 10)

-- The digits below the fuel's limit, most significant first, in front of `acc`.
unfoldable pub digits_from : ℕ → ℕ → Text → Text
digits_from zero n acc = acc
digits_from (suc fuel) n acc =
    let rest = digits_from fuel (n / 36) (digit (n % 36) ∷ acc) in
    if ltb n 36 then digit n ∷ acc else rest

-- `n.toString(36)`; the fuel is above the number of digits.
unfoldable pub to_base36 : ℕ → Text
unfolding digits_from digit
to_base36 n = digits_from (suc n) n []

unfoldable pub session_id_at : ℕ → Text
unfolding to_base36
session_id_at now = codes "sess_" ++ to_base36 now

-- The value of one digit, and of a text read as digits behind a value.
abbrev undigit : ℕ → ℕ
undigit c = if leb b'a' c then c - b'a' + 10 else c - b'0'

value : ℕ → Text → ℕ
value v [] = v
value v (c ∷ s) = value (v * 36 + undigit c) s

undigit-digit : (d : ℕ) → d < 36 → undigit (digit d) ≡ d
unfolding digit
undigit-digit d h = ground arith

value-digits_from :
    (fuel n : ℕ) (acc : Text) → n < fuel → value 0 (digits_from fuel n acc) ≡ value n acc
unfolding digits_from value
value-digits_from zero n acc h = elim h [ ]
value-digits_from (suc fuel) n acc h = ground (
  arith,
  undigit-digit n,
  undigit-digit (n % 36),
  value-digits_from fuel (n / 36) (digit (n % 36) ∷ acc),
)

value-to_base36 : (n : ℕ) → value 0 (to_base36 n) ≡ n
unfolding to_base36
value-to_base36 n = value-digits_from (suc n) n [] (omega arith) ∙ unfold value in refl

-- Two runs that start in different milliseconds have different session ids.
pub session_id_at-injective : (m n : ℕ) → session_id_at m ≡ session_id_at n → m ≡ n
unfolding session_id_at
session_id_at-injective m n e =
    sym (value-to_base36 m) ∙ ap (λ s. value 0 (drop 5 s)) e ∙ value-to_base36 n
