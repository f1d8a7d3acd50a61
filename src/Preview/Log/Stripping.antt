-- ===== src/Preview/Log/Stripping.antt =====
-- frontend/components/ComponentRegistry.tsx, `stripAnsi` and `logLineColor`: coloured text,
-- and the case of a line's letters.
use isolator_v_wasm_sandbox.Common.{
  Text, to_lower_unit, to_lower_case, ℕ, zero, suc, ◌≡◌, ◌≢◌, refl, ap, ◌∙◌, true, none, some, List,
  [], ◌∷◌, ◌++◌, length, All, arith,
}
use isolator_v_wasm_sandbox.Preview.Log.{
  is_parameter, parameters, escape, rest_of_sequence, strip_from, strip_ansi, log_line_color,
}

-- Coloured text: each segment is a sequence that sets the colour, by its parameters, and text.
abbrev pub Segments : Type 0
Segments = List (Text × Text)

abbrev pub coloured : Segments → Text
coloured [] = []
coloured ((ps, text) ∷ segments) = escape ∷ b'[' ∷ (ps ++ b'm' ∷ (text ++ coloured segments))

abbrev pub plain : Segments → Text
plain [] = []
plain ((ps, text) ∷ segments) = text ++ plain segments

abbrev pub IsSegment : Text × Text → Type 0
IsSegment (ps, text) = All (λ c. is_parameter c ≡ true) ps × All (λ c. c ≢ escape) text

parameters-append :
    (ps s : Text)
    → All (λ c. is_parameter c ≡ true) ps
    → parameters (ps ++ b'm' ∷ s) ≡ some (suc (length ps))
parameters-append [] s h = refl
parameters-append (p ∷ ps) s h = rw h.0 (rw (parameters-append ps s h.1) refl)

strip_from-skip : (ps s : Text) → strip_from (suc (length ps)) (ps ++ b'm' ∷ s) ≡ strip_from zero s
unfolding strip_from
strip_from-skip [] s = refl
strip_from-skip (p ∷ ps) s = strip_from-skip ps s

no_sequence : (c : ℕ) (s : Text) → c ≢ escape → rest_of_sequence c s ≡ none
no_sequence c s h = ground arith

strip_from-kept : (c : ℕ) (s : Text) → c ≢ escape → strip_from zero (c ∷ s) ≡ c ∷ strip_from zero s
unfolding strip_from
strip_from-kept c s h = rw (no_sequence c s h, strip_from)

strip_from-text :
    (text s : Text)
    → All (λ c. c ≢ escape) text
    → strip_from zero (text ++ s) ≡ text ++ strip_from zero s
strip_from-text [] s h = refl
strip_from-text (c ∷ text) s h =
    strip_from-kept c (text ++ s) h.0 ∙ ap (◌∷◌ c) (strip_from-text text s h.1)

strip_from-sequence :
    (ps s : Text)
    → All (λ c. is_parameter c ≡ true) ps
    → strip_from zero (escape ∷ b'[' ∷ (ps ++ b'm' ∷ s)) ≡ strip_from zero s
unfolding strip_from
strip_from-sequence ps s h = rw (parameters-append ps s h, strip_from) (strip_from-skip ps s)

-- Text that is coloured by escape sequences, and has no escape character of its own, comes out as
-- the text alone.
pub strip_ansi-coloured :
    (segments : Segments) → All IsSegment segments → strip_ansi (coloured segments) ≡ plain segments
unfolding strip_ansi
strip_ansi-coloured [] h = refl
strip_ansi-coloured ((ps, text) ∷ segments) h =
    strip_from-sequence ps (text ++ coloured segments) h.0.0
    ∙ strip_from-text text (coloured segments) h.0.1
    ∙ ap (λ s. text ++ s) (strip_ansi-coloured segments h.1)

to_lower_unit_idem : (c : ℕ) → to_lower_unit (to_lower_unit c) ≡ to_lower_unit c
unfolding to_lower_unit
to_lower_unit_idem c = ground arith

to_lower_case_idem : (s : Text) → to_lower_case (to_lower_case s) ≡ to_lower_case s
unfolding to_lower_case
to_lower_case_idem [] = refl
to_lower_case_idem (c ∷ s) =
    rw (to_lower_unit_idem c) (ap (◌∷◌ (to_lower_unit c)) (to_lower_case_idem s))

-- The colour of a line does not depend on the case of its letters.
pub log_line_color-to_lower_case :
    (line : Text) → log_line_color (to_lower_case line) ≡ log_line_color line
unfolding log_line_color
log_line_color-to_lower_case line = rw to_lower_case_idem refl
