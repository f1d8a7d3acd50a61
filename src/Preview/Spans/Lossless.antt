-- ===== src/Preview/Spans/Lossless.antt =====
-- frontend/components/ComponentRegistry.tsx, `renderInline`: cutting a text loses nothing of it.
use mathlib.Core.List.{append_assoc}
use isolator_v_wasm_sandbox.Common.{
  Text, snoc, ℕ, zero, suc, ◌-◌, ◌≡◌, refl, ap, ◌∙◌, Option, none, some, List, [], ◌∷◌, ◌++◌,
}
use isolator_v_wasm_sandbox.Preview.Spans.{pieces}

abbrev pub concat : List Text → Text
concat [] = []
concat (t ∷ ts) = t ++ concat ts

snoc-append : (cur : Text) (c : ℕ) (s : Text) → snoc cur c ++ s ≡ cur ++ (c ∷ s)
snoc-append cur c s = append_assoc cur (c ∷ []) s

-- The pieces of a text, one after the other, are the text, whatever the expression matches.
pub concat-pieces :
    (here : Text → Option ℕ) (left : ℕ) (cur s : Text) → concat (pieces here left cur s) ≡ cur ++ s
unfolding pieces
concat-pieces here zero cur [] = refl
concat-pieces here (suc n) cur [] = refl
concat-pieces here zero cur (c ∷ s) =
    elim (here (c ∷ s))
      as (λ o.
        concat (elim o [
          | none ↦ pieces here zero (snoc cur c) s
          | some n ↦ cur ∷ pieces here (n - 1) (c ∷ []) s
        ])
        ≡ cur ++ (c ∷ s)) [
          | none ↦ concat-pieces here zero (snoc cur c) s ∙ snoc-append cur c s
          | some n ↦ ap (λ t. cur ++ t) (concat-pieces here (n - 1) (c ∷ []) s)
        ]
concat-pieces here (suc zero) cur (c ∷ s) =
    ap (λ t. snoc cur c ++ t) (concat-pieces here zero [] s) ∙ snoc-append cur c s
concat-pieces here (suc (suc n)) cur (c ∷ s) =
    concat-pieces here (suc n) (snoc cur c) s ∙ snoc-append cur c s
