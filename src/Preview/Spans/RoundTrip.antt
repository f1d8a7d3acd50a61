-- ===== src/Preview/Spans/RoundTrip.antt =====
-- frontend/components/ComponentRegistry.tsx, `renderInline`: marked text is read as it was written.
use mathlib.Core.List.{append_assoc, append-nil}
use isolator_v_wasm_sandbox.Common.{
  drop-length, Text, codes, text_eq_refl, snoc, starts_with, ℕ, zero, ◌-◌, ◌<◌, ◌==◌, ◌≡◌, refl,
  sym, ap, ◌∙◌, Bool, true, false, not, ◌&&◌, Option, none, some, List, [], ◌∷◌, ◌++◌, length,
  length-append, take, drop, all, All, arith,
}
use isolator_v_wasm_sandbox.Preview.Spans.{
  mark_here, italic_here, pieces, ends_with, inner, label_split, link_of, Token, strong, code, text,
  token_of, render_inline,
}
use isolator_v_wasm_sandbox.Preview.Spans.Matches.{
  free_of, Mark, bold, code_text, link_to, print_mark, IsMark, token_of_mark, take-length,
  mark_here-print,
}

-- A match is one piece, and the text before it another.
pieces-within :
    (here : Text → Option ℕ) (c : ℕ) (w cur r : Text)
    → pieces here (length (c ∷ w)) cur ((c ∷ w) ++ r) ≡ (cur ++ (c ∷ w)) ∷ pieces here zero [] r
unfolding pieces
pieces-within here c [] cur r = refl
pieces-within here c (d ∷ w) cur r =
    pieces-within here d w (snoc cur c) r
    ∙ ap (λ t. t ∷ pieces here zero [] r) (append_assoc cur (c ∷ []) (d ∷ w))

pieces-match :
    (here : Text → Option ℕ) (c d : ℕ) (w cur r : Text)
    → here ((c ∷ d ∷ w) ++ r) ≡ some (length (c ∷ d ∷ w))
    → pieces here zero cur ((c ∷ d ∷ w) ++ r) ≡ cur ∷ (c ∷ d ∷ w) ∷ pieces here zero [] r
unfolding pieces
pieces-match here c d w cur r h =
    let left : length (c ∷ d ∷ w) - 1 ≡ length (d ∷ w) = omega arith in
    rw h (rw left (ap (λ l. cur ∷ l) (pieces-within here d w (c ∷ []) r)))

-- Text without the units that marks begin with.
abbrev pub is_plain_unit : ℕ → Bool
is_plain_unit c = not (c == b'*') && not (c == b'`') && not (c == b'[') && not (c == b'_')

abbrev pub is_plain : Text → Bool
is_plain t = all is_plain_unit t

pieces-plain :
    (here : Text → Option ℕ) (p cur r : Text)
    → ((c : ℕ) (s : Text) → is_plain_unit c ≡ true → here (c ∷ s) ≡ none)
    → is_plain p ≡ true
    → pieces here zero cur (p ++ r) ≡ pieces here zero (cur ++ p) r
unfolding pieces
pieces-plain here [] cur r no_match h = ap (λ t. pieces here zero t r) (sym (append-nil cur))
pieces-plain here (c ∷ p) cur r no_match h = rw (no_match c (p ++ r) (ground arith)) (
    pieces-plain here p (snoc cur c) r no_match (ground arith)
    ∙ ap (λ t. pieces here zero t r) (append_assoc cur (c ∷ []) p))

mark_here-plain : (c : ℕ) (s : Text) → is_plain_unit c ≡ true → mark_here (c ∷ s) ≡ none
unfolding mark_here
mark_here-plain c s h = ground arith

italic_here-plain : (c : ℕ) (s : Text) → is_plain_unit c ≡ true → italic_here (c ∷ s) ≡ none
unfolding italic_here
italic_here-plain c s h = ground arith

not_marked :
    (p : Text)
    → is_plain p ≡ true
    → (starts_with p (codes "**") ≡ false)
      × (starts_with p (codes "`") ≡ false)
      × (starts_with p (codes "[") ≡ false)
unfolding starts_with
not_marked [] h = (refl, refl, refl)
not_marked (c ∷ p) h = (ground arith, ground arith, ground arith)

one_piece : (p : Text) → is_plain p ≡ true → pieces italic_here zero [] p ≡ p ∷ []
unfolding pieces
one_piece p h =
    ap (λ t. pieces italic_here zero [] t) (sym (append-nil p))
    ∙ pieces-plain italic_here p [] [] italic_here-plain h

token_of-plain : (p : Text) → is_plain p ≡ true → token_of p ≡ text p
unfolding token_of link_of
token_of-plain p h =
    let marks = not_marked p h in rw marks.0 (rw marks.1 (rw marks.2 (rw (one_piece p h) refl)))

drop_before : (s w : Text) → drop (length (s ++ w) - length w) (s ++ w) ≡ w
drop_before s w =
    let n : length (s ++ w) - length w ≡ length s = omega (arith, length-append s w) in
    rw n (drop-length s w)

take_before : (s w : Text) → take (length (s ++ w) - length w) (s ++ w) ≡ s
take_before s w =
    let n : length (s ++ w) - length w ≡ length s = omega (arith, length-append s w) in
    rw n (take-length s w)

ends_with-append : (s w : Text) → ends_with (s ++ w) w ≡ true
ends_with-append s w = rw (drop_before s w) (text_eq_refl w)

inner-between : (s t w : Text) → inner (length w) ((s ++ t) ++ w) ≡ drop (length w) (s ++ t)
inner-between s t w = ap (λ l. drop (length w) l) (take_before (s ++ t) w)

label_split-free :
    (label rest : Text)
    → free_of b']' label ≡ true
    → 0 < length label
    → label_split (label ++ (codes "](" ++ rest)) ≡ some (label, rest)
unfolding starts_with
label_split-free [] rest h p = elim p [ ]
label_split-free (c ∷ []) rest h p = refl
label_split-free (c ∷ d ∷ label) rest h p =
    let other : (d == b']') ≡ false = ground arith in
    rw other (rw (label_split-free (d ∷ label) rest (ground arith) (omega arith)) refl)

link_of-link :
    (label href : Text)
    → IsMark (link_to label href)
    → link_of (print_mark (link_to label href)) ≡ some (label, href)
unfolding link_of starts_with
link_of-link label href h = rw (label_split-free label (href ++ codes ")") h.0 h.1) (
    rw (ends_with-append href (codes ")"))
      (rw (take_before href (codes ")")) (rw h.4 (rw h.5 (ground (arith, h.3))))))

token_of-mark : (m : Mark) → IsMark m → token_of (print_mark m) ≡ token_of_mark m
unfolding token_of starts_with
token_of-mark (bold t) h =
    rw (ends_with-append (codes "**" ++ t) (codes "**"))
      (ap strong (inner-between (codes "**") t (codes "**")))
token_of-mark (code_text t) h =
    rw (ends_with-append (codes "`" ++ t) (codes "`"))
      (ap code (inner-between (codes "`") t (codes "`")))
token_of-mark (link_to label href) h = rw (link_of-link label href h) refl

pieces-mark :
    (m : Mark) (cur r : Text)
    → IsMark m
    → pieces mark_here zero cur (print_mark m ++ r)
      ≡ cur ∷ print_mark m ∷ pieces mark_here zero [] r
pieces-mark (bold t) cur r h =
    pieces-match mark_here b'*' b'*' (t ++ codes "**") cur r (mark_here-print (bold t) r h)
pieces-mark (code_text []) cur r h = absurd (omega (arith, h.1))
pieces-mark (code_text (c ∷ t)) cur r h =
    pieces-match mark_here b'`' c (t ++ codes "`") cur r (mark_here-print (code_text (c ∷ t)) r h)
pieces-mark (link_to [] href) cur r h = absurd (omega (arith, h.1))
pieces-mark (link_to (c ∷ label) href) cur r h =
    pieces-match mark_here b'[' c (label ++ (codes "](" ++ (href ++ codes ")"))) cur r
      (mark_here-print (link_to (c ∷ label) href) r h)

-- A plain text, and marks with a plain text after each.
abbrev pub print_line : Text → List (Mark × Text) → Text
print_line p [] = p
print_line p ((m, q) ∷ ms) = p ++ (print_mark m ++ print_line q ms)

abbrev pub tokens_of_line : Text → List (Mark × Text) → List Token
tokens_of_line p [] = text p ∷ []
tokens_of_line p ((m, q) ∷ ms) = text p ∷ token_of_mark m ∷ tokens_of_line q ms

abbrev pub IsLine : List (Mark × Text) → Type 0
IsLine ms = All (λ (x : Mark × Text). IsMark x.0 × (is_plain x.1 ≡ true)) ms

-- Bold text, code and links that are written out with plain text before, between and after them,
-- which may be empty, are read as they were: each plain text as a text, and each mark as the element
-- of its kind, in their order. A mark is not empty and does not have the unit in it that ends it, a
-- link has no line terminator, and plain text has no asterisk, backtick, opening bracket or
-- underscore.
pub render_inline-print_line :
    (p : Text) (ms : List (Mark × Text))
    → is_plain p ≡ true
    → IsLine ms
    → render_inline (print_line p ms) ≡ tokens_of_line p ms
unfolding render_inline
render_inline-print_line p [] h hs =
    let one : pieces mark_here zero [] p ≡ p ∷ [] =
      ap (λ t. pieces mark_here zero [] t) (sym (append-nil p))
      ∙ pieces-plain mark_here p [] [] mark_here-plain h in
    rw one (rw (token_of-plain p h) refl)
render_inline-print_line p ((m, q) ∷ ms) h hs =
    let cut_up =
      pieces-plain mark_here p [] (print_mark m ++ print_line q ms) mark_here-plain h
      ∙ pieces-mark m p (print_line q ms) hs.0.0 in
    rw cut_up (
      rw (token_of-plain p h) (
        rw (token_of-mark m hs.0.0)
          (ap (λ l. text p ∷ token_of_mark m ∷ l) (render_inline-print_line q ms hs.0.1 hs.1))))
