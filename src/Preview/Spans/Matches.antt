-- ===== src/Preview/Spans/Matches.antt =====
-- frontend/components/ComponentRegistry.tsx, `renderInline`: what the expression for marks matches.
use mathlib.Core.List.{append_assoc}
use isolator_v_wasm_sandbox.Common.{
  Text, codes, starts_with, ℕ, suc, ◌+◌, ◌<◌, ◌==◌, ◌≡◌, refl, ap, ◌∙◌, Bool, true, not, some, [],
  ◌∷◌, ◌++◌, length, length-append, take, drop, drop-length, all, arith,
}
use isolator_v_wasm_sandbox.Preview.Spans.{
  run_of, closed_by, mark_here, all_dots, href_after, plus, Token, strong, code, link,
}

-- A text without the unit c.
abbrev pub free_of : ℕ → Text → Bool
free_of c t = all (λ x. not (x == c)) t

run_of-free : (c : ℕ) (t r : Text) → free_of c t ≡ true → run_of c (t ++ (c ∷ r)) ≡ length t
run_of-free c [] r h = ground arith
run_of-free c (x ∷ t) r h = ground (arith, run_of-free c t r)

pub take-length : (t r : Text) → take (length t) (t ++ r) ≡ t
take-length [] [] = refl
take-length [] (x ∷ r) = refl
take-length (x ∷ t) r = ap (λ l. x ∷ l) (take-length t r)

pub starts_with-append : (w r : Text) → starts_with (w ++ r) w ≡ true
unfolding starts_with
starts_with-append [] r = refl
starts_with-append (x ∷ w) r = ground (arith, starts_with-append w r)

closed_by-append :
    (stop : ℕ) (close t r : Text)
    → free_of stop t ≡ true
    → 0 < length t
    → closed_by stop (stop ∷ close) (t ++ ((stop ∷ close) ++ r))
      ≡ some (length t + length (stop ∷ close))
closed_by-append stop close t r free some_there = rw (run_of-free stop t (close ++ r) free) (
    rw (drop-length t ((stop ∷ close) ++ r))
      (rw (starts_with-append (stop ∷ close) r) (ground arith)))

pub data Mark : Type 0 where
  bold code_text : Text → Mark
  link_to : (label href : Text) → Mark

abbrev pub print_mark : Mark → Text
print_mark (bold t) = codes "**" ++ (t ++ codes "**")
print_mark (code_text t) = codes "`" ++ (t ++ codes "`")
print_mark (link_to label href) = codes "[" ++ (label ++ (codes "](" ++ (href ++ codes ")")))

abbrev pub IsMark : Mark → Type 0
IsMark (bold t) = (free_of b'*' t ≡ true) × (0 < length t)
IsMark (code_text t) = (free_of b'`' t ≡ true) × (0 < length t)
IsMark (link_to label href) =
    (free_of b']' label ≡ true)
    × (0 < length label)
    × (free_of b')' href ≡ true)
    × (0 < length href)
    × (all_dots label ≡ true)
    × (all_dots href ≡ true)

abbrev pub token_of_mark : Mark → Token
token_of_mark (bold t) = strong t
token_of_mark (code_text t) = code t
token_of_mark (link_to label href) = link label href

reassoc : (a b r : Text) → (a ++ b) ++ r ≡ a ++ (b ++ r)
reassoc a b r = append_assoc a b r

drop_past : (t r : Text) (a b : ℕ) → drop (length t + 2) (t ++ (a ∷ b ∷ r)) ≡ r
drop_past [] r a b = refl
drop_past (x ∷ t) r a b =
    let longer : suc (length t) + 2 ≡ suc (length t + 2) = omega arith in
    rw longer (drop_past t r a b)

href_after-print :
    (label href r : Text)
    → free_of b')' href ≡ true
    → 0 < length href
    → href_after
        (b'[' ∷ (label ++ (codes "](" ++ ((href ++ codes ")") ++ r))))
        (suc (length label + 2))
      ≡ some (suc (length label + 2) + (length href + 1))
href_after-print label href r h p =
    let n = suc (length label + 2) in
    ap (λ t. plus n (closed_by b')' (codes ")") t))
      (drop_past label ((href ++ codes ")") ++ r) b']' b'(' ∙ reassoc href (codes ")") r)
    ∙ ap (plus n) (closed_by-append b')' [] href r h p)

mark_here-link :
    (label href r : Text)
    → IsMark (link_to label href)
    → mark_here (b'[' ∷ (label ++ (codes "](" ++ ((href ++ codes ")") ++ r))))
      ≡ some (length (print_mark (link_to label href)))
unfolding mark_here
mark_here-link label href r h =
    let target = href ++ codes ")" in
    rw (closed_by-append b']' (codes "(") label (target ++ r) h.0 h.1) (
      href_after-print label href r h.2 h.3
      ∙ rw (length-append label (codes "](" ++ target))
          (rw (length-append href (codes ")")) (ground arith)))

pub mark_here-print :
    (m : Mark) (r : Text) → IsMark m → mark_here (print_mark m ++ r) ≡ some (length (print_mark m))
unfolding mark_here
mark_here-print (bold t) r h = rw (reassoc t (codes "**") r) (
    rw (closed_by-append b'*' (codes "*") t r h.0 h.1)
      (rw (length-append t (codes "**")) (ground arith)))
mark_here-print (code_text t) r h =
    rw (reassoc t (codes "`") r)
      (rw (closed_by-append b'`' [] t r h.0 h.1) (rw (length-append t (codes "`")) (ground arith)))
mark_here-print (link_to label href) r h =
    let target = href ++ codes ")" in
    ap (λ t. mark_here (b'[' ∷ t)) (reassoc label (codes "](" ++ target) r)
    ∙ mark_here-link label href r h
