-- ===== src/Preview/Markdown/Fuel.antt =====
-- frontend/components/ComponentRegistry.tsx, `MarkdownViewer`: the turns that the loop takes.
use isolator_v_wasm_sandbox.Common.{
  Text, codes, split, trim, starts_with, is_truthy, ℕ, zero, suc, ◌≤◌, ◌≡◌, refl, ap, true, not,
  ◌&&◌, ◌||◌, Option, none, some, List, [], ◌∷◌, length, if◌then◌else◌, if_elim, arith, is_some,
  Bool-cases, inl, inr,
}
use isolator_v_wasm_sandbox.Preview.Markdown.{
  Block, h1, h2, h3, heading, heading_or, is_fence, is_bullet, is_indented, first_is_indented,
  fenced, bullet_items, table_rows, indented_lines, table_of, plain_line, other_line, turn,
  push_all, blocks, markdown, is_rule,
}

-- At most n lines are left.
abbrev pub Left : {A : Type 0} → ℕ → A × List Text → Type 0
Left n r = length r.1 ≤ n

fenced-le : (ls : List Text) → length (fenced ls).1 ≤ length ls
unfolding fenced
fenced-le [] = omega arith
fenced-le (l ∷ ls) =
    if_elim (Left (length (l ∷ ls))) (is_fence l) _ _ (omega arith) (omega (arith, fenced-le ls))

bullet_items-le : (ls : List Text) → length (bullet_items ls).1 ≤ length ls
unfolding bullet_items
bullet_items-le [] = omega arith
bullet_items-le (l ∷ ls) =
    if_elim (Left (length (l ∷ ls))) (is_bullet l) _ _ (omega (arith, bullet_items-le ls))
      (omega arith)

indented_lines-le : (ls : List Text) → length (indented_lines ls).1 ≤ length ls
unfolding indented_lines
indented_lines-le [] = omega arith
indented_lines-le (l ∷ ls) =
    if_elim (Left (length (l ∷ ls))) (is_indented l || (not (is_truthy l) && first_is_indented ls))
      _ _ (omega (arith, indented_lines-le ls)) (omega arith)

table_rows-le : (ls : List Text) → length (table_rows ls).1 ≤ length ls
unfolding table_rows
table_rows-le [] = omega arith
table_rows-le (l ∷ ls) =
    if_elim (Left (length (l ∷ ls))) (starts_with l (codes "|")) _ _
      (omega (arith, table_rows-le ls)) (omega arith)

-- A turn at a table takes the first line at least.
table_rows-lt :
    (l : Text) (ls : List Text)
    → starts_with l (codes "|") ≡ true
    → length (table_rows (l ∷ ls)).1 ≤ length ls
unfolding table_rows
table_rows-lt l ls h = rw h (table_rows-le ls)

table_of-rest : (r : List (List Text) × List Text) → (table_of r).1 ≡ r.1
table_of-rest ([], rest) = refl
table_of-rest (r ∷ rs, rest) = refl

le_refl : (n : ℕ) → n ≤ n
le_refl n = omega arith

heading_or-Left :
    (block : Text → Block) (o : Option Text) (ls : List Text) (other : List Block × List Text)
    → Left (length ls) other
    → Left (length ls) (heading_or block o ls other)
heading_or-Left block none ls other h = h
heading_or-Left block (some t) ls other h = le_refl _

table-Left :
    (l : Text) (ls : List Text) (other : List Block × List Text)
    → Left (length ls) other
    → Left (length ls) (if starts_with l (codes "|") then table_of (table_rows (l ∷ ls)) else other)
table-Left l ls other h = elim (Bool-cases (starts_with l (codes "|"))) [
  | inl e ↦ rw e (rw table_of-rest (table_rows-lt l ls e))
  | inr e ↦ rw e h
]

other_line-Left : (l : Text) (ls : List Text) → Left (length ls) (other_line l ls)
other_line-Left l ls =
    let P : List Block × List Text → Type 0 = Left (length ls) in
    let same : length ls ≤ length ls = le_refl _ in
    let plain : P (plain_line l ls) = if_elim P (is_truthy (trim l)) _ _ same same in
    if_elim P (is_rule l) _ _ same (
      if_elim P (starts_with l (codes "> ")) _ _ same (
        if_elim P (is_bullet l) _ _ (bullet_items-le ls) (
          table-Left l ls _
            (if_elim P (is_indented l) _ (plain_line l ls) (indented_lines-le ls) plain))))

pub turn-Left : (l : Text) (ls : List Text) → Left (length ls) (turn l ls)
unfolding turn
turn-Left l ls =
    let third = heading_or h3 (heading (codes "### ") l) ls (other_line l ls) in
    let second = heading_or h2 (heading (codes "## ") l) ls third in
    let third_left : Left (length ls) third =
      heading_or-Left h3 (heading (codes "### ") l) ls (other_line l ls) (other_line-Left l ls) in
    let second_left : Left (length ls) second =
      heading_or-Left h2 (heading (codes "## ") l) ls third third_left in
    if_elim (Left (length ls)) (is_fence l) _ _ (fenced-le ls)
      (heading_or-Left h1 (heading (codes "# ") l) ls second second_left)

push_all-some :
    (bs : List Block) (o : Option (List Block)) → is_some o ≡ true → is_some (push_all bs o) ≡ true
push_all-some bs none h = h
push_all-some bs (some r) h = refl

blocks-some : (fuel : ℕ) (ls : List Text) → length ls ≤ fuel → is_some (blocks fuel ls) ≡ true
unfolding blocks
blocks-some zero [] h = refl
blocks-some (suc fuel) [] h = refl
blocks-some zero (l ∷ ls) h = ground arith
blocks-some (suc fuel) (l ∷ ls) h =
    push_all-some (turn l ls).0 _
      (blocks-some fuel (turn l ls).1 (omega (arith, h, turn-Left l ls)))

pub blocks-same :
    (m n : ℕ) (ls : List Text) → length ls ≤ m → length ls ≤ n → blocks m ls ≡ blocks n ls
unfolding blocks
blocks-same zero zero ls hm hn = refl
blocks-same zero (suc n) [] hm hn = refl
blocks-same (suc m) zero [] hm hn = refl
blocks-same (suc m) (suc n) [] hm hn = refl
blocks-same zero (suc n) (l ∷ ls) hm hn = ground arith
blocks-same (suc m) zero (l ∷ ls) hm hn = ground arith
blocks-same (suc m) (suc n) (l ∷ ls) hm hn = ap (push_all (turn l ls).0) (
    blocks-same m n (turn l ls).1 (omega (arith, hm, turn-Left l ls))
      (omega (arith, hn, turn-Left l ls)))

-- More fuel than there are lines changes nothing.
pub blocks-fuel :
    (fuel : ℕ) (ls : List Text) → length ls ≤ fuel → blocks fuel ls ≡ blocks (length ls) ls
blocks-fuel fuel ls h = blocks-same fuel (length ls) ls h (le_refl _)

-- The loop ends: every document has its blocks, after at most one turn for each line.
pub markdown-ends : (content : Text) → is_some (markdown content) ≡ true
unfolding markdown
markdown-ends content = blocks-some _ (split b'\n' content) (le_refl _)
