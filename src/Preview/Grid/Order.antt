-- ===== src/Preview/Grid/Order.antt =====
-- frontend/components/ComponentRegistry.tsx, `DataGrid`: tests that sort the rows of the grid.
use Prim.{tt}
use isolator_v_wasm_sandbox.Common.{
  refl, ap, ◌∙◌, All, insert_by, sort_by, if_elim, Text, ℕ, ◌≡◌, Bool, true, false, Option, none,
  some, List, [], ◌∷◌, Ordered, sort_by-Ordered, take-Ordered, drop-Ordered, ◌*◌, arith,
}
use isolator_v_wasm_sandbox.Preview.Grid.{
  Comparison, Row, SortDir, asc, desc, row_le, cell, page_rows,
}

-- A test that sorts: asymmetric, with a transitive negation.
pub record IsOrder {ℓ} {A : Type ℓ} (less : A → A → Bool) : Type ℓ where
  pub asym : (a b : A) → less a b ≡ true → less b a ≡ false
  pub trans : (a b c : A) → less a b ≡ false → less b c ≡ false → less a c ≡ false

-- The numbers where a cell is a number, with texts after them: an order on all cells.
abbrev pub number_less : (c : Comparison) → Option (c.Number) → Option (c.Number) → Bool
number_less c (some m) (some n) = c.below m n
number_less c (some m) none = true
number_less c none o = false

pub number_less-IsOrder : (c : Comparison) → IsOrder (c.below) → IsOrder (number_less c)
number_less-IsOrder c k = record { asym = asym; trans = trans }
  where
    asym : (a b : Option (c.Number)) → number_less c a b ≡ true → number_less c b a ≡ false
    asym (some m) (some n) h = k.asym m n h
    asym (some m) none h = refl
    asym none b h = absurd (cc h)

    trans :
        (a b d : Option (c.Number))
        → number_less c a b ≡ false
        → number_less c b d ≡ false
        → number_less c a d ≡ false
    trans (some m) (some n) (some o) h g = k.trans m n o h g
    trans (some m) (some n) none h g = absurd (cc g)
    trans (some m) none d h g = absurd (cc h)
    trans none b d h g = refl

-- Two tests that agree on the rows of a list sort it in the same way.
abbrev pub Agree : (Row → Row → Bool) → (Row → Row → Bool) → (Row → Type 0) → Type 0
Agree le le' P = (a b : Row) → P a → P b → le a b ≡ le' a b

module _ (le le' : Row → Row → Bool) (P : Row → Type 0) (same : Agree le le' P) where
  insert_by-All : (x : Row) (xs : List Row) → P x → All P xs → All P (insert_by le x xs)
  insert_by-All x [] p h = (p, tt)
  insert_by-All x (y ∷ ys) p (q, h) =
      if_elim (All P) (le x y) (x ∷ y ∷ ys) (y ∷ insert_by le x ys) (p, (q, h))
        (q, insert_by-All x ys p h)

  sort_by-All : (xs : List Row) → All P xs → All P (sort_by le xs)
  sort_by-All [] h = tt
  sort_by-All (x ∷ xs) (p, h) = insert_by-All x (sort_by le xs) p (sort_by-All xs h)

  insert_by-same :
      (x : Row) (xs : List Row) → P x → All P xs → insert_by le x xs ≡ insert_by le' x xs
  insert_by-same x [] p h = refl
  insert_by-same x (y ∷ ys) p (q, h) = rw (same x y p q, insert_by-same x ys p h) refl

  pub sort_by-same : (xs : List Row) → All P xs → sort_by le xs ≡ sort_by le' xs
  sort_by-same [] h = refl
  sort_by-same (x ∷ xs) (p, h) =
      insert_by-same x (sort_by le xs) p (sort_by-All xs h)
      ∙ ap (insert_by le' x) (sort_by-same xs h)

module _ (less : Text → Text → Bool) (k : IsOrder less) where
  row_le_total :
      (i : ℕ) (d : SortDir) (a b : Row) → row_le less i d a b ≡ false → row_le less i d b a ≡ true
  row_le_total i asc a b h = ground (arith, k.asym (cell i b) (cell i a))
  row_le_total i desc a b h = ground (arith, k.asym (cell i a) (cell i b))

  row_le_trans :
      (i : ℕ) (d : SortDir) (a b c : Row)
      → row_le less i d a b ≡ true
      → row_le less i d b c ≡ true
      → row_le less i d a c ≡ true
  row_le_trans i asc a b c h g = ground (arith, k.trans (cell i c) (cell i b) (cell i a))
  row_le_trans i desc a b c h g = ground (arith, k.trans (cell i a) (cell i b) (cell i c))

  pub page-Ordered :
      (i page : ℕ) (d : SortDir) (rows : List Row)
      → Ordered (row_le less i d) (page_rows page (sort_by (row_le less i d) rows))
  unfolding page_rows
  page-Ordered i page d rows =
      let le = row_le less i d in
      take-Ordered le 20 _ (
        drop-Ordered le (page * 20) _
          (sort_by-Ordered le (row_le_total i d) (row_le_trans i d) rows))
