-- ===== src/Preview/Grid/View.antt =====
-- frontend/components/ComponentRegistry.tsx, `DataGrid`: what the grid renders, and that its arrows tell
-- the order of the rows.
use mathlib.Core.Path.{subst}
use Prim.{tt}
use isolator_v_wasm_sandbox.Common.{
  sym, ◌⊎◌, refl, ap, All, is_some, sort_by, Text, codes, decimal, ℕ, suc, ◌+◌, ◌-◌, ◌≡◌, Bool,
  true, false, not, ltb, leb, ◌==◌, Option, none, some, List, [], ◌∷◌, ◌++◌, length, Ordered,
  if◌then◌else◌, Bool-cases, inl, inr, arith,
}
use isolator_v_wasm_sandbox.Preview.Grid.{
  Comparison, cell_less, below_of, Row, Grid, SortDir, asc, desc, parse_csv, sorted, sorted_by,
  row_le, cell, page_rows, page_count, is_column,
}
use isolator_v_wasm_sandbox.Preview.Grid.Order.{
  IsOrder, number_less, number_less-IsOrder, sort_by-same, page-Ordered,
}

-- `SortIcon`
pub data SortIcon : Type 0 where
  arrow_up_down arrow_up arrow_down : SortIcon

abbrev pub dir_icon : Option SortDir → SortIcon
dir_icon none = arrow_up_down
dir_icon (some asc) = arrow_up
dir_icon (some desc) = arrow_down

unfoldable pub sort_icon : Grid → ℕ → SortIcon
sort_icon g i = if is_column i g.sort_col then dir_icon g.sort_dir else arrow_up_down

-- The buttons under the table: whether each is disabled.
pub record Pager : Type 0 where
  pub prev_disabled : Bool
  pub next_disabled : Bool

pub record View : Type 0 where
  pub title : Text
  pub page_text : Text
  pub heads : List (Text × SortIcon)
  pub body : List Row
  pub pager : Option Pager

abbrev pub heads_from : Grid → ℕ → Row → List (Text × SortIcon)
heads_from g i [] = []
heads_from g i (h ∷ hs) = (h, sort_icon g i) ∷ heads_from g (suc i) hs

unfoldable pub data_grid : Comparison → Text → Grid → View
unfolding sort_icon
data_grid c content g =
    let csv = parse_csv content in
    let rows = sorted (cell_less c) g csv.rows in
    let count = page_count rows in
    record {
      title =
          codes "CSV — "
          ++ decimal (length csv.rows)
          ++ codes " rows × "
          ++ decimal (length csv.headers)
          ++ codes " cols";
      page_text = codes "page " ++ decimal (g.page + 1) ++ codes " / " ++ decimal count;
      heads = heads_from g 0 csv.headers;
      body = page_rows g.page rows;
      pager =
          if ltb 1 count
          then some (record { prev_disabled = g.page == 0; next_disabled = leb (count - 1) g.page })
          else none;
    }

-- No cell is below that of a row before it; and the other way.
abbrev pub Ascends : (Text → Text → Bool) → ℕ → List Row → Type 0
Ascends less i = Ordered (λ a b. not (less (cell i b) (cell i a)))

abbrev pub Descends : (Text → Text → Bool) → ℕ → List Row → Type 0
Descends less i = Ordered (λ a b. not (less (cell i a) (cell i b)))

-- What an arrow on the head of the i-th column tells of the rows.
abbrev pub Tells : (Text → Text → Bool) → ℕ → SortIcon → List Row → Type 0
Tells less i arrow_up_down rows = Unit
Tells less i arrow_up rows = Ascends less i rows
Tells less i arrow_down rows = Descends less i rows

abbrev pub finite_of : (c : Comparison) → Option (c.Number) → Bool
finite_of c none = false
finite_of c (some n) = c.is_finite n

abbrev pub AreNumbers : Comparison → ℕ → List Row → Type 0
AreNumbers c i = All (λ r. finite_of c (c.to_number (cell i r)) ≡ true)

abbrev pub AreTexts : Comparison → ℕ → List Row → Type 0
AreTexts c i = All (λ r. is_some (c.to_number (cell i r)) ≡ false)

-- The laws of the parts of the comparison: numbers and texts are in order, and the difference of two
-- finite numbers is a number.
pub record IsLawful (c : Comparison) : Type 0 where
  pub numbers : IsOrder (c.below)
  pub texts : IsOrder (c.locale_below)
  pub finite :
      (m n : c.Number) → c.is_finite m ≡ true → c.is_finite n ≡ true → c.nan_minus m n ≡ false

module _ (c : Comparison) (laws : IsLawful c) where
  finite_same :
      (o p : Option (c.Number)) (av bv : Text)
      → finite_of c o ≡ true
      → finite_of c p ≡ true
      → below_of c o p av bv ≡ number_less c o p
  finite_same none p av bv h g = absurd (cc h)
  finite_same (some m) none av bv h g = absurd (cc g)
  finite_same (some m) (some n) av bv h g = rw (laws.finite m n h g) refl

  texts_same :
      (o p : Option (c.Number)) (av bv : Text)
      → is_some o ≡ false
      → below_of c o p av bv ≡ c.locale_below av bv
  texts_same none p av bv h = refl
  texts_same (some m) p av bv h = absurd (cc h)

  -- The order of the cells of a column whose cells are all finite numbers, or all no numbers.
  abbrev pub order_of :
      (i : ℕ) (rows : List Row) → AreNumbers c i rows ⊎ AreTexts c i rows → Text → Text → Bool
  order_of i rows (inl h) a b = number_less c (c.to_number a) (c.to_number b)
  order_of i rows (inr h) a b = c.locale_below a b

  order_of-IsOrder :
      (i : ℕ) (rows : List Row) (u : AreNumbers c i rows ⊎ AreTexts c i rows)
      → IsOrder (order_of i rows u)
  order_of-IsOrder i rows (inl h) =
      let k = number_less-IsOrder c laws.numbers in
      record {
        asym = λ a b. k.asym (c.to_number a) (c.to_number b);
        trans = λ a b d. k.trans (c.to_number a) (c.to_number b) (c.to_number d);
      }
  order_of-IsOrder i rows (inr h) = laws.texts

  sorted_same :
      (i : ℕ) (d : SortDir) (rows : List Row) (u : AreNumbers c i rows ⊎ AreTexts c i rows)
      → sort_by (row_le (cell_less c) i d) rows ≡ sort_by (row_le (order_of i rows u) i d) rows
  sorted_same i asc rows (inl h) =
      sort_by-same _ _ (λ r. finite_of c (c.to_number (cell i r)) ≡ true)
        (λ a b p q. ap not (finite_same _ _ (cell i b) (cell i a) q p)) rows h
  sorted_same i desc rows (inl h) =
      sort_by-same _ _ (λ r. finite_of c (c.to_number (cell i r)) ≡ true)
        (λ a b p q. ap not (finite_same _ _ (cell i a) (cell i b) p q)) rows h
  sorted_same i asc rows (inr h) =
      sort_by-same _ _ (λ r. is_some (c.to_number (cell i r)) ≡ false)
        (λ a b p q. ap not (texts_same _ _ (cell i b) (cell i a) q)) rows h
  sorted_same i desc rows (inr h) =
      sort_by-same _ _ (λ r. is_some (c.to_number (cell i r)) ≡ false)
        (λ a b p q. ap not (texts_same _ _ (cell i a) (cell i b) p)) rows h

module _ (c : Comparison) (laws : IsLawful c) where
  page-Tells :
      (i page : ℕ) (d : SortDir) (rows : List Row) (u : AreNumbers c i rows ⊎ AreTexts c i rows)
      → Ordered
          (row_le (order_of c laws i rows u) i d)
          (page_rows page (sort_by (row_le (cell_less c) i d) rows))
  page-Tells i page d rows u =
      subst (λ (xs : List Row). Ordered (row_le (order_of c laws i rows u) i d) (page_rows page xs))
        (sym (sorted_same c laws i d rows u))
        (page-Ordered (order_of c laws i rows u) (order_of-IsOrder c laws i rows u) i page d rows)

  tells :
      (i page : ℕ) (col : Option ℕ) (dir : Option SortDir) (rows : List Row)
      (u : AreNumbers c i rows ⊎ AreTexts c i rows)
      → Tells
          (order_of c laws i rows u)
          i
          (if is_column i col then dir_icon dir else arrow_up_down)
          (page_rows page (sorted_by (cell_less c) col dir rows))
  tells i page none dir rows u = tt
  tells i page (some j) none rows u = ground arith
  tells i page (some j) (some asc) rows u = elim (Bool-cases (i == j)) [
    | inl h ↦
        let same : i ≡ j = ground (arith, h) in
        rw h (
          subst
            (λ k.
              Ordered (row_le (order_of c laws i rows u) i asc)
                (page_rows page (sort_by (row_le (cell_less c) k asc) rows)))
            same (page-Tells i page asc rows u))
    | inr h ↦ rw h tt
  ]
  tells i page (some j) (some desc) rows u = elim (Bool-cases (i == j)) [
    | inl h ↦
        let same : i ≡ j = ground (arith, h) in
        rw h (
          subst
            (λ k.
              Ordered (row_le (order_of c laws i rows u) i desc)
                (page_rows page (sort_by (row_le (cell_less c) k desc) rows)))
            same (page-Tells i page desc rows u))
    | inr h ↦ rw h tt
  ]

  -- Where numbers and texts are in order, and the difference of finite numbers is a number: whatever
  -- file is shown, and whatever has been clicked, for a column whose cells are all finite numbers, or
  -- none of them is a number, an arrow up on its head tells that the rows of the page ascend by the
  -- numbers, or by the texts, of that column, each one and all that follow it, and an arrow down that
  -- they descend.
  pub data_grid-Tells :
      (content : Text) (g : Grid) (i : ℕ)
      (u : AreNumbers c i (parse_csv content).rows ⊎ AreTexts c i (parse_csv content).rows)
      → Tells
          (order_of c laws i (parse_csv content).rows u)
          i
          (sort_icon g i)
          (data_grid c content g).body
  unfolding data_grid sort_icon sorted
  data_grid-Tells content g i u = tells i g.page g.sort_col g.sort_dir (parse_csv content).rows u
