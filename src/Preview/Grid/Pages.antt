-- ===== src/Preview/Grid/Pages.antt =====
-- frontend/components/ComponentRegistry.tsx, `DataGrid`: the pages, the buttons between them, and
-- the headers.
use isolator_v_wasm_sandbox.Common.{
  Text, ℕ, zero, suc, ◌+◌, ◌*◌, ◌≤◌, ◌<◌, ◌≡◌, refl, ap, sym, ◌∙◌, Bool, true, false, ◌==◌, ◌⊎◌,
  Option, none, some, List, [], ◌∷◌, ◌++◌, take, drop, length, sort_by-perm, if_elim, arith,
}
use isolator_v_wasm_sandbox.Preview.Grid.{
  Row, Grid, SortDir, asc, desc, sorted, sorted_by, page_size, page_rows, page_count, row_le,
  is_column, handle_sort, prev_page, next_page, Click, header, prev, next, click, click_all,
}
use mathlib.Core.List.{Perm}
use mathlib.Core.List.Perm

take_nil : (n : ℕ) → take {A = Row} n [] ≡ []
take_nil zero = refl
take_nil (suc n) = refl

zero_plus : (n : ℕ) → 0 + n ≡ n
zero_plus n = omega arith

suc_plus : (m n : ℕ) → suc m + n ≡ suc (m + n)
suc_plus m n = omega arith

zero_times : 0 ≡ 0 * page_size
zero_times = omega arith

next_page_lem : (n : ℕ) → n * page_size + page_size ≡ suc n * page_size
next_page_lem n = omega arith

take_add : (m n : ℕ) (xs : List Row) → take (m + n) xs ≡ take m xs ++ take n (drop m xs)
take_add zero n xs = ap (λ k. take k xs) (zero_plus n)
take_add (suc m) n [] = take_nil (suc m + n) ∙ sym (take_nil n)
take_add (suc m) n (x ∷ xs) =
    ap (λ k. take k (x ∷ xs)) (suc_plus m n) ∙ ap (◌∷◌ x) (take_add m n xs)

take_all : (n : ℕ) (xs : List Row) → length xs ≤ n → take n xs ≡ xs
take_all zero [] h = refl
take_all zero (x ∷ xs) h = ground arith
take_all (suc n) [] h = refl
take_all (suc n) (x ∷ xs) h = ap (◌∷◌ x) (take_all n xs (omega arith))

-- The pages before page n, one after the other.
abbrev pub pages_before : ℕ → List Row → List Row
pages_before zero rows = []
pages_before (suc n) rows = pages_before n rows ++ page_rows n rows

pages_before_lem : (n : ℕ) (rows : List Row) → pages_before n rows ≡ take (n * page_size) rows
unfolding page_rows
pages_before_lem zero rows = ap (λ k. take k rows) zero_times
pages_before_lem (suc n) rows =
    ap (λ t. t ++ page_rows n rows) (pages_before_lem n rows)
    ∙ sym (take_add (n * page_size) page_size rows)
    ∙ ap (λ k. take k rows) (next_page_lem n)

page_count_enough : (rows : List Row) → length rows ≤ page_count rows * page_size
unfolding page_count
page_count_enough rows = omega arith

sorted-perm :
    (less : Text → Text → Bool) (col : Option ℕ) (dir : Option SortDir) (rows : List Row)
    → Perm (sorted_by less col dir rows) rows
sorted-perm less none dir rows = Perm.refl _
sorted-perm less (some i) none rows = Perm.refl _
sorted-perm less (some i) (some d) rows = sort_by-perm (row_le less i d) rows

-- Whatever the sorting, the pages one after the other hold each row of the file exactly as often as
-- the file does.
pub pages_before-perm :
    (less : Text → Text → Bool) (g : Grid) (rows : List Row)
    → Perm (pages_before (page_count (sorted less g rows)) (sorted less g rows)) rows
unfolding sorted
pages_before-perm less g rows =
    let s = sorted_by less g.sort_col g.sort_dir rows in
    rw pages_before_lem (
      rw (take_all (page_count s * page_size) s (page_count_enough s))
        (sorted-perm less g.sort_col g.sort_dir rows))

-- The page that is shown is one of the pages, or the first if there is none.
abbrev pub InPages : ℕ → Grid → Type 0
InPages count g = (g.page < count) ⊎ (g.page ≡ 0)

click-InPages :
    (count : ℕ) (c : Click) (g : Grid) → InPages count g → InPages count (click count c g)
unfolding click handle_sort prev_page next_page
click-InPages count (header i) g h = if_elim (InPages count) (is_column i g.sort_col) _ _ h h
click-InPages count prev g h = ground arith
click-InPages count next g h = ground arith

-- From one of the pages, or the first if there is none, no sequence of clicks leaves them.
pub click_all-InPages :
    (count : ℕ) (cs : List Click) (g : Grid)
    → InPages count g
    → InPages count (click_all count cs g)
unfolding click_all
click_all-InPages count [] g h = h
click_all-InPages count (c ∷ cs) g h = click_all-InPages count cs _ (click-InPages count c g h)

same : (i : ℕ) → (i == i) ≡ true
same i = ground arith

abbrev sorting : ℕ → Option ℕ → Option SortDir → Grid
sorting page col dir = record { page = page; sort_col = col; sort_dir = dir }

first_click :
    (i : ℕ) (g : Grid)
    → is_column i g.sort_col ≡ false
    → handle_sort i g ≡ sorting g.page (some i) (some asc)
unfolding handle_sort
first_click i g h = rw h refl

second_click :
    (i page : ℕ)
    → handle_sort i (sorting page (some i) (some asc)) ≡ sorting page (some i) (some desc)
unfolding handle_sort
second_click i page = rw (same i) refl

third_click :
    (i page : ℕ) → handle_sort i (sorting page (some i) (some desc)) ≡ sorting page none none
unfolding handle_sort
third_click i page = rw (same i) refl

-- Three clicks on the header of a column that the rows are not sorted by sort them in ascending
-- order, then in descending order, and then show them in the order of the file again.
pub click_all-header :
    (less : Text → Text → Bool) (count i : ℕ) (g : Grid) (rows : List Row)
    → is_column i g.sort_col ≡ false
    → (sorted less (click_all count (header i ∷ []) g) rows
        ≡ sorted_by less (some i) (some asc) rows)
      × (sorted less (click_all count (header i ∷ header i ∷ []) g) rows
          ≡ sorted_by less (some i) (some desc) rows)
      × (sorted less (click_all count (header i ∷ header i ∷ header i ∷ []) g) rows ≡ rows)
unfolding click_all click sorted
click_all-header less count i g rows h =
    rw (first_click i g h)
      (rw (second_click i g.page) (rw (third_click i g.page) (refl, refl, refl)))
