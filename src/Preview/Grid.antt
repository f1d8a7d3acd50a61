-- ===== src/Preview/Grid.antt =====
-- frontend/components/ComponentRegistry.tsx, `DataGrid`: the rows of a CSV file, sorted by a column
-- and shown page by page.
pub mod Pages
pub mod Order
pub mod View
use isolator_v_wasm_sandbox.Common.{
  Text, split, trim, or_else, ℕ, zero, suc, ◌+◌, ◌-◌, ◌*◌, ◌/◌, ◌≤◌, ◌<◌, min, ◌≡◌, refl, ap, sym,
  ◌∙◌, Bool, true, false, not, ◌&&◌, ◌||◌, ltb, leb, ◌==◌, Option, none, some, List, [], ◌∷◌, ◌++◌,
  map, take, drop, length, sort_by, sort_by-perm, length-append, length-take, length-drop,
  if◌then◌else◌, if_elim, Bool-cases, inl, inr, arith,
}
use mathlib.Core.List.{Perm}
use mathlib.Core.List.Perm

abbrev pub Row : Type 0
Row = List Text

pub record Csv : Type 0 where
  pub headers : Row
  pub rows : List Row

abbrev pub csv_of : List Text → Csv
csv_of [] = record { headers = []; rows = [] }
csv_of (l ∷ ls) = record { headers = split b',' l; rows = map (split b',') ls }

unfoldable pub parse_csv : Text → Csv
unfolding trim split
parse_csv content = csv_of (split b'\n' (trim content))

-- `"asc" | "desc"`, with `null` as `none` around it.
pub data SortDir : Type 0 where
  asc desc : SortDir

pub record Grid : Type 0 where
  pub page : ℕ
  pub sort_col : Option ℕ
  pub sort_dir : Option SortDir

unfoldable pub initial : Grid
initial = record { page = 0; sort_col = none; sort_dir = none }

abbrev pub page_size : ℕ
page_size = 20

-- `a[i] ?? ""`
abbrev pub cell : ℕ → Row → Text
cell i [] = []
cell zero (c ∷ cs) = c
cell (suc i) (c ∷ cs) = cell i cs

-- The order of two cells: `less a b` is that `cmp` is below 0.
abbrev pub row_le : (Text → Text → Bool) → ℕ → SortDir → Row → Row → Bool
row_le less i asc a b = not (less (cell i b) (cell i a))
row_le less i desc a b = not (less (cell i a) (cell i b))

abbrev pub sorted_by : (Text → Text → Bool) → Option ℕ → Option SortDir → List Row → List Row
sorted_by less (some i) (some d) rows = sort_by (row_le less i d) rows
sorted_by less _ _ rows = rows

-- What the comparison of two cells uses: `Number`, where a text that is no number gives NaN, here
-- `none`; `isFinite`; that the difference of two numbers is NaN, as that of two infinite ones may be;
-- that it is below 0; and that `localeCompare` is below 0.
pub record Comparison : Type 1 where
  pub Number : Type 0
  pub to_number : Text → Option Number
  pub is_finite : Number → Bool
  pub nan_minus : Number → Number → Bool
  pub below : Number → Number → Bool
  pub locale_below : Text → Text → Bool

module _ (c : Comparison) where
  open c use {Number, nan_minus, below, locale_below}

  abbrev pub below_of : Option Number → Option Number → Text → Text → Bool
  below_of (some m) (some n) av bv = if nan_minus m n then locale_below av bv else below m n
  below_of _ _ av bv = locale_below av bv

-- That `cmp` is below 0.
abbrev pub cell_less : Comparison → Text → Text → Bool
cell_less c av bv = below_of c (c.to_number av) (c.to_number bv) av bv

-- The rows in the order of a test of two cells.
unfoldable pub sorted : (Text → Text → Bool) → Grid → List Row → List Row
sorted less g rows = sorted_by less g.sort_col g.sort_dir rows

unfoldable pub page_rows : ℕ → List Row → List Row
page_rows page rows = take page_size (drop (page * page_size) rows)

-- `Math.ceil(sorted.length / PAGE_SIZE)`
unfoldable pub page_count : List Row → ℕ
page_count rows = (length rows + 19) / page_size

abbrev pub is_column : ℕ → Option ℕ → Bool
is_column i none = false
is_column i (some j) = i == j

abbrev pub next_dir : Option SortDir → Option SortDir
next_dir none = some asc
next_dir (some asc) = some desc
next_dir (some desc) = none

abbrev pub is_desc : Option SortDir → Bool
is_desc (some desc) = true
is_desc _ = false

unfoldable pub handle_sort : ℕ → Grid → Grid
handle_sort i g =
    if is_column i g.sort_col
    then record g {
      sort_dir = next_dir g.sort_dir;
      sort_col = if is_desc g.sort_dir then none else g.sort_col;
    }
    else record g { sort_col = some i; sort_dir = some asc }

unfoldable pub prev_page : Grid → Grid
prev_page g = record g { page = g.page - 1 }

-- `Math.min(pageCount - 1, p + 1)`, on a button that is there if there are two pages or more, and
-- is enabled on every page before the last.
unfoldable pub next_page : ℕ → Grid → Grid
next_page count g =
    if ltb 1 count && ltb g.page (count - 1)
    then record g { page = min (count - 1) (g.page + 1) }
    else g

pub data Click : Type 0 where
  header : ℕ → Click
  prev next : Click

unfoldable pub click : ℕ → Click → Grid → Grid
click count (header i) g = handle_sort i g
click count prev g = prev_page g
click count next g = next_page count g

unfoldable pub click_all : ℕ → List Click → Grid → Grid
unfolding click
click_all count [] g = g
click_all count (c ∷ cs) g = click_all count cs (click count c g)
