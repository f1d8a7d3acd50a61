-- ===== src/Preview/Tests.antt =====
-- The theorems on frontend/components/ComponentRegistry.tsx at concrete files.
use Prim.{tt}
use mathlib.Core.List.{Perm}
use Prim.{tt}
use isolator_v_wasm_sandbox.Preview.Grid.{Comparison}
use isolator_v_wasm_sandbox.Preview.Grid.View.{IsLawful, AreNumbers, order_of}
use isolator_v_wasm_sandbox.Common.{
  ℕ, ◌*◌, ◌-◌, ◌+◌, leb, ◌&&◌, if◌then◌else◌, inl, Option, false, ltb, trim, decimal, Text, text_eq,
  includes, extension, split, split_from, to_lower_case, to_lower_unit, codes, ◌≡◌, refl, Bool,
  true, false, none, some, is_some, List, [], ◌∷◌, length, pos, arith,
}
use isolator_v_wasm_sandbox.Vfs.{lookup}
use isolator_v_wasm_sandbox.Console.{Console, complete, terminal, hello, demo, Decoder}
use isolator_v_wasm_sandbox.Preview.{Answer, body, Props, needs_fetch, detect_kind, kind_of}
use isolator_v_wasm_sandbox.Preview.Inline.{shown, expected, shown-inline}
use isolator_v_wasm_sandbox.Preview.Grid.{Row, parse_csv, Grid, asc, sorted, page_count}
use isolator_v_wasm_sandbox.Preview.Grid.Pages.{pages_before, pages_before-perm}
use isolator_v_wasm_sandbox.Preview.Grid.View.{Tells, sort_icon, data_grid, data_grid-Tells}
use isolator_v_wasm_sandbox.Preview.Markdown.{Block, h1, quote, rule, bullets, markdown}
use isolator_v_wasm_sandbox.Preview.Markdown.Fuel.{markdown-ends}

abbrev decode_hi : Decoder
decode_hi b64 = some (codes "hi")

abbrev as_is : Text → Text
as_is s = s

abbrev finished : Console
finished = record {
  sandbox_state = complete;
  session_id = some (codes "sess_1");
  active_tab = terminal;
  preview_file = none;
  help_open = false;
  show_vitals = true;
  selected_demo = hello;
  input_mode = demo;
  custom_wasm_b64 = none;
  inline_vfs_entries = [];
  inline_vfs_snapshot = (codes "/favicon.ico", codes "aGk=") ∷ [];
  inline_file_content = none;
  inline_file_b64 = none;
  last_exit_code = pos 0;
}

favicon_there : lookup finished.inline_vfs_snapshot (codes "/favicon.ico") ≡ some (codes "aGk=")
unfolding lookup text_eq
favicon_there = refl

abbrev earlier_file : List Answer
earlier_file = record { asked = codes "/notes.txt"; reply = body (codes "x") } ∷ []

shown-inline_example :
    shown as_is decode_hi earlier_file (codes "/favicon.ico") finished
    ≡ expected as_is earlier_file (codes "/favicon.ico") (codes "aGk=") (codes "hi")
shown-inline_example =
    shown-inline as_is decode_hi earlier_file (codes "/favicon.ico") (codes "aGk=") (codes "hi")
      finished favicon_there refl refl

abbrev two_rows : List Row
two_rows = (codes "b" ∷ codes "2" ∷ []) ∷ (codes "a" ∷ codes "1" ∷ []) ∷ []

abbrev by_length : Text → Text → Bool
by_length a b = ltb (length a) (length b)

abbrev ascending : Grid
ascending = record { page = 0; sort_col = some 0; sort_dir = some asc }

pages_before-perm_example :
    Perm
      (pages_before
        (page_count (sorted by_length ascending two_rows))
        (sorted by_length ascending two_rows))
      two_rows
pages_before-perm_example = pages_before-perm by_length ascending two_rows

abbrev one_column : Text
one_column = codes "head\n10\n9"

-- Texts of decimal digits as numbers, and texts by their length.
abbrev value_of : ℕ → Text → Option ℕ
value_of n [] = some n
value_of n (c ∷ cs) =
    let rest = value_of (n * 10 + (c - 48)) cs in if leb 48 c && leb c 57 then rest else none

abbrev by_digits : Comparison
by_digits = record {
  Number = ℕ;
  to_number = λ t. value_of 0 t;
  is_finite = λ n. true;
  nan_minus = λ m n. false;
  below = λ m n. ltb m n;
  locale_below = by_length;
}

by_digits-IsLawful : IsLawful by_digits
by_digits-IsLawful = record {
  numbers = record { asym = λ a b h. ground arith; trans = λ a b c h k. ground arith };
  texts = record { asym = λ a b h. ground arith; trans = λ a b c h k. ground arith };
  finite = λ m n h k. refl;
}

has_numbers : AreNumbers by_digits 0 (parse_csv one_column).rows
unfolding parse_csv split split_from trim
has_numbers = (refl, (refl, tt))

data_grid-Tells_example :
    Tells
      (order_of by_digits by_digits-IsLawful 0 (parse_csv one_column).rows (inl has_numbers))
      0
      (sort_icon ascending 0)
      (data_grid by_digits one_column ascending).body
data_grid-Tells_example =
    data_grid-Tells by_digits by_digits-IsLawful one_column ascending 0 (inl has_numbers)

title_of_column : (data_grid by_digits one_column ascending).title ≡ codes "CSV — 2 rows × 1 cols"
unfolding data_grid parse_csv split split_from trim decimal
title_of_column = refl

abbrev document : List Block
document = h1 (codes "Title") ∷ bullets (codes "a" ∷ codes "b" ∷ []) ∷ quote [] ∷ rule ∷ []

markdown-ends_example : is_some (markdown (codes "# Title")) ≡ true
markdown-ends_example = markdown-ends (codes "# Title")

abbrev wasm_props : Props
wasm_props = record {
  file_path = codes "/workspace/a.wasm";
  session_id = some (codes "sess_1");
  inline_content = none;
  inline_b64 = none;
}

wasm_props-needs_fetch : needs_fetch wasm_props ≡ true
unfolding needs_fetch detect_kind kind_of extension split split_from to_lower_case to_lower_unit
    includes text_eq
wasm_props-needs_fetch = refl
