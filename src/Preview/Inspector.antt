-- ===== src/Preview/Inspector.antt =====
-- frontend/components/ComponentRegistry.tsx: the inspector of a WASM file, which reads a JSON text.
-- Sizes are natural numbers.
pub mod Reports
use isolator_v_wasm_sandbox.Common.{
  Text, codes, decimal, to_fixed_1, ℕ, ◌+◌, ◌*◌, ◌/◌, ◌%◌, ltb, Bool, Option, none, some, List, [],
  ◌∷◌, ◌++◌, if◌then◌else◌, pos, or_else,
}
use isolator_v_wasm_sandbox.Preview.Json.{
  Json, null_value, number, elements, truthy, property, Rendered, shown, throws, ◌>>=◌, ◌>>◌, read,
  as_array, as_child, all_children, has_text,
}

-- `fmt` of a natural number.
unfoldable pub fmt : ℕ → Text
unfolding decimal to_fixed_1
fmt n = if ltb 1024 n then to_fixed_1 n 1024 ++ codes " KB" else decimal n ++ codes " B"

-- The label of a size; `none` stands for the text of another value than a natural number.
abbrev pub size_label : Option Json → Rendered (Option Text)
size_label none = shown none
size_label (some (number (pos n))) = shown (some (fmt n))
size_label (some j) = if has_text j then shown none else throws

pub record SectionView : Type 0 where
  pub id : Option Json
  pub name : Option Json
  pub entries : Option Json
  pub size : Option Text

unfoldable pub section_view : Json → Rendered SectionView
section_view sec = do
  id ← read (codes "id") sec
  id ← as_child id
  name ← read (codes "name") sec
  name ← as_child name
  entries ← read (codes "entries") sec
  entries ← as_child entries
  size ← read (codes "size") sec
  size ← size_label size
  shown (record { id = id; name = name; entries = entries; size = size })

pub record ImportView : Type 0 where
  pub module_name : Option Json
  pub name : Option Json

unfoldable pub import_view : Json → Rendered ImportView
import_view imp = do
  module_name ← read (codes "module") imp
  module_name ← as_child module_name
  name ← read (codes "name") imp
  name ← as_child name
  shown (record { module_name = module_name; name = name })

unfoldable pub section_views : List Json → Rendered (List SectionView)
section_views [] = shown []
section_views (j ∷ js) = do v ← section_view j; vs ← section_views js; shown (v ∷ vs)

unfoldable pub import_views : List Json → Rendered (List ImportView)
import_views [] = shown []
import_views (j ∷ js) = do v ← import_view j; vs ← import_views js; shown (v ∷ vs)

pub record Inspected : Type 0 where
  pub magic : Option Json
  pub sections : List SectionView
  pub exports : List Json
  pub imports : List ImportView

pub data WasmPane : Type 0 where
  raw_pane : (raw label : Text) → WasmPane
  inspected : Inspected → WasmPane

unfoldable pub inspect_info : Json → Rendered Inspected
inspect_info info = do
  sections ← as_array (property (codes "sections") info)
  exports ← as_array (property (codes "exports") info)
  imports ← as_array (property (codes "imports") info)
  magic ← as_child (property (codes "magic") info)
  section_rows ← section_views (elements sections)
  names ← all_children exports
  import_rows ← import_views (elements imports)
  shown (record { magic = magic; sections = section_rows; exports = names; imports = import_rows })

-- `parse` is `JSON.parse`, with `none` where it throws.
unfoldable pub wasm_inspector : (Text → Option Json) → Text → Rendered WasmPane
wasm_inspector parse raw =
    let info = or_else (parse raw) null_value in
    if truthy info
    then inspect_info info >>= (λ i. shown (inspected i))
    else shown (raw_pane raw (codes "WASM (parse error)"))
