-- ===== src/Preview/Inspector/Reports.antt =====
-- frontend/components/ComponentRegistry.tsx: what the inspector shows of a report on a module, and what
-- it gets to see of the files.
use Prim.{Unit}
use isolator_v_wasm_sandbox.Common.{
  Text, codes, text_eq, ℕ, ◌≡◌, refl, true, Option, some, List, [], ◌∷◌, map, pos,
}
use isolator_v_wasm_sandbox.Preview.Json.{
  Json, number, string, object, array, field, end, items_of, is_child, shown, ◌>>=◌,
}
use isolator_v_wasm_sandbox.Preview.Chart.Documents.{elements-items_of, strings_are_children}
use isolator_v_wasm_sandbox.Preview.{Answer, detect_kind, FetchState, is_wasm_kind, View}
use isolator_v_wasm_sandbox.Preview.Inspector.{
  fmt, SectionView, section_view, section_views, ImportView, import_view, import_views, inspected,
  inspect_info, wasm_inspector,
}

pub record Section : Type 0 where
  pub id : ℕ
  pub name : Text
  pub size : ℕ
  pub entries : ℕ

abbrev pub section_json : Section → Json
section_json s = object (
    field (codes "id") (number (pos s.id)) (
      field (codes "name") (string s.name) (
        field (codes "size") (number (pos s.size))
          (field (codes "entries") (number (pos s.entries)) end))))

abbrev pub import_json : Text × Text → Json
import_json (module_name, name) =
    object (field (codes "module") (string module_name) (field (codes "name") (string name) end))

pub record Report : Type 0 where
  pub magic : Text
  pub sections : List Section
  pub exports : List Text
  pub imports : List (Text × Text)

abbrev pub report_json : Report → Json
report_json r = object (
    field (codes "magic") (string r.magic) (
      field (codes "sections") (array (items_of (map section_json r.sections))) (
        field (codes "exports") (array (items_of (map string r.exports)))
          (field (codes "imports") (array (items_of (map import_json r.imports))) end))))

abbrev pub section_row : Section → SectionView
section_row s = record {
  id = some (number (pos s.id));
  name = some (string s.name);
  entries = some (number (pos s.entries));
  size = some (fmt s.size);
}

abbrev pub import_row : Text × Text → ImportView
import_row (module_name, name) = record {
  module_name = some (string module_name);
  name = some (string name);
}

section_view-json : (s : Section) → section_view (section_json s) ≡ shown (section_row s)
unfolding section_view text_eq is_child
section_view-json s = refl

import_view-json : (i : Text × Text) → import_view (import_json i) ≡ shown (import_row i)
unfolding import_view text_eq is_child
import_view-json (module_name, name) = refl

section_views-json :
    (ss : List Section) → section_views (map section_json ss) ≡ shown (map section_row ss)
unfolding section_views
section_views-json [] = refl
section_views-json (s ∷ ss) =
    rw (section_view-json s, ◌>>=◌) (rw (section_views-json ss, ◌>>=◌) refl)

import_views-json :
    (is : List (Text × Text)) → import_views (map import_json is) ≡ shown (map import_row is)
unfolding import_views
import_views-json [] = refl
import_views-json (i ∷ is) = rw (import_view-json i, ◌>>=◌) (rw (import_views-json is, ◌>>=◌) refl)

-- A text that is parsed as a report on a module is shown with its magic number, a row for each
-- section with its id, name, number of entries and the label of its size, each export by its name,
-- and each import by its module and its name, all in the order of the report.
pub wasm_inspector-report :
    (parse : Text → Option Json) (raw : Text) (r : Report)
    → parse raw ≡ some (report_json r)
    → wasm_inspector parse raw
      ≡ shown (
          inspected (record {
            magic = some (string r.magic);
            sections = map section_row r.sections;
            exports = map string r.exports;
            imports = map import_row r.imports;
          }))
unfolding wasm_inspector inspect_info text_eq is_child
wasm_inspector-report parse raw r h = rw h (
    rw (elements-items_of (map section_json r.sections)) (
      rw (section_views-json r.sections, ◌>>=◌)
        (rw (strings_are_children r.exports) (
          rw (elements-items_of (map string r.exports)) (
            rw (elements-items_of (map import_json r.imports))
              (rw (import_views-json r.imports, ◌>>=◌) refl))))))

-- The answer to the load of a WASM file.
abbrev pub IsForWasm : Answer → Type 0
IsForWasm a = is_wasm_kind (detect_kind a.asked) ≡ true

abbrev IsBinary : View → Type 0
IsBinary (View.wasm_inspector raw) = raw ≡ codes "[binary data]"
IsBinary _ = Unit {0}

module _ (encode : Text → Text) where
  -- The states of the fetch in which a WASM file has no other content than that text.
  abbrev IsTextless : FetchState → Type 0
  IsTextless (FetchState.ok content) = content ≡ codes "[binary data]"
  IsTextless _ = Unit {0}
