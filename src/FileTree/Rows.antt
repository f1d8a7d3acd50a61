-- ===== src/FileTree/Rows.antt =====
-- frontend/components/VirtualFileTree.tsx: the rows that are rendered for a tree.
pub mod Members
pub mod Segments
pub mod Linked
pub mod Placed
pub mod Visible
pub mod Exact
mod Tests
use isolator_v_wasm_sandbox.Common.{
  Text, codes, text_eq, decimal, to_fixed_1, extension, includes, ℕ, zero, suc, ◌+◌, ◌*◌, ltb, Bool,
  true, false, Option, none, some, List, [], ◌∷◌, ◌++◌, length, if◌then◌else◌,
}
use isolator_v_wasm_sandbox.Vfs.{VfsEntry}
use isolator_v_wasm_sandbox.FileTree.{Node, file, dir, Store, children, parts_of, build_tree}

pub data Icon : Type 0 where
  file_code file_text file_image database box plain_file : Icon
  -- A value of `Object.prototype`, which React does not take for a component.
  not_a_component : Icon

abbrev image_names : List Text
image_names = codes "png" ∷ codes "jpg" ∷ codes "jpeg" ∷ codes "gif" ∷ codes "svg" ∷ []

abbrev code_names : List Text
code_names =
    codes "rs"
    ∷ codes "ts"
    ∷ codes "tsx"
    ∷ codes "js"
    ∷ codes "jsx"
    ∷ codes "py"
    ∷ codes "go"
    ∷ codes "c"
    ∷ codes "cpp"
    ∷ codes "h"
    ∷ []

abbrev text_names : List Text
text_names =
    codes "toml"
    ∷ codes "json"
    ∷ codes "yaml"
    ∷ codes "yml"
    ∷ codes "md"
    ∷ codes "txt"
    ∷ codes "log"
    ∷ []

-- `EXT_ICONS[ext] ?? File`; the table is an object, and two names in small letters are its
-- prototype's.
unfoldable pub icon_of : Text → Icon
unfolding includes text_eq
icon_of ext =
    if includes code_names ext
    then file_code
    else if includes text_names ext
    then file_text
    else if includes image_names ext
    then file_image
    else if includes (codes "csv" ∷ codes "sqlite" ∷ codes "db" ∷ []) ext
    then database
    else if text_eq ext (codes "wasm")
    then box
    else if includes (codes "constructor" ∷ codes "__proto__" ∷ []) ext
    then not_a_component
    else plain_file

unfoldable pub format_bytes : ℕ → Text
unfolding decimal to_fixed_1
format_bytes n =
    if ltb n 1024
    then decimal n ++ codes " B"
    else if ltb n (1024 * 1024)
    then to_fixed_1 n 1024 ++ codes " KB"
    else to_fixed_1 n (1024 * 1024) ++ codes " MB"

abbrev size_text : Option ℕ → Option Text
size_text none = none
size_text (some n) = some (format_bytes n)

-- What a row shows; its indentation goes by the depth, and a click hands over the path.
pub data Row : Type 0 where
  file_row :
      (icon : Icon) (name path : Text) (size : Option Text) (ghost selected : Bool) (depth : ℕ)
      → Row
  dir_row : (name path : Text) (expanded : Bool) (depth : ℕ) → Row

abbrev pub is_selected : Option Text → Text → Bool
is_selected none path = false
is_selected (some p) path = text_eq p path

unfoldable pub file_row_of : Option Text → ℕ → Text → Text → Bool → Option ℕ → Row
unfolding extension
file_row_of selected depth name path ghost size =
    file_row (icon_of (extension name)) name path (size_text size) ghost (is_selected selected path)
      depth

module _ (s : Store) (expanded : List Text) (selected : Option Text) where
  -- The rows of one node; `below` gives those of the nodes under a directory's path.
  unfoldable pub node_rows : (Text → List Row) → ℕ → Node → List Row
  node_rows below depth (file name path ghost size) =
      file_row_of selected depth name path ghost size ∷ []
  node_rows below depth (dir name path) =
      dir_row name path (includes expanded path) depth
      ∷ (if includes expanded path then below path else [])

  unfoldable pub all_rows : (Text → List Row) → ℕ → List Node → List Row
  all_rows below depth [] = []
  all_rows below depth (n ∷ ns) = node_rows below depth n ++ all_rows below depth ns

  -- `TreeNodes` on the array under `k`, with the depth of the tree as fuel.
  unfoldable pub tree_nodes : ℕ → ℕ → Text → List Row
  tree_nodes zero depth k = []
  tree_nodes (suc fuel) depth k = all_rows (tree_nodes fuel (suc depth)) depth (children k s)

-- The largest number of parts of a path.
unfoldable pub depth_of : List VfsEntry → ℕ
depth_of [] = 0
depth_of (e ∷ es) =
    if ltb (depth_of es) (length (parts_of e)) then length (parts_of e) else depth_of es

-- What the main component renders for its entries, on the array of the root.
unfoldable pub tree_rows : (Text → Text → Bool) → List VfsEntry → List Text → Option Text → List Row
tree_rows le entries expanded selected =
    tree_nodes (build_tree le entries) expanded selected (depth_of entries) 0 []
