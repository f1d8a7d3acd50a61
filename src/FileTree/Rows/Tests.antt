-- ===== src/FileTree/Rows/Tests.antt =====
-- The rows of frontend/components/VirtualFileTree.tsx at concrete entries.
use isolator_v_wasm_sandbox.Common.{
  Text, text_eq, codes, split, split_from, init, includes, extension, ◌≡◌, ◌↔◌, refl, Bool, true,
  false, none, some, List, [], ◌∷◌,
}
use isolator_v_wasm_sandbox.Vfs.{VfsEntry}
use isolator_v_wasm_sandbox.FileTree.{
  parts_of, build_tree, add_entries, add_entry, descend, enter, has, push, children,
}
use isolator_v_wasm_sandbox.FileTree.Rows.{
  Row, file_row, dir_row, file_text, not_a_component, icon_of, format_bytes, file_row_of, node_rows,
  all_rows, tree_nodes, depth_of, tree_rows,
}
use isolator_v_wasm_sandbox.FileTree.Rows.Members.{Elem}
use isolator_v_wasm_sandbox.FileTree.Rows.Visible.{AllExpanded, row_of}
use isolator_v_wasm_sandbox.FileTree.Rows.Exact.{tree_rows_iff}

abbrev in_order : Text → Text → Bool
in_order a b = true

abbrev two_files : List VfsEntry
two_files =
    record { path = codes "/out/a.txt"; size = some 2048; ghost = none }
    ∷ record { path = codes "b.md"; size = none; ghost = some true }
    ∷ []

abbrev row_of_a : Row
row_of_a =
    file_row file_text (codes "a.txt") (codes "/out/a.txt") (some (codes "2.0 KB")) false false 1

row_of_b : Row
row_of_b = file_row file_text (codes "b.md") (codes "b.md") none true true 0

-- With the directory expanded, its file comes below it.
all_shown :
    tree_rows in_order two_files (codes "/out" ∷ []) (some (codes "b.md"))
    ≡ dir_row (codes "out") (codes "/out") true 0 ∷ row_of_a ∷ row_of_b ∷ []
unfolding tree_rows tree_nodes all_rows node_rows file_row_of icon_of format_bytes extension
    depth_of build_tree add_entries add_entry descend enter has push children parts_of split
    split_from text_eq includes row_of_b
all_shown = refl

-- A file that is called like a property of every object has no icon that React takes.
no_icon : icon_of (codes "constructor") ≡ not_a_component
unfolding icon_of
no_icon = refl

tree_rows_iff_example : Elem row_of_a (tree_rows in_order two_files (codes "/out" ∷ []) none) ↔ (
    (e : VfsEntry) × Elem e two_files
    × (row_of none e ≡ row_of_a)
    × AllExpanded (codes "/out" ∷ []) (init (parts_of e)) [])
tree_rows_iff_example = tree_rows_iff in_order two_files (codes "/out" ∷ []) none row_of_a refl
