-- ===== src/FileTree/Rows/Exact.antt =====
-- frontend/components/VirtualFileTree.tsx: the entries that have a row.
use Prim.{tt}
use mathlib.Core.Path.{subst}
use isolator_v_wasm_sandbox.Common.{
  Text, text_eq, text_eq_iff, init, includes, ℕ, zero, suc, ◌≡◌, inl, inr, ◌↔◌, refl, sym, ap, ◌∙◌,
  Bool, true, false, Option, List, [], ◌∷◌, ◌++◌, map, filter, length, length-append, sort_by,
  if◌then◌else◌, if_elim, Bool-cases, All, arith,
}
use isolator_v_wasm_sandbox.Vfs.{VfsEntry}
use isolator_v_wasm_sandbox.FileTree.{
  Node, file, dir, Store, has, children, join, cumulative, parts_of, parent_key, file_node,
  empty_root, build_tree,
}
use isolator_v_wasm_sandbox.FileTree.Files.{is_file, files_at, files_at-add_entries}
use isolator_v_wasm_sandbox.FileTree.Rows.{
  Row, file_row, dir_row, file_row_of, node_rows, all_rows, tree_nodes, tree_rows, depth_of,
}
use isolator_v_wasm_sandbox.FileTree.Rows.Members.{
  Elem, Elem-append, Elem-filter, of_map, of_filter, of_sort_by,
}
use isolator_v_wasm_sandbox.FileTree.Rows.Segments.{slash_free, segments_free, cumulative_injective}
use isolator_v_wasm_sandbox.FileTree.Rows.Visible.{AllExpanded, row_of, tree_rows-Elem}
use isolator_v_wasm_sandbox.FileTree.Rows.Placed.{
  IsPlaced, add_entries-IsPlaced, empty_root-IsPlaced,
}

abbrev pub is_file_row : Row → Bool
is_file_row (file_row icon name path size ghost selected depth) = true
is_file_row (dir_row name path expanded depth) = false

-- One step further down.
cumulative-snoc :
    (gs : List Text) (g p : Text) → cumulative (gs ++ g ∷ []) p ≡ join (cumulative gs p) g
cumulative-snoc [] g p = refl
cumulative-snoc (h ∷ gs) g p = cumulative-snoc gs g (join p h)

AllExpanded-snoc :
    (expanded gs : List Text) (g p : Text)
    → AllExpanded expanded gs p
    → includes expanded (join (cumulative gs p) g) ≡ true
    → AllExpanded expanded (gs ++ g ∷ []) p
AllExpanded-snoc expanded [] g p all h = (h, tt)
AllExpanded-snoc expanded (x ∷ gs) g p all h =
    (all.0, AllExpanded-snoc expanded gs g (join p x) all.1 h)

-- The entry that a file node stands for.
abbrev FromEntry : List VfsEntry → Text → Node → Type 0
FromEntry es k n = (e : VfsEntry) × Elem e es × (file_node e ≡ n) × (parent_key e ≡ k)

root_files : (k : Text) → files_at k empty_root ≡ []
unfolding children
root_files k = if_elim (λ l. filter is_file l ≡ []) (text_eq [] k) [] [] refl refl

file-FromEntry :
    (le : Text → Text → Bool) (es : List VfsEntry) (k : Text) (n : Node)
    → Elem n (children k (build_tree le es))
    → is_file n ≡ true
    → FromEntry es k n
unfolding build_tree has text_eq
file-FromEntry le es k n h f =
    let by_path = λ (a b : VfsEntry). le a.path b.path in
    let sorted = sort_by by_path es in
    let files : files_at k (build_tree le es)
        ≡ map file_node (filter (λ e. text_eq (parent_key e) k) sorted) =
      files_at-add_entries k sorted empty_root refl ∙ rw (root_files k) refl in
    let (e, m, same) =
      of_map file_node n (filter (λ e. text_eq (parent_key e) k) sorted)
        (subst (Elem n) files (Elem-filter is_file n (children k (build_tree le es)) h f)) in
    let kept = of_filter (λ (e : VfsEntry). text_eq (parent_key e) k) e sorted m in
    (e, of_sort_by by_path e es kept.0, same, (text_eq_iff (parent_key e) k).0 kept.1)

-- The row of an entry that may be seen.
abbrev Origin : List VfsEntry → List Text → Option Text → Row → Type 0
Origin es expanded selected r =
    (e : VfsEntry) × Elem e es
    × (row_of selected e ≡ r)
    × AllExpanded expanded (init (parts_of e)) []

node_row : Option Text → ℕ → Node → Row
node_row selected depth (file name path ghost size) =
    file_row_of selected depth name path ghost size
node_row selected depth (dir name path) = dir_row name path false depth

file-Origin :
    (es : List VfsEntry) (expanded : List Text) (selected : Option Text) (gs : List Text)
    (name path : Text) (ghost : Bool) (size : Option ℕ)
    → All (λ g. slash_free g ≡ true) gs
    → AllExpanded expanded gs []
    → FromEntry es (cumulative gs []) (file name path ghost size)
    → Origin es expanded selected (file_row_of selected (length gs) name path ghost size)
unfolding node_row
file-Origin es expanded selected gs name path ghost size free opened (e, m, same, key) =
    let way : init (parts_of e) ≡ gs =
      cumulative_injective (init (parts_of e)) gs (segments_free e) free key in
    (
      e,
      m,
      ap (λ (l : List Text). node_row selected (length l) (file_node e)) way
          ∙ ap (node_row selected (length gs)) same,
      subst (λ l. AllExpanded expanded l []) (sym way) opened,
    )

All-snoc :
    (gs : List Text) (g : Text)
    → All (λ x. slash_free x ≡ true) gs
    → slash_free g ≡ true
    → All (λ x. slash_free x ≡ true) (gs ++ g ∷ [])
All-snoc [] g all h = (h, tt)
All-snoc (x ∷ gs) g all h = (all.0, All-snoc gs g all.1 h)

is_file_row-file :
    (selected : Option Text) (depth : ℕ) (name path : Text) (ghost : Bool) (size : Option ℕ)
    → is_file_row (file_row_of selected depth name path ghost size) ≡ true
unfolding file_row_of
is_file_row-file selected depth name path ghost size = refl

module _ (s : Store) (es : List VfsEntry) (expanded : List Text) (selected : Option Text)
    (placed : IsPlaced s)
    (own : (k : Text) (n : Node)
      → Elem n (children k s)
      → is_file n ≡ true
      → FromEntry es k n) where
  node-Origin :
      (below : Text → List Row) (gs : List Text) (n : Node) (r : Row)
      → All (λ g. slash_free g ≡ true) gs
      → AllExpanded expanded gs []
      → Elem n (children (cumulative gs []) s)
      → ((g : Text)
          → All (λ x. slash_free x ≡ true) (gs ++ g ∷ [])
          → AllExpanded expanded (gs ++ g ∷ []) []
          → Elem r (below (cumulative (gs ++ g ∷ []) []))
          → Origin es expanded selected r)
      → is_file_row r ≡ true
      → Elem r (node_rows s expanded selected below (length gs) n)
      → Origin es expanded selected r
  unfolding node_rows
  node-Origin below gs (file name path ghost size) r free opened there deeper f (inl same) =
      subst (Origin es expanded selected) same (
        file-Origin es expanded selected gs name path ghost size free opened
          (own (cumulative gs []) (file name path ghost size) there refl))
  node-Origin below gs (file name path ghost size) r free opened there deeper f (inr h) = absurd h
  node-Origin below gs (dir name path) r free opened there deeper f (inl same) =
      cc (f, ap is_file_row same)
  node-Origin below gs (dir name path) r free opened there deeper f (inr h) =
      let here = placed (cumulative gs []) (dir name path) there in
      let next : cumulative (gs ++ name ∷ []) [] ≡ path = cumulative-snoc gs name [] ∙ sym here.0 in
      elim (Bool-cases (includes expanded path)) [
        | inl e ↦
            let below_it : Elem r (below path) =
              subst (λ b. Elem r (if b then below path else [])) e h in
            deeper name (All-snoc gs name free here.1)
              (AllExpanded-snoc expanded gs name [] opened (rw (sym here.0) e))
              (subst (λ k. Elem r (below k)) (sym next) below_it)
        | inr e ↦ absurd (subst (λ b. Elem r (if b then below path else [])) e h)
      ]

  all_rows-Origin :
      (below : Text → List Row) (gs : List Text) (ns : List Node) (r : Row)
      → All (λ g. slash_free g ≡ true) gs
      → AllExpanded expanded gs []
      → ((n : Node) → Elem n ns → Elem n (children (cumulative gs []) s))
      → ((g : Text)
          → All (λ x. slash_free x ≡ true) (gs ++ g ∷ [])
          → AllExpanded expanded (gs ++ g ∷ []) []
          → Elem r (below (cumulative (gs ++ g ∷ []) []))
          → Origin es expanded selected r)
      → is_file_row r ≡ true
      → Elem r (all_rows s expanded selected below (length gs) ns)
      → Origin es expanded selected r
  unfolding all_rows
  all_rows-Origin below gs [] r free opened there deeper f h = absurd h
  all_rows-Origin below gs (n ∷ ns) r free opened there deeper f h =
      elim (Elem-append r (node_rows s expanded selected below (length gs) n) _ h) [
        | inl k ↦ node-Origin below gs n r free opened (there n (inl refl)) deeper f k
        | inr k ↦ all_rows-Origin below gs ns r free opened (λ m j. there m (inr j)) deeper f k
      ]

  tree_nodes-Origin :
      (fuel : ℕ) (gs : List Text) (r : Row)
      → All (λ g. slash_free g ≡ true) gs
      → AllExpanded expanded gs []
      → is_file_row r ≡ true
      → Elem r (tree_nodes s expanded selected fuel (length gs) (cumulative gs []))
      → Origin es expanded selected r
  unfolding tree_nodes
  tree_nodes-Origin zero gs r free opened f h = absurd h
  tree_nodes-Origin (suc fuel) gs r free opened f h =
      all_rows-Origin (tree_nodes s expanded selected fuel (suc (length gs))) gs
        (children (cumulative gs []) s) r free opened (λ n m. m)
        (λ g free' opened' k. tree_nodes-Origin fuel (gs ++ g ∷ []) r free' opened' f (
          subst (λ d. Elem r (tree_nodes s expanded selected fuel d (cumulative (gs ++ g ∷ []) [])))
            (omega (arith, length-append gs (g ∷ []))) k))
        f h

-- A row of a file is on the screen exactly when it is the row of an entry, at the depth of its
-- directories, and all the directories on the way to it are expanded.
pub tree_rows_iff :
    (le : Text → Text → Bool) (entries : List VfsEntry) (expanded : List Text)
    (selected : Option Text) (r : Row)
    → is_file_row r ≡ true
    → Elem r (tree_rows le entries expanded selected) ↔ (
        (e : VfsEntry) × Elem e entries
        × (row_of selected e ≡ r)
        × AllExpanded expanded (init (parts_of e)) [])
unfolding tree_rows build_tree
tree_rows_iff le entries expanded selected r f = (
  λ h.
      tree_nodes-Origin (build_tree le entries) entries expanded selected
        (add_entries-IsPlaced _ empty_root empty_root-IsPlaced) (file-FromEntry le entries)
        (depth_of entries) [] r tt tt f h,
  λ (e, m, same, opened).
      subst (λ x. Elem x (tree_rows le entries expanded selected)) same
        (tree_rows-Elem le entries expanded selected e m opened),
)
