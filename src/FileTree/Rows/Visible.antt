-- ===== src/FileTree/Rows/Visible.antt =====
-- frontend/components/VirtualFileTree.tsx: which files have a row.
use Prim.{Unit}
use mathlib.Core.Path.{subst}
use isolator_v_wasm_sandbox.Common.{
  Text, text_eq, split, split_from, snoc, init, last_or, includes, ℕ, zero, suc, ◌+◌, ◌<◌, ◌≤◌,
  ◌==◌, ◌≡◌, inl, inr, refl, sym, ap, Bool, true, false, Option, or_else, List, [], ◌∷◌, length,
  sort_by, Bool-cases, All, arith,
}
use isolator_v_wasm_sandbox.Vfs.{VfsEntry}
use isolator_v_wasm_sandbox.FileTree.{
  Node, file, dir, Store, has, children, join, cumulative, parts_of, empty_root, build_tree,
  strip_slash,
}
use isolator_v_wasm_sandbox.FileTree.Rows.{
  Row, file_row_of, node_rows, all_rows, tree_nodes, depth_of, tree_rows,
}
use isolator_v_wasm_sandbox.FileTree.Rows.Members.{
  Elem, Elem-append_left, Elem-append_right, Elem-sort_by,
}
use isolator_v_wasm_sandbox.FileTree.Rows.Segments.{slash_free, segments_free}
use isolator_v_wasm_sandbox.FileTree.Rows.Linked.{
  IsLinked, Chain, add_entries-IsLinked, add_entries-IsStored,
}

-- Every directory on the way down is expanded.
abbrev pub AllExpanded : List Text → List Text → Text → Type 0
AllExpanded expanded [] parent = Unit {0}
AllExpanded expanded (g ∷ gs) parent =
    (includes expanded (join parent g) ≡ true) × AllExpanded expanded gs (join parent g)

module _ (s : Store) (expanded : List Text) (selected : Option Text) where
  all_rows-Elem :
      (below : Text → List Row) (depth : ℕ) (n : Node) (ns : List Node) (r : Row)
      → Elem n ns
      → Elem r (node_rows s expanded selected below depth n)
      → Elem r (all_rows s expanded selected below depth ns)
  unfolding all_rows
  all_rows-Elem below depth n [] r h k = absurd h
  all_rows-Elem below depth n (m ∷ ns) r (inl e) k =
      Elem-append_left r (node_rows s expanded selected below depth m) _
        (subst (λ x. Elem r (node_rows s expanded selected below depth x)) (sym e) k)
  all_rows-Elem below depth n (m ∷ ns) r (inr h) k =
      Elem-append_right r (node_rows s expanded selected below depth m) _
        (all_rows-Elem below depth n ns r h k)

  tree_nodes-Elem :
      (gs : List Text) (p : Text) (fuel depth : ℕ) (name path : Text) (ghost : Bool)
      (size : Option ℕ)
      → length gs < fuel
      → IsLinked s
      → All (λ g. slash_free g ≡ true) gs
      → Chain gs p s
      → AllExpanded expanded gs p
      → Elem (file name path ghost size) (children (cumulative gs p) s)
      → Elem
          (file_row_of selected (depth + length gs) name path ghost size)
          (tree_nodes s expanded selected fuel depth p)
  unfolding tree_nodes node_rows
  tree_nodes-Elem gs p zero depth name path ghost size lt linked free chain open' there =
      elim lt [ ]
  tree_nodes-Elem [] p (suc fuel) depth name path ghost size lt linked free chain open' there =
      let same : depth + 0 ≡ depth = omega arith in
      all_rows-Elem (tree_nodes s expanded selected fuel (suc depth)) depth _ (children p s) _ there
        (inl (ap (λ d. file_row_of selected d name path ghost size) (sym same)))
  tree_nodes-Elem (g ∷ gs) p (suc fuel) depth name path ghost size lt linked free chain open'
        there =
      let below = tree_nodes s expanded selected fuel (suc depth) in
      let row = file_row_of selected (depth + length (g ∷ gs)) name path ghost size in
      let same : suc depth + length gs ≡ depth + length (g ∷ gs) = omega arith in
      let inner : Elem row (below (join p g)) =
        subst (λ d. Elem (file_row_of selected d name path ghost size) (below (join p g))) same
          (tree_nodes-Elem gs (join p g) fuel (suc depth) name path ghost size (omega arith) linked
            free.1 chain.1 open'.1 there) in
      all_rows-Elem below depth (dir g (join p g)) (children p s) row (linked p g free.0 chain.0)
        (inr (rw open'.0 inner))

empty_root-IsLinked : IsLinked empty_root
unfolding has text_eq
empty_root-IsLinked [] g free h = cc h
empty_root-IsLinked (c ∷ p) g free h = cc h

length-init : (x : Text) (xs : List Text) → length (init (x ∷ xs)) < length (x ∷ xs)
length-init x [] = omega arith
length-init x (y ∷ xs) = omega (arith, length-init y xs)

split_from-length :
    (s cur : Text) → length (init (split_from b'/' cur s)) < length (split_from b'/' cur s)
unfolding split_from
split_from-length [] cur = omega arith
split_from-length (c ∷ s) cur = elim (Bool-cases (c == b'/')) [
  | inl e ↦ rw e (length-init cur (split_from b'/' [] s))
  | inr e ↦ rw e (split_from-length s (snoc cur c))
]

depth_of-Elem : (es : List VfsEntry) (e : VfsEntry) → Elem e es → length (parts_of e) ≤ depth_of es
unfolding depth_of
depth_of-Elem [] e h = absurd h
depth_of-Elem (x ∷ es) e (inl same) = rw (sym same) (ground arith)
depth_of-Elem (x ∷ es) e (inr h) = ground (arith, depth_of-Elem es e h)

enough : (es : List VfsEntry) (e : VfsEntry) → Elem e es → length (init (parts_of e)) < depth_of es
unfolding parts_of split
enough es e h = omega (arith, split_from-length (strip_slash e.path) [], depth_of-Elem es e h)

-- The row that an entry stands for.
abbrev pub row_of : Option Text → VfsEntry → Row
row_of selected e =
    file_row_of selected (length (init (parts_of e))) (last_or [] (parts_of e)) e.path
      (or_else e.ghost false) e.size

-- An entry has its row, at the depth of its directories, when all the directories on the way to it
-- are expanded.
pub tree_rows-Elem :
    (le : Text → Text → Bool) (entries : List VfsEntry) (expanded : List Text)
    (selected : Option Text) (e : VfsEntry)
    → Elem e entries
    → AllExpanded expanded (init (parts_of e)) []
    → Elem (row_of selected e) (tree_rows le entries expanded selected)
unfolding tree_rows build_tree has children text_eq
tree_rows-Elem le entries expanded selected e h opened =
    let by_path = λ (a b : VfsEntry). le a.path b.path in
    let sorted = sort_by by_path entries in
    let stored = add_entries-IsStored sorted empty_root e refl (Elem-sort_by by_path e entries h) in
    let at_zero : 0 + length (init (parts_of e)) ≡ length (init (parts_of e)) = omega arith in
    subst
      (λ d.
        Elem
          (file_row_of selected d (last_or [] (parts_of e)) e.path (or_else e.ghost false) e.size)
          (tree_rows le entries expanded selected))
      at_zero
      (tree_nodes-Elem (build_tree le entries) expanded selected (init (parts_of e)) []
        (depth_of entries) 0 (last_or [] (parts_of e)) e.path (or_else e.ghost false) e.size
        (enough entries e h) (add_entries-IsLinked sorted empty_root refl empty_root-IsLinked)
        (segments_free e) stored.chain opened stored.there)
