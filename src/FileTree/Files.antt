-- ===== src/FileTree/Files.antt =====
-- frontend/components/VirtualFileTree.tsx: the files of each directory of the tree.
use mathlib.Core.List.{append_assoc, append-nil, Perm}
use isolator_v_wasm_sandbox.Common.{
  Text, text_eq, text_eq_iff, text_eq_refl, ◌≡◌, refl, sym, ap, ◌∙◌, Bool, true, false, ◌||◌, ◌&&◌,
  Bool-cases, inl, inr, List, [], ◌∷◌, ◌++◌, map, filter, filter-append, sort_by, sort_by-perm,
  Ordered, sort_by-Ordered, init, if◌then◌else◌, if_elim, arith,
}
use isolator_v_wasm_sandbox.Vfs.{VfsEntry}
use isolator_v_wasm_sandbox.FileTree.{
  Node, file, dir, Store, has, children, push, join, enter, descend, cumulative, parts_of,
  parent_key, file_node, add_entry, add_entries, empty_root, build_tree,
}

abbrev pub is_file : Node → Bool
is_file (file name path ghost size) = true
is_file (dir name path) = false

-- The files that stand directly in a directory, in their order.
abbrev pub files_at : Text → Store → List Node
files_at k s = filter is_file (children k s)

pub has-push : (k j : Text) (n : Node) (s : Store) → has k (push j n s) ≡ has k s
unfolding has push
has-push k j n [] = refl
has-push k j n ((i, nodes) ∷ s) = ground (arith, has-push k j n s)

pub has-snoc :
    (k j : Text) (nodes : List Node) (s : Store)
    → has k (s ++ (j, nodes) ∷ []) ≡ (has k s || text_eq j k)
unfolding has
has-snoc k j nodes [] = ground arith
has-snoc k j nodes ((i, ns) ∷ s) = ground (arith, has-snoc k j nodes s)

pub children-snoc : (k j : Text) (s : Store) → children k (s ++ (j, []) ∷ []) ≡ children k s
unfolding children
children-snoc k j [] = ground arith
children-snoc k j ((i, ns) ∷ s) = ground (arith, children-snoc k j s)

pub children-push :
    (k j : Text) (n : Node) (s : Store)
    → children k (push j n s)
      ≡ (if has j s && text_eq j k then children k s ++ n ∷ [] else children k s)
unfolding has children push
children-push k j n [] = refl
children-push k j n ((i, ns) ∷ s) =
    ground (arith, children-push k j n s, text_eq_iff i j, text_eq_iff i k, text_eq_iff j k)

or_of_eq : (i k : Text) (s : Store) → has i s ≡ true → has k s ≡ (has k s || text_eq i k)
or_of_eq i k s h = elim (Bool-cases (text_eq i k)) [
  | inl e ↦ let same : i ≡ k = (text_eq_iff i k).0 e in rw (← same) (rw h)
  | inr e ↦ rw e or_false
]
  where
    or_false : has k s ≡ (has k s || false)
    or_false = elim (Bool-cases (has k s)) [ inl e ↦ rw e | inr e ↦ rw e ]

pub has-enter :
    (k parent segment : Text) (s : Store)
    → has k (enter parent segment s) ≡ (has k s || text_eq (join parent segment) k)
unfolding enter
has-enter k parent segment s = elim (Bool-cases (has (join parent segment) s)) [
  | inl e ↦ rw e (or_of_eq (join parent segment) k s e)
  | inr e ↦ rw e (has-push k parent _ _ ∙ has-snoc k (join parent segment) [] s)
]

files_at-push_dir :
    (k j name path : Text) (s : Store) → files_at k (push j (dir name path) s) ≡ files_at k s
files_at-push_dir k j name path s = rw (children-push k j (dir name path) s) (
    if_elim (λ l. filter is_file l ≡ files_at k s) (has j s && text_eq j k)
      (children k s ++ dir name path ∷ []) (children k s)
      (filter-append is_file (children k s) (dir name path ∷ []) ∙ append-nil _) refl)

files_at-push_file :
    (k j : Text) (e : VfsEntry) (s : Store)
    → has j s ≡ true
    → files_at k (push j (file_node e) s)
      ≡ (if text_eq j k then files_at k s ++ file_node e ∷ [] else files_at k s)
files_at-push_file k j e s h = rw (children-push k j (file_node e) s) (
    rw h (elim (Bool-cases (text_eq j k)) [
      | inl q ↦ rw q (filter-append is_file (children k s) (file_node e ∷ []))
      | inr q ↦ rw q
    ]))

files_at-enter :
    (k parent segment : Text) (s : Store) → files_at k (enter parent segment s) ≡ files_at k s
unfolding enter
files_at-enter k parent segment s =
    if_elim (λ (u : Store). files_at k u ≡ files_at k s) (has (join parent segment) s) _ _ refl
      (files_at-push_dir k parent segment (join parent segment) _
        ∙ ap (filter is_file) (children-snoc k (join parent segment) s))

files_at-descend :
    (k : Text) (segments : List Text) (parent : Text) (s : Store)
    → files_at k (descend segments parent s) ≡ files_at k s
unfolding descend
files_at-descend k [] parent s = refl
files_at-descend k (segment ∷ segments) parent s =
    files_at-descend k segments (join parent segment) (enter parent segment s)
    ∙ files_at-enter k parent segment s

pub has-descend_mono :
    (k : Text) (segments : List Text) (parent : Text) (s : Store)
    → has k s ≡ true
    → has k (descend segments parent s) ≡ true
unfolding descend
has-descend_mono k [] parent s h = h
has-descend_mono k (segment ∷ segments) parent s h =
    has-descend_mono k segments (join parent segment) (enter parent segment s)
      (has-enter k parent segment s ∙ rw h)

or_true : (b : Bool) → (b || true) ≡ true
or_true true = refl
or_true false = refl

-- The array that the file is pushed on is there.
pub has-descend :
    (segments : List Text) (parent : Text) (s : Store)
    → has parent s ≡ true
    → has (cumulative segments parent) (descend segments parent s) ≡ true
unfolding descend
has-descend [] parent s h = h
has-descend (segment ∷ segments) parent s h =
    has-descend segments (join parent segment) (enter parent segment s) (
      has-enter (join parent segment) parent segment s
      ∙ rw (text_eq_refl (join parent segment)) (or_true (has (join parent segment) s)))

files_at-add_entry :
    (k : Text) (e : VfsEntry) (s : Store)
    → has [] s ≡ true
    → files_at k (add_entry e s)
      ≡ (if text_eq (parent_key e) k then files_at k s ++ file_node e ∷ [] else files_at k s)
unfolding add_entry
files_at-add_entry k e s h =
    files_at-push_file k (parent_key e) e _ (has-descend (init (parts_of e)) [] s h)
    ∙ rw (files_at-descend k (init (parts_of e)) [] s)

has-add_entry : (e : VfsEntry) (s : Store) → has [] s ≡ true → has [] (add_entry e s) ≡ true
unfolding add_entry
has-add_entry e s h =
    has-push [] (parent_key e) _ _ ∙ has-descend_mono [] (init (parts_of e)) [] s h

pub files_at-add_entries :
    (k : Text) (es : List VfsEntry) (s : Store)
    → has [] s ≡ true
    → files_at k (add_entries es s)
      ≡ files_at k s ++ map file_node (filter (λ e. text_eq (parent_key e) k) es)
unfolding add_entries
files_at-add_entries k [] s h = sym (append-nil _)
files_at-add_entries k (e ∷ es) s h =
    files_at-add_entries k es (add_entry e s) (has-add_entry e s h)
    ∙ rw (files_at-add_entry k e s h) (elim (Bool-cases (text_eq (parent_key e) k)) [
      | inl q ↦ rw q (append_assoc _ (file_node e ∷ []) _)
      | inr q ↦ rw q
    ])

-- Where the comparison of paths is total and transitive: the tree holds each entry once, as a file
-- node in the array of its own directory, and no other file. The files of any directory are those of
-- the entries that belong there, in the order of their paths: the entries are rearranged so that the
-- path of each is at most those of all that follow it.
pub build_tree-files :
    (le : Text → Text → Bool)
    → ((a b : Text) → le a b ≡ false → le b a ≡ true)
    → ((a b c : Text) → le a b ≡ true → le b c ≡ true → le a c ≡ true)
    → (entries : List VfsEntry)
    → (sorted : List VfsEntry) × Perm sorted entries
      × Ordered (λ (a b : VfsEntry). le a.path b.path) sorted
      × ((k : Text)
          → files_at k (build_tree le entries)
            ≡ map file_node (filter (λ e. text_eq (parent_key e) k) sorted))
unfolding build_tree has children text_eq
build_tree-files le total trans entries =
    let by_path = λ (a b : VfsEntry). le a.path b.path in
    (
      sort_by by_path entries,
      sort_by-perm by_path entries,
      sort_by-Ordered by_path (λ a b. total a.path b.path) (λ a b c. trans a.path b.path c.path)
          entries,
      λ k. files_at-add_entries k (sort_by by_path entries) empty_root refl ∙ rw (root_files k),
    )
  where
    root_files : (k : Text) → files_at k empty_root ≡ []
    root_files k = elim (Bool-cases (text_eq [] k)) [ inl e ↦ rw e | inr e ↦ rw e ]
