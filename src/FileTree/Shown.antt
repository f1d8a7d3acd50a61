-- ===== src/FileTree/Shown.antt =====
-- frontend/components/VirtualFileTree.tsx: when the tree is on the screen.
use isolator_v_wasm_sandbox.Common.{
  Text, text_eq, ◌≡◌, refl, ◌∙◌, Bool, true, false, ◌&&◌, Option, List, [], ◌∷◌, ◌++◌, init,
  insert_by, if_elim, arith,
}
use isolator_v_wasm_sandbox.Vfs.{VfsEntry}
use isolator_v_wasm_sandbox.FileTree.{
  Node, Store, has, children, push, join, enter, descend, parts_of, file_node, add_entry,
  add_entries, empty_root, build_tree, cumulative,
}
use isolator_v_wasm_sandbox.FileTree.Files.{children-push, children-snoc}
use isolator_v_wasm_sandbox.FileTree.Reducer.{TreeState}
use isolator_v_wasm_sandbox.FileTree.Pane.{
  Pane, tree_pane, pane_of, empty_pane, pane, has_session, display_entries,
}

abbrev pub is_some_nodes : List Node → Bool
is_some_nodes [] = false
is_some_nodes (n ∷ nodes) = true

abbrev IsRooted : Store → Type 0
IsRooted s = is_some_nodes (children [] s) ≡ true

nodes-snoc : (nodes : List Node) (n : Node) → is_some_nodes (nodes ++ n ∷ []) ≡ true
nodes-snoc [] n = refl
nodes-snoc (m ∷ nodes) n = refl

push-IsRooted : (k : Text) (n : Node) (s : Store) → IsRooted s → IsRooted (push k n s)
push-IsRooted k n s h = rw (children-push [] k n s) (
    if_elim (λ nodes. is_some_nodes nodes ≡ true) (has k s && text_eq k []) _ _
      (nodes-snoc (children [] s) n) h)

enter-IsRooted :
    (parent segment : Text) (s : Store) → IsRooted s → IsRooted (enter parent segment s)
unfolding enter
enter-IsRooted parent segment s h =
    if_elim IsRooted (has (join parent segment) s) s _ h
      (push-IsRooted parent _ _ (rw (children-snoc [] (join parent segment) s) h))

descend-IsRooted :
    (segments : List Text) (parent : Text) (s : Store)
    → IsRooted s
    → IsRooted (descend segments parent s)
unfolding descend
descend-IsRooted [] parent s h = h
descend-IsRooted (segment ∷ segments) parent s h =
    descend-IsRooted segments (join parent segment) _ (enter-IsRooted parent segment s h)

add_entries-IsRooted : (es : List VfsEntry) (s : Store) → IsRooted s → IsRooted (add_entries es s)
unfolding add_entries add_entry
add_entries-IsRooted [] s h = h
add_entries-IsRooted (e ∷ es) s h =
    add_entries-IsRooted es _ (push-IsRooted _ _ _ (descend-IsRooted (init (parts_of e)) [] s h))

root_entered : (segment : Text) → IsRooted (enter [] segment empty_root)
unfolding enter has push children text_eq
root_entered segment = refl

file_pushed : (n : Node) → IsRooted (push [] n empty_root)
unfolding push children text_eq
file_pushed n = refl

-- The first file or directory stands in the root array.
first-IsRooted :
    (segments : List Text) (n : Node)
    → IsRooted (push (cumulative segments []) n (descend segments [] empty_root))
unfolding descend
first-IsRooted [] n = file_pushed n
first-IsRooted (segment ∷ segments) n =
    let parent = join [] segment in
    let entered = enter [] segment empty_root in
    push-IsRooted (cumulative segments parent) n (descend segments parent entered)
      (descend-IsRooted segments parent entered (root_entered segment))

cons-IsRooted : (e : VfsEntry) (es : List VfsEntry) → IsRooted (add_entries (e ∷ es) empty_root)
unfolding add_entries add_entry
cons-IsRooted e es =
    add_entries-IsRooted es (add_entry e empty_root)
      (first-IsRooted (init (parts_of e)) (file_node e))

insert_by-IsRooted :
    (le : VfsEntry → VfsEntry → Bool) (e : VfsEntry) (es : List VfsEntry)
    → IsRooted (add_entries (insert_by le e es) empty_root)
insert_by-IsRooted le e [] = cons-IsRooted e []
insert_by-IsRooted le e (x ∷ xs) =
    if_elim (λ es. IsRooted (add_entries es empty_root)) (le e x) (e ∷ x ∷ xs)
      (x ∷ insert_by le e xs) (cons-IsRooted e (x ∷ xs)) (cons-IsRooted x (insert_by le e xs))

build_tree-IsRooted :
    (le : Text → Text → Bool) (e : VfsEntry) (es : List VfsEntry)
    → IsRooted (build_tree le (e ∷ es))
unfolding build_tree
build_tree-IsRooted le e es = insert_by-IsRooted (λ a b. le a.path b.path) e _

abbrev pub is_tree : Pane → Bool
is_tree (tree_pane banner nodes) = true
is_tree _ = false

abbrev pub is_some_entries : List VfsEntry → Bool
is_some_entries [] = false
is_some_entries (e ∷ es) = true

empty_pane-is_tree : (state : TreeState) → is_tree (empty_pane state) ≡ false
empty_pane-is_tree state = ground arith

pane_of-is_tree :
    (state : TreeState) (nodes : List Node) → is_tree (pane_of state nodes) ≡ is_some_nodes nodes
pane_of-is_tree state [] = empty_pane-is_tree state
pane_of-is_tree state (n ∷ nodes) = refl

no_nodes : (le : Text → Text → Bool) → is_some_nodes (children [] (build_tree le [])) ≡ false
unfolding build_tree add_entries children text_eq
no_nodes le = refl

root-is_some :
    (le : Text → Text → Bool) (es : List VfsEntry)
    → is_some_nodes (children [] (build_tree le es)) ≡ is_some_entries es
root-is_some le [] = no_nodes le
root-is_some le (e ∷ es) = build_tree-IsRooted le e es

-- With a session, the tree is on the screen exactly when there is an entry to display, from the last
-- run or, if that left none, from the poller; a tree of entries is never hidden by the offline mark
-- or the mark of disabled persistence.
pub pane-is_tree :
    (le : Text → Text → Bool) (session_id : Option Text) (inline_entries : Option (List VfsEntry))
    (state : TreeState)
    → has_session session_id ≡ true
    → is_tree (pane le session_id inline_entries state)
      ≡ is_some_entries (display_entries inline_entries state)
unfolding pane
pane-is_tree le session_id inline_entries state h = rw h (
    pane_of-is_tree state (children [] (build_tree le (display_entries inline_entries state)))
    ∙ root-is_some le (display_entries inline_entries state))
