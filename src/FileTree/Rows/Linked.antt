-- ===== src/FileTree/Rows/Linked.antt =====
-- frontend/components/VirtualFileTree.tsx: the directories of the tree that is built, and their places
-- in the arrays of their parents.
use Prim.{tt, Unit}
use mathlib.Core.Path.{subst}
use isolator_v_wasm_sandbox.Common.{
  Text, text_eq, text_eq_iff, text_eq_refl, init, ◌≡◌, inl, inr, refl, sym, ◌∙◌, Bool, true, false,
  ◌||◌, ◌&&◌, List, [], ◌∷◌, ◌++◌, if_elim, All, Bool-cases, arith,
}
use isolator_v_wasm_sandbox.Vfs.{VfsEntry}
use isolator_v_wasm_sandbox.FileTree.{
  Node, dir, Store, has, children, push, join, add_dir, enter, descend, parts_of, parent_key,
  file_node, add_entry, add_entries,
}
use isolator_v_wasm_sandbox.FileTree.Files.{
  has-push, has-snoc, children-snoc, children-push, has-descend_mono, has-descend, has-enter,
}
use isolator_v_wasm_sandbox.FileTree.Rows.Members.{Elem, Elem-append_left, Elem-append_right}
use isolator_v_wasm_sandbox.FileTree.Rows.Segments.{slash_free, segments_free, join_injective}

-- Every directory that has an array is a node in the array of its parent.
abbrev pub IsLinked : Store → Type 0
IsLinked s =
    (p g : Text)
    → slash_free g ≡ true
    → has (join p g) s ≡ true
    → Elem (dir g (join p g)) (children p s)

grown :
    (x n : Node) (k j : Text) (s : Store) → Elem x (children k s) → Elem x (children k (push j n s))
grown x n k j s h = rw (children-push k j n s) (
    if_elim (λ l. Elem x l) (has j s && text_eq j k) _ _
      (Elem-append_left x (children k s) (n ∷ []) h) h)

pushed : (n : Node) (k : Text) (s : Store) → has k s ≡ true → Elem n (children k (push k n s))
pushed n k s h =
    rw (children-push k k n s)
      (rw h (rw (text_eq_refl k) (Elem-append_right n (children k s) (n ∷ []) (inl refl))))

push-IsLinked : (n : Node) (j : Text) (s : Store) → IsLinked s → IsLinked (push j n s)
push-IsLinked n j s linked p g free h =
    grown _ n p j s (linked p g free (sym (has-push (join p g) j n s) ∙ h))

right_of_or : (a b : Bool) → (a || b) ≡ true → a ≡ false → b ≡ true
right_of_or a b h e = ground arith

add_dir-IsLinked :
    (parent segment : Text) (s : Store)
    → has parent s ≡ true
    → slash_free segment ≡ true
    → IsLinked s
    → IsLinked (add_dir parent segment s)
add_dir-IsLinked parent segment s there free linked p g fg h =
    let new = join parent segment in
    let s1 = s ++ (new, []) ∷ [] in
    let n = dir segment new in
    let parent_there : has parent s1 ≡ true = has-snoc parent new [] s ∙ rw there refl in
    let found : (has (join p g) s || text_eq new (join p g)) ≡ true =
      sym (has-snoc (join p g) new [] s) ∙ (sym (has-push (join p g) parent n s1) ∙ h) in
    elim (Bool-cases (has (join p g) s)) [
      | inl old ↦ grown _ n p parent s1 (rw (children-snoc p new s) (linked p g fg old))
      | inr none_old ↦
          let same =
            join_injective parent p segment g free fg
              ((text_eq_iff new (join p g)).0 (right_of_or _ _ found none_old)) in
          subst (λ x. Elem (dir g (join x g)) (children x (push parent n s1))) same.0
            (subst (λ y. Elem (dir y (join parent y)) (children parent (push parent n s1))) same.1
              (pushed n parent s1 parent_there))
    ]

enter-IsLinked :
    (parent segment : Text) (s : Store)
    → has parent s ≡ true
    → slash_free segment ≡ true
    → IsLinked s
    → IsLinked (enter parent segment s)
unfolding enter
enter-IsLinked parent segment s there free linked =
    if_elim IsLinked (has (join parent segment) s) s (add_dir parent segment s) linked
      (add_dir-IsLinked parent segment s there free linked)

entered :
    (parent segment : Text) (s : Store) → has (join parent segment) (enter parent segment s) ≡ true
entered parent segment s =
    has-enter (join parent segment) parent segment s
    ∙ rw (text_eq_refl (join parent segment)) (right_true (has (join parent segment) s))
  where
    right_true : (b : Bool) → (b || true) ≡ true
    right_true true = refl
    right_true false = refl

descend-IsLinked :
    (segments : List Text) (parent : Text) (s : Store)
    → has parent s ≡ true
    → All (λ g. slash_free g ≡ true) segments
    → IsLinked s
    → IsLinked (descend segments parent s)
unfolding descend
descend-IsLinked [] parent s there free linked = linked
descend-IsLinked (g ∷ gs) parent s there free linked =
    descend-IsLinked gs (join parent g) (enter parent g s) (entered parent g s) free.1
      (enter-IsLinked parent g s there free.0 linked)

-- The directories on the way down a path all have arrays.
abbrev pub Chain : List Text → Text → Store → Type 0
Chain [] parent s = Unit {0}
Chain (g ∷ gs) parent s = (has (join parent g) s ≡ true) × Chain gs (join parent g) s

descend-Chain :
    (segments : List Text) (parent : Text) (s : Store)
    → Chain segments parent (descend segments parent s)
unfolding descend
descend-Chain [] parent s = tt
descend-Chain (g ∷ gs) parent s = (
  has-descend_mono (join parent g) gs (join parent g) (enter parent g s) (entered parent g s),
  descend-Chain gs (join parent g) (enter parent g s),
)

-- Nothing of a tree is lost in a larger one.
abbrev Grows : Store → Store → Type 0
Grows s t =
    ((k : Text) → has k s ≡ true → has k t ≡ true)
    × ((k : Text) (x : Node) → Elem x (children k s) → Elem x (children k t))

Chain-mono : (gs : List Text) (p : Text) (s t : Store) → Grows s t → Chain gs p s → Chain gs p t
Chain-mono [] p s t m h = tt
Chain-mono (g ∷ gs) p s t m h = (m.0 (join p g) h.0, Chain-mono gs (join p g) s t m h.1)

push-Grows : (n : Node) (j : Text) (s : Store) → Grows s (push j n s)
push-Grows n j s = (λ k h. has-push k j n s ∙ h, λ k x h. grown x n k j s h)

enter-Grows : (p g : Text) (s : Store) → Grows s (enter p g s)
unfolding enter
enter-Grows p g s =
    if_elim (Grows s) (has (join p g) s) s (add_dir p g s) (λ k h. h, λ k x h. h)
      (
        λ k h. has-push k p _ _ ∙ (has-snoc k (join p g) [] s ∙ rw h refl),
        λ k x h. grown x _ k p _ (rw (children-snoc k (join p g) s) h),
      )

Grows-trans : (s t u : Store) → Grows s t → Grows t u → Grows s u
Grows-trans s t u m n = (λ k h. n.0 k (m.0 k h), λ k x h. n.1 k x (m.1 k x h))

descend-Grows : (gs : List Text) (p : Text) (s : Store) → Grows s (descend gs p s)
unfolding descend
descend-Grows [] p s = (λ k h. h, λ k x h. h)
descend-Grows (g ∷ gs) p s =
    Grows-trans s (enter p g s) _ (enter-Grows p g s) (descend-Grows gs (join p g) (enter p g s))

add_entry-Grows : (e : VfsEntry) (s : Store) → Grows s (add_entry e s)
unfolding add_entry
add_entry-Grows e s =
    Grows-trans s (descend (init (parts_of e)) [] s) _ (descend-Grows (init (parts_of e)) [] s)
      (push-Grows (file_node e) (parent_key e) _)

add_entry-IsLinked :
    (e : VfsEntry) (s : Store) → has [] s ≡ true → IsLinked s → IsLinked (add_entry e s)
unfolding add_entry
add_entry-IsLinked e s root linked =
    push-IsLinked (file_node e) (parent_key e) _
      (descend-IsLinked (init (parts_of e)) [] s root (segments_free e) linked)

-- The place of an entry in a tree.
pub record IsStored (e : VfsEntry) (s : Store) : Type 0 where
  pub chain : Chain (init (parts_of e)) [] s
  pub there : Elem (file_node e) (children (parent_key e) s)

IsStored-mono : (e : VfsEntry) (s t : Store) → Grows s t → IsStored e s → IsStored e t
IsStored-mono e s t m h = record {
  chain = Chain-mono (init (parts_of e)) [] s t m h.chain;
  there = m.1 (parent_key e) (file_node e) h.there;
}

add_entry-IsStored : (e : VfsEntry) (s : Store) → has [] s ≡ true → IsStored e (add_entry e s)
unfolding add_entry
add_entry-IsStored e s root = record {
  chain =
      Chain-mono (init (parts_of e)) [] _ _ (push-Grows (file_node e) (parent_key e) _)
        (descend-Chain (init (parts_of e)) [] s);
  there = pushed (file_node e) (parent_key e) _ (has-descend (init (parts_of e)) [] s root);
}

pub add_entries-IsLinked :
    (es : List VfsEntry) (s : Store) → has [] s ≡ true → IsLinked s → IsLinked (add_entries es s)
unfolding add_entries
add_entries-IsLinked [] s root linked = linked
add_entries-IsLinked (e ∷ es) s root linked =
    add_entries-IsLinked es (add_entry e s) ((add_entry-Grows e s).0 [] root)
      (add_entry-IsLinked e s root linked)

add_entries-Grows : (es : List VfsEntry) (s : Store) → Grows s (add_entries es s)
unfolding add_entries
add_entries-Grows [] s = (λ k h. h, λ k x h. h)
add_entries-Grows (e ∷ es) s =
    Grows-trans s (add_entry e s) _ (add_entry-Grows e s) (add_entries-Grows es (add_entry e s))

pub add_entries-IsStored :
    (es : List VfsEntry) (s : Store) (e : VfsEntry)
    → has [] s ≡ true
    → Elem e es
    → IsStored e (add_entries es s)
unfolding add_entries
add_entries-IsStored [] s e root h = absurd h
add_entries-IsStored (x ∷ es) s e root (inl same) =
    subst (λ y. IsStored y (add_entries es (add_entry x s))) same
      (IsStored-mono x (add_entry x s) _ (add_entries-Grows es (add_entry x s))
        (add_entry-IsStored x s root))
add_entries-IsStored (x ∷ es) s e root (inr h) =
    add_entries-IsStored es (add_entry x s) e ((add_entry-Grows x s).0 [] root) h
