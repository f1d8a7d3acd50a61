-- ===== src/FileTree/Rows/Placed.antt =====
-- frontend/components/VirtualFileTree.tsx: every directory node stands in the array of its parent.
use Prim.{tt, Unit}
use mathlib.Core.Path.{subst}
use isolator_v_wasm_sandbox.Common.{
  Text, text_eq, text_eq_iff, init, ◌≡◌, inl, inr, refl, ◌∙◌, Bool, true, false, ◌&&◌, List, [],
  ◌∷◌, ◌++◌, if_elim, Bool-cases, All,
}
use isolator_v_wasm_sandbox.Vfs.{VfsEntry}
use isolator_v_wasm_sandbox.FileTree.{
  Node, file, dir, Store, has, children, push, join, add_dir, enter, descend, parts_of, parent_key,
  file_node, add_entry, add_entries, empty_root,
}
use isolator_v_wasm_sandbox.FileTree.Files.{children-snoc, children-push}
use isolator_v_wasm_sandbox.FileTree.Rows.Members.{Elem, Elem-append}
use isolator_v_wasm_sandbox.FileTree.Rows.Segments.{slash_free, segments_free}

-- A directory node stands in the array of its parent, under its own name.
abbrev pub IsPlacedNode : Text → Node → Type 0
IsPlacedNode k (file name path ghost size) = Unit {0}
IsPlacedNode k (dir name path) = (path ≡ join k name) × (slash_free name ≡ true)

abbrev pub IsPlaced : Store → Type 0
IsPlaced s = (k : Text) (n : Node) → Elem n (children k s) → IsPlacedNode k n

push-IsPlaced :
    (n : Node) (j : Text) (s : Store) → IsPlacedNode j n → IsPlaced s → IsPlaced (push j n s)
push-IsPlaced n j s here placed k x h = elim (Bool-cases (has j s && text_eq j k)) [
  | inl e ↦
      let at_j : j ≡ k = (text_eq_iff j k).0 (right_of_and _ _ e) in
      let both : Elem x (children k s ++ n ∷ []) =
        subst (Elem x) (children-push k j n s ∙ rw e refl) h in
      elim (Elem-append x (children k s) (n ∷ []) both) [
        | inl old ↦ placed k x old
        | inr (inl same) ↦ subst (IsPlacedNode k) same (subst (λ i. IsPlacedNode i n) at_j here)
        | inr (inr none_left) ↦ absurd none_left
      ]
  | inr e ↦ placed k x (subst (Elem x) (children-push k j n s ∙ rw e refl) h)
]
  where
    right_of_and : (a b : Bool) → (a && b) ≡ true → b ≡ true
    right_of_and true b h = h
    right_of_and false b h = cc h

enter-IsPlaced :
    (p g : Text) (s : Store) → slash_free g ≡ true → IsPlaced s → IsPlaced (enter p g s)
unfolding enter
enter-IsPlaced p g s free placed = if_elim IsPlaced (has (join p g) s) s (add_dir p g s) placed (
    push-IsPlaced (dir g (join p g)) p _ (refl, free)
      (λ k x h. placed k x (subst (Elem x) (children-snoc k (join p g) s) h)))

descend-IsPlaced :
    (gs : List Text) (p : Text) (s : Store)
    → All (λ g. slash_free g ≡ true) gs
    → IsPlaced s
    → IsPlaced (descend gs p s)
unfolding descend
descend-IsPlaced [] p s free placed = placed
descend-IsPlaced (g ∷ gs) p s free placed =
    descend-IsPlaced gs (join p g) (enter p g s) free.1 (enter-IsPlaced p g s free.0 placed)

pub add_entries-IsPlaced :
    (es : List VfsEntry) (s : Store) → IsPlaced s → IsPlaced (add_entries es s)
unfolding add_entries add_entry
add_entries-IsPlaced [] s placed = placed
add_entries-IsPlaced (e ∷ es) s placed = add_entries-IsPlaced es _ (
    push-IsPlaced (file_node e) (parent_key e) _ tt
      (descend-IsPlaced (init (parts_of e)) [] s (segments_free e) placed))

pub empty_root-IsPlaced : IsPlaced empty_root
unfolding children
empty_root-IsPlaced k n h =
    absurd (if_elim (λ l. Elem n l → ⊥) (text_eq [] k) [] [] (λ m. m) (λ m. m) h)
