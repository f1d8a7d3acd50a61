-- ===== src/FileTree/Rows/Segments.antt =====
-- frontend/components/VirtualFileTree.tsx: the segments of a path, and the paths that are joined of them.
use Prim.{tt, Unit}
use mathlib.Core.List.{append-nil, append_assoc}
use isolator_v_wasm_sandbox.Common.{
  Text, split, split_from, snoc, not, ◌==◌, init, ℕ, ◌≡◌, inl, inr, refl, sym, ap, ◌∙◌, Bool, true,
  false, ◌&&◌, List, [], ◌∷◌, ◌++◌, Bool-cases, All, arith,
}
use isolator_v_wasm_sandbox.Vfs.{VfsEntry}
use isolator_v_wasm_sandbox.FileTree.{join, cumulative, parts_of, strip_slash}

-- Segments have no slash.
abbrev pub slash_free : Text → Bool
slash_free [] = true
slash_free (c ∷ s) = not (c == b'/') && slash_free s

slash_free-snoc :
    (s : Text) (c : ℕ) → slash_free s ≡ true → (c == b'/') ≡ false → slash_free (snoc s c) ≡ true
slash_free-snoc [] c h e = rw e refl
slash_free-snoc (d ∷ s) c h e = ground (arith, slash_free-snoc s c)

split_from-slash_free :
    (s cur : Text) → slash_free cur ≡ true → All (λ g. slash_free g ≡ true) (split_from b'/' cur s)
unfolding split_from
split_from-slash_free [] cur h = (h, tt)
split_from-slash_free (c ∷ s) cur h = elim (Bool-cases (c == b'/')) [
  | inl e ↦ rw e (h, split_from-slash_free s [] refl)
  | inr e ↦ rw e (split_from-slash_free s (snoc cur c) (slash_free-snoc cur c h e))
]

All-init : (P : Text → Type 0) (xs : List Text) → All P xs → All P (init xs)
All-init P [] h = tt
All-init P (x ∷ []) h = tt
All-init P (x ∷ y ∷ xs) h = (h.0, All-init P (y ∷ xs) h.1)

not_slash_free : (p g : Text) → slash_free (join p g) ≡ false
not_slash_free [] g = refl
not_slash_free (c ∷ p) g = ground (arith, not_slash_free p g)

pub tail_eq : (c d : ℕ) (s t : Text) → (c ∷ s) ≡ (d ∷ t) → s ≡ t
tail_eq c d s t e = cc e

pub head_eq : (c d : ℕ) (s t : Text) → (c ∷ s) ≡ (d ∷ t) → c ≡ d
head_eq c d s t e = cc e

pub join_injective :
    (p q g h : Text)
    → slash_free g ≡ true
    → slash_free h ≡ true
    → join p g ≡ join q h
    → (p ≡ q) × (g ≡ h)
join_injective [] [] g h fg fh e = (refl, tail_eq b'/' b'/' g h e)
join_injective [] (d ∷ q) g h fg fh e =
    let t : g ≡ join q h = tail_eq b'/' d g (join q h) e in
    cc (fg, not_slash_free q h, ap slash_free t)
join_injective (c ∷ p) [] g h fg fh e =
    let t : join p g ≡ h = tail_eq c b'/' (join p g) h e in
    cc (fh, not_slash_free p g, ap slash_free t)
join_injective (c ∷ p) (d ∷ q) g h fg fh e =
    let rest = join_injective p q g h fg fh (tail_eq c d (join p g) (join q h) e) in
    (cc (rest.0, head_eq c d (join p g) (join q h) e), rest.1)

pub segments_free : (e : VfsEntry) → All (λ g. slash_free g ≡ true) (init (parts_of e))
unfolding parts_of split
segments_free e =
    All-init (λ g. slash_free g ≡ true) (split_from b'/' [] (strip_slash e.path))
      (split_from-slash_free (strip_slash e.path) [] refl)

-- The text of a way down.
abbrev flat : List Text → Text
flat [] = []
flat (g ∷ gs) = b'/' ∷ (g ++ flat gs)

cumulative-flat : (gs : List Text) (p : Text) → cumulative gs p ≡ p ++ flat gs
cumulative-flat [] p = sym (append-nil p)
cumulative-flat (g ∷ gs) p = cumulative-flat gs (join p g) ∙ append_assoc p (b'/' ∷ g) (flat gs)

-- A text that is empty or begins with a slash.
abbrev Led : Text → Type 0
Led [] = Unit {0}
Led (c ∷ s) = c ≡ b'/'

flat-Led : (gs : List Text) → Led (flat gs)
flat-Led [] = tt
flat-Led (g ∷ gs) = refl

cut :
    (g h f k : Text)
    → slash_free g ≡ true
    → slash_free h ≡ true
    → Led f
    → Led k
    → (g ++ f) ≡ (h ++ k)
    → (g ≡ h) × (f ≡ k)
cut [] [] f k fg fh lf lk e = (refl, e)
cut [] (d ∷ h) [] k fg fh lf lk e = cc e
cut [] (d ∷ h) (c ∷ f) k fg fh lf lk e = absurd (ground (arith, head_eq c d f (h ++ k) e, lf, fh))
cut (c ∷ g) [] f [] fg fh lf lk e = cc e
cut (c ∷ g) [] f (d ∷ k) fg fh lf lk e = absurd (ground (arith, head_eq c d (g ++ f) k e, lk, fg))
cut (c ∷ g) (d ∷ h) f k fg fh lf lk e =
    let rest = cut g h f k (ground arith) (ground arith) lf lk (tail_eq c d (g ++ f) (h ++ k) e) in
    (cc (rest.0, head_eq c d (g ++ f) (h ++ k) e), rest.1)

flat_injective :
    (gs hs : List Text)
    → All (λ g. slash_free g ≡ true) gs
    → All (λ g. slash_free g ≡ true) hs
    → flat gs ≡ flat hs
    → gs ≡ hs
flat_injective [] [] fg fh e = refl
flat_injective [] (h ∷ hs) fg fh e = cc e
flat_injective (g ∷ gs) [] fg fh e = cc e
flat_injective (g ∷ gs) (h ∷ hs) fg fh e =
    let both =
      cut g h (flat gs) (flat hs) fg.0 fh.0 (flat-Led gs) (flat-Led hs)
        (tail_eq b'/' b'/' (g ++ flat gs) (h ++ flat hs) e) in
    let rest = flat_injective gs hs fg.1 fh.1 both.1 in cc (both.0, rest)

pub cumulative_injective :
    (gs hs : List Text)
    → All (λ g. slash_free g ≡ true) gs
    → All (λ g. slash_free g ≡ true) hs
    → cumulative gs [] ≡ cumulative hs []
    → gs ≡ hs
cumulative_injective gs hs fg fh e =
    flat_injective gs hs fg fh (sym (cumulative-flat gs []) ∙ (e ∙ cumulative-flat hs []))
