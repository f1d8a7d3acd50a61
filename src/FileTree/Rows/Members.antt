-- ===== src/FileTree/Rows/Members.antt =====
-- Membership in a list as data, and the list operations.
use isolator_v_wasm_sandbox.Common.{
  ◌≡◌, ◌⊎◌, inl, inr, refl, sym, ap, ◌∙◌, Bool, true, false, List, [], ◌∷◌, ◌++◌, map, filter,
  insert_by, sort_by, if◌then◌else◌, if_elim,
}

abbrev pub Elem : {A : Type 0} → A → List A → Type 0
Elem a [] = ⊥
Elem a (x ∷ xs) = (x ≡ a) ⊎ Elem a xs

pub Elem-append_left : {A : Type 0} (a : A) (xs ys : List A) → Elem a xs → Elem a (xs ++ ys)
Elem-append_left a [] ys h = absurd h
Elem-append_left a (x ∷ xs) ys (inl e) = inl e
Elem-append_left a (x ∷ xs) ys (inr h) = inr (Elem-append_left a xs ys h)

pub Elem-append_right : {A : Type 0} (a : A) (xs ys : List A) → Elem a ys → Elem a (xs ++ ys)
Elem-append_right a [] ys h = h
Elem-append_right a (x ∷ xs) ys h = inr (Elem-append_right a xs ys h)

pub Elem-append : {A : Type 0} (a : A) (xs ys : List A) → Elem a (xs ++ ys) → Elem a xs ⊎ Elem a ys
Elem-append a [] ys h = inr h
Elem-append a (x ∷ xs) ys (inl e) = inl (inl e)
Elem-append a (x ∷ xs) ys (inr h) = elim (Elem-append a xs ys h) [
  | inl k ↦ inl (inr k)
  | inr k ↦ inr k
]

pub Elem-insert_by :
    {A : Type 0} (le : A → A → Bool) (a x : A) (ys : List A)
    → (x ≡ a) ⊎ Elem a ys
    → Elem a (insert_by le x ys)
Elem-insert_by le a x [] h = h
Elem-insert_by le a x (y ∷ ys) (inl e) =
    if_elim (Elem a) (le x y) (x ∷ y ∷ ys) (y ∷ insert_by le x ys) (inl e)
      (inr (Elem-insert_by le a x ys (inl e)))
Elem-insert_by le a x (y ∷ ys) (inr (inl e)) =
    if_elim (Elem a) (le x y) (x ∷ y ∷ ys) (y ∷ insert_by le x ys) (inr (inl e)) (inl e)
Elem-insert_by le a x (y ∷ ys) (inr (inr k)) =
    if_elim (Elem a) (le x y) (x ∷ y ∷ ys) (y ∷ insert_by le x ys) (inr (inr k))
      (inr (Elem-insert_by le a x ys (inr k)))

pub Elem-sort_by :
    {A : Type 0} (le : A → A → Bool) (a : A) (xs : List A) → Elem a xs → Elem a (sort_by le xs)
Elem-sort_by le a [] h = absurd h
Elem-sort_by le a (x ∷ xs) (inl e) = Elem-insert_by le a x (sort_by le xs) (inl e)
Elem-sort_by le a (x ∷ xs) (inr h) =
    Elem-insert_by le a x (sort_by le xs) (inr (Elem-sort_by le a xs h))

pub Elem-filter :
    {A : Type 0} (p : A → Bool) (a : A) (xs : List A)
    → Elem a xs
    → p a ≡ true
    → Elem a (filter p xs)
Elem-filter p a [] h e = absurd h
Elem-filter p a (x ∷ xs) (inl same) e = let px : p x ≡ true = ap p same ∙ e in rw px (inl same)
Elem-filter p a (x ∷ xs) (inr h) e =
    if_elim (Elem a) (p x) (x ∷ filter p xs) (filter p xs) (inr (Elem-filter p a xs h e))
      (Elem-filter p a xs h e)

pub of_map :
    {A B : Type 0} (f : A → B) (b : B) (xs : List A)
    → Elem b (map f xs)
    → (a : A) × Elem a xs × (f a ≡ b)
of_map f b [] h = absurd h
of_map f b (x ∷ xs) (inl e) = (x, inl refl, e)
of_map f b (x ∷ xs) (inr h) = let (a, k, e) = of_map f b xs h in (a, inr k, e)

-- Membership in a list with a first element that may be left out.
of_filter_step :
    {A : Type 0} (p : A → Bool) (a x : A) (xs : List A) (kept : Bool)
    → p x ≡ kept
    → (Elem a (filter p xs) → Elem a xs × (p a ≡ true))
    → Elem a (if kept then x ∷ filter p xs else filter p xs)
    → Elem a (x ∷ xs) × (p a ≡ true)
of_filter_step p a x xs true e rest (inl same) = (inl same, ap p (sym same) ∙ e)
of_filter_step p a x xs true e rest (inr h) = (inr (rest h).0, (rest h).1)
of_filter_step p a x xs false e rest h = (inr (rest h).0, (rest h).1)

pub of_filter :
    {A : Type 0} (p : A → Bool) (a : A) (xs : List A)
    → Elem a (filter p xs)
    → Elem a xs × (p a ≡ true)
of_filter p a [] h = absurd h
of_filter p a (x ∷ xs) h = of_filter_step p a x xs (p x) refl (λ k. of_filter p a xs k) h

of_insert_by :
    {A : Type 0} (le : A → A → Bool) (a x : A) (ys : List A)
    → Elem a (insert_by le x ys)
    → (x ≡ a) ⊎ Elem a ys
of_insert_by le a x [] h = h
of_insert_by le a x (y ∷ ys) h =
    if_elim (λ l. Elem a l → (x ≡ a) ⊎ Elem a (y ∷ ys)) (le x y) (x ∷ y ∷ ys)
      (y ∷ insert_by le x ys) (λ k. k) (later (λ k. of_insert_by le a x ys k)) h
  where
    later :
        (Elem a (insert_by le x ys) → (x ≡ a) ⊎ Elem a ys)
        → Elem a (y ∷ insert_by le x ys)
        → (x ≡ a) ⊎ Elem a (y ∷ ys)
    later rest (inl e) = inr (inl e)
    later rest (inr k) = elim (rest k) [ inl e ↦ inl e | inr m ↦ inr (inr m) ]

pub of_sort_by :
    {A : Type 0} (le : A → A → Bool) (a : A) (xs : List A) → Elem a (sort_by le xs) → Elem a xs
of_sort_by le a [] h = absurd h
of_sort_by le a (x ∷ xs) h = elim (of_insert_by le a x (sort_by le xs) h) [
  | inl e ↦ inl e
  | inr k ↦ inr (of_sort_by le a xs k)
]
