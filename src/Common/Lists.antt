-- ===== src/Common/Lists.antt =====
-- Lists measured and cut by native numbers, predicates on lists, and the stable sort.
use Prim.Native.Nat.{ℕ, zero, suc, ◌+◌, ◌-◌, min}
use mathlib.Core.Path.{◌≡◌, refl}
use mathlib.Core.Logic.{inl, inr}
use mathlib.Core.Bool.{Bool, true, false, ◌&&◌}
use mathlib.Core.Option.{Option, none, some}
use mathlib.Core.List.{List, [], ◌∷◌, ◌++◌, map, Perm}
use mathlib.Core.List.Perm
use native.Mathlib.Omega.{arith}
use isolator_v_wasm_sandbox.Common.Tests.{if◌then◌else◌, Bool-cases}

module _ {ℓ} {A : Type ℓ} where
  abbrev pub length : List A → ℕ
  length [] = 0
  length (x ∷ xs) = suc (length xs)

  abbrev pub take : ℕ → List A → List A
  take zero xs = []
  take (suc n) [] = []
  take (suc n) (x ∷ xs) = x ∷ take n xs

  abbrev pub drop : ℕ → List A → List A
  drop zero xs = xs
  drop (suc n) [] = []
  drop (suc n) (x ∷ xs) = drop n xs

  pub length-append : (xs ys : List A) → length (xs ++ ys) ≡ length xs + length ys
  length-append [] ys = omega arith
  length-append (x ∷ xs) ys = omega (arith, length-append xs ys)

  pub length-drop : (n : ℕ) (xs : List A) → length (drop n xs) ≡ length xs - n
  length-drop zero xs = omega arith
  length-drop (suc n) [] = omega arith
  length-drop (suc n) (x ∷ xs) = omega (arith, length-drop n xs)

  pub length-take : (n : ℕ) (xs : List A) → length (take n xs) ≡ min n (length xs)
  length-take zero xs = omega arith
  length-take (suc n) [] = omega arith
  length-take (suc n) (x ∷ xs) = omega (arith, length-take n xs)

  pub drop-length : (xs ys : List A) → drop (length xs) (xs ++ ys) ≡ ys
  drop-length [] ys = refl
  drop-length (x ∷ xs) ys = drop-length xs ys

  -- The last item.
  abbrev pub last? : List A → Option A
  last? [] = none
  last? (x ∷ []) = some x
  last? (x ∷ y ∷ xs) = last? (y ∷ xs)

  pub last?-append : (xs : List A) (x : A) → last? (xs ++ x ∷ []) ≡ some x
  last?-append [] x = refl
  last?-append (y ∷ []) x = refl
  last?-append (y ∷ z ∷ xs) x = last?-append (z ∷ xs) x

  -- `Array.prototype.filter` with a Boolean test.
  abbrev pub filter : (A → Bool) → List A → List A
  filter p [] = []
  filter p (x ∷ xs) = if p x then x ∷ filter p xs else filter p xs

  pub filter-append :
      (p : A → Bool) (xs ys : List A) → filter p (xs ++ ys) ≡ filter p xs ++ filter p ys
  filter-append p [] ys = refl
  filter-append p (x ∷ xs) ys = ground (arith, filter-append p xs ys)

  abbrev pub all : (A → Bool) → List A → Bool
  all p [] = true
  all p (x ∷ xs) = p x && all p xs

  -- A stable sort by insertion, for a test `le` that puts equal items in either order.
  abbrev pub insert_by : (A → A → Bool) → A → List A → List A
  insert_by le x [] = x ∷ []
  insert_by le x (y ∷ ys) = if le x y then x ∷ y ∷ ys else y ∷ insert_by le x ys

  abbrev pub sort_by : (A → A → Bool) → List A → List A
  sort_by le [] = []
  sort_by le (x ∷ xs) = insert_by le x (sort_by le xs)

module _ {ℓ} {A : Type ℓ} (le : A → A → Bool) where
  insert_by-perm : (x : A) (xs : List A) → Perm (insert_by le x xs) (x ∷ xs)
  insert_by-perm x [] = Perm.refl _
  insert_by-perm x (y ∷ ys) = elim (Bool-cases (le x y)) [
    | inl e ↦ rw e (Perm.refl _)
    | inr e ↦ rw e (Perm.trans (Perm.cons y (insert_by-perm x ys)) (Perm.swap x y ys))
  ]

  -- Sorting rearranges.
  pub sort_by-perm : (xs : List A) → Perm (sort_by le xs) xs
  sort_by-perm [] = Perm.refl _
  sort_by-perm (x ∷ xs) =
      Perm.trans (insert_by-perm x (sort_by le xs)) (Perm.cons x (sort_by-perm xs))

pub last?-map {ℓ κ} :
    {A : Type ℓ} {B : Type κ} (f : A → B) (xs : List A) {x : A}
    → last? xs ≡ some x
    → last? (map f xs) ≡ some (f x)
last?-map f [] e = ground arith
last?-map f (x ∷ []) e = ground arith
last?-map f (x ∷ y ∷ xs) e = last?-map f (y ∷ xs) e

-- A predicate that every item has.
abbrev pub All {ℓ κ} : {A : Type ℓ} → (A → Type κ) → List A → Type κ
All P [] = Unit
All P (x ∷ xs) = P x × All P xs

pub All-append {ℓ κ} :
    {A : Type ℓ} (P : A → Type κ) (xs ys : List A) → All P xs → All P ys → All P (xs ++ ys)
All-append P [] ys hx hy = hy
All-append P (x ∷ xs) ys hx hy = (hx.0, All-append P xs ys hx.1 hy)

-- Every item stands in order with all that follow it.
abbrev pub Ordered {ℓ} : {A : Type ℓ} → (A → A → Bool) → List A → Type 0
Ordered le [] = Unit
Ordered le (x ∷ xs) = All (λ y. le x y ≡ true) xs × Ordered le xs

module _ {ℓ} {A : Type ℓ} (le : A → A → Bool) (total : (a b : A) → le a b ≡ false → le b a ≡ true)
    (trans : (a b c : A) → le a b ≡ true → le b c ≡ true → le a c ≡ true) where
  All-le_trans :
      (a b : A) (xs : List A)
      → le a b ≡ true
      → All (λ y. le b y ≡ true) xs
      → All (λ y. le a y ≡ true) xs
  All-le_trans a b [] h hs = tt
  All-le_trans a b (x ∷ xs) h (first, rest) = (trans a b x h first, All-le_trans a b xs h rest)

  All-insert_by :
      (a x : A) (xs : List A)
      → le a x ≡ true
      → All (λ y. le a y ≡ true) xs
      → All (λ y. le a y ≡ true) (insert_by le x xs)
  All-insert_by a x [] h hs = (h, tt)
  All-insert_by a x (y ∷ ys) h (first, rest) = elim (Bool-cases (le x y)) [
    | inl e ↦ rw e (h, (first, rest))
    | inr e ↦ rw e (first, All-insert_by a x ys h rest)
  ]

  insert_by-Ordered : (x : A) (xs : List A) → Ordered le xs → Ordered le (insert_by le x xs)
  insert_by-Ordered x [] h = (tt, tt)
  insert_by-Ordered x (y ∷ ys) (first, rest) = elim (Bool-cases (le x y)) [
    | inl e ↦ rw e ((e, All-le_trans x y ys e first), (first, rest))
    | inr e ↦ rw e (All-insert_by y x ys (total x y e) first, insert_by-Ordered x ys rest)
  ]

  -- For a total and transitive test, sorting puts in order.
  pub sort_by-Ordered : (xs : List A) → Ordered le (sort_by le xs)
  sort_by-Ordered [] = tt
  sort_by-Ordered (x ∷ xs) = insert_by-Ordered x (sort_by le xs) (sort_by-Ordered xs)

module _ {ℓ} {A : Type ℓ} (le : A → A → Bool) where
  pub drop-Ordered : (n : ℕ) (xs : List A) → Ordered le xs → Ordered le (drop n xs)
  drop-Ordered zero xs h = h
  drop-Ordered (suc n) [] h = tt
  drop-Ordered (suc n) (x ∷ xs) (first, rest) = drop-Ordered n xs rest

  take-All :
      (x : A) (n : ℕ) (xs : List A)
      → All (λ y. le x y ≡ true) xs
      → All (λ y. le x y ≡ true) (take n xs)
  take-All x zero xs h = tt
  take-All x (suc n) [] h = tt
  take-All x (suc n) (y ∷ ys) (first, rest) = (first, take-All x n ys rest)

  pub take-Ordered : (n : ℕ) (xs : List A) → Ordered le xs → Ordered le (take n xs)
  take-Ordered zero xs h = tt
  take-Ordered (suc n) [] h = tt
  take-Ordered (suc n) (x ∷ xs) (first, rest) = (take-All x n xs first, take-Ordered n xs rest)
