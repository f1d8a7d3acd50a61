-- ===== src/Vitals/Sparkline/Canvas.antt =====
-- frontend/components/AgentVitals.tsx: where the line of a sparkline runs.
use native.Mathlib.Nat.{mul_comm, add-mul, one-mul}
use isolator_v_wasm_sandbox.FileTree.Rows.Members.{Elem}
use isolator_v_wasm_sandbox.Common.{
  ◌⊎◌, inl, inr, if_elim, Text, ℕ, zero, suc, ◌+◌, ◌-◌, ◌*◌, ◌≤◌, ◌<◌, ◌≡◌, refl, true, false, List,
  [], ◌∷◌, ◌++◌, length, ltb, ◌==◌, All, arith,
}
use isolator_v_wasm_sandbox.Vitals.Sparkline.{
  Point, Call, resize, clear_rect, scale, begin_path, close_path, fill, round_joins, move_to,
  line_to, stroke, fill_style, max_sample, point_at, line_through, drawing, draw_sparkline,
}

-- The points of the line: those of the path before it is stroked.
abbrev pub line_of : List Call → List Point
line_of [] = []
line_of (stroke colour ∷ calls) = []
line_of (move_to p ∷ calls) = p ∷ line_of calls
line_of (line_to p ∷ calls) = p ∷ line_of calls
line_of (resize w h ∷ calls) = line_of calls
line_of (clear_rect w h ∷ calls) = line_of calls
line_of (scale ∷ calls) = line_of calls
line_of (begin_path ∷ calls) = line_of calls
line_of (close_path ∷ calls) = line_of calls
line_of (fill ∷ calls) = line_of calls
line_of (round_joins ∷ calls) = line_of calls
line_of (fill_style a b ∷ calls) = line_of calls

-- The i-th of the points from 0 to `last` stands at i / last of the width, and by v / max of the height
-- less two pixels over the bottom, less one pixel.
abbrev pub Stands : (w h max last i v : ℕ) → Point → Type 0
Stands w h max last i v p =
    (p.x.num ≡ i * w) × (p.x.den ≡ last) × (p.y.num + v * (h - 2) ≡ (h - 1) * max) × (p.y.den ≡ max)

-- One point for each sample, from the i-th on.
abbrev pub Follows : (w h max last i : ℕ) → List ℕ → List Point → Type 0
Follows w h max last i [] [] = Unit
Follows w h max last i [] (p ∷ ps) = ⊥
Follows w h max last i (v ∷ vs) [] = ⊥
Follows w h max last i (v ∷ vs) (p ∷ ps) =
    Stands w h max last i v p × Follows w h max last (suc i) vs ps

-- A pixel from the top and the bottom of the canvas, and not beyond its sides.
abbrev pub InCanvas : ℕ → ℕ → Point → Type 0
InCanvas w h p =
    (p.x.num ≤ w * p.x.den)
    × (p.y.den ≤ p.y.num)
    × (p.y.num + p.y.den ≤ h * p.y.den)
    × (0 < p.x.den)
    × (0 < p.y.den)

max_sample-ge : (one : ℕ) (vs : List ℕ) → one ≤ max_sample one vs
unfolding max_sample
max_sample-ge one [] = omega arith
max_sample-ge one (v ∷ vs) = ground (arith, max_sample-ge one vs)

-- The largest of the samples and of 1.
abbrev pub IsLargest : ℕ → List ℕ → ℕ → Type 0
IsLargest one samples max =
    (one ≤ max) × All (λ v. v ≤ max) samples × ((max ≡ one) ⊎ Elem max samples)

max_sample-among : (one : ℕ) (vs : List ℕ) → (max_sample one vs ≡ one) ⊎ Elem (max_sample one vs) vs
unfolding max_sample
max_sample-among one [] = inl refl
max_sample-among one (v ∷ vs) =
    let m = max_sample one vs in
    if_elim (λ k. (k ≡ one) ⊎ Elem k (v ∷ vs)) (ltb m v) v m (inr (inl refl))
      (elim (max_sample-among one vs) [ inl h ↦ inl h | inr h ↦ inr (inr h) ])

All-le_trans : (m n : ℕ) (vs : List ℕ) → m ≤ n → All (λ v. v ≤ m) vs → All (λ v. v ≤ n) vs
All-le_trans m n [] le h = tt
All-le_trans m n (v ∷ vs) le (first, rest) = (omega arith, All-le_trans m n vs le rest)

le-max_sample : (one : ℕ) (vs : List ℕ) → All (λ v. v ≤ max_sample one vs) vs
unfolding max_sample
le-max_sample one [] = tt
le-max_sample one (v ∷ vs) = (
  ground arith,
  All-le_trans (max_sample one vs) (max_sample one (v ∷ vs)) vs (ground arith)
      (le-max_sample one vs),
)

mul_of_succ : (a b m : ℕ) → a ≡ b + 1 → a * m ≡ b * m + m
mul_of_succ a b m e = rw e (simp (add-mul, one-mul))

-- The rows of a canvas of two pixels or more.
rows : (h m : ℕ) → 2 ≤ h → ((h - 1) * m ≡ m * (h - 2) + m) × (h * m ≡ m * (h - 2) + m + m)
rows h m le =
    let inner = mul_of_succ (h - 1) (h - 2) m (omega arith) in
    let all_rows = mul_of_succ h (h - 1) m (omega arith) in
    (omega (arith, inner, mul_comm (h - 2) m), omega (arith, inner, all_rows, mul_comm (h - 2) m))

mul-le : (k v m : ℕ) → v ≤ m → v * k ≤ m * k
mul-le k v m le = grind arith

module _ (w h max last : ℕ) (tall : 2 ≤ h) (some_max : 0 < max) (some_last : 0 < last) where
  point_at-Stands : (i v : ℕ) → v ≤ max → Stands w h max last i v (point_at w h max last i v)
  point_at-Stands i v le =
      let tall_enough : (h == 1) ≡ false = ground arith in
      (
        refl,
        refl,
        rw tall_enough (omega (arith, mul-le (h - 2) v max le, (rows h max tall).0)),
        refl,
      )

  Stands-InCanvas :
      (i v : ℕ) (p : Point) → i ≤ last → v ≤ max → Stands w h max last i v p → InCanvas w h p
  Stands-InCanvas i v p le fits (x_num, x_den, y_num, y_den) =
      let (inner, whole) = rows h max tall in
      (
        rw (x_num, x_den) (rw (mul_comm w last) (mul-le w i last le)),
        omega (arith, y_num, y_den, inner, mul-le (h - 2) v max fits),
        rw y_den (omega (arith, y_num, inner, whole)),
        omega (arith, x_den),
        omega (arith, y_den),
      )

  line_through-Follows :
      (i : ℕ) (vs : List ℕ)
      → All (λ v. v ≤ max) vs
      → (rest : List Call) → line_of rest ≡ []
      → Follows w h max last i vs (line_of (line_through w h max last i vs ++ rest))
  unfolding line_through
  line_through-Follows i [] fits rest e = rw e tt
  line_through-Follows zero (v ∷ vs) (fit, fits) rest e =
      (point_at-Stands zero v fit, line_through-Follows (suc zero) vs fits rest e)
  line_through-Follows (suc i) (v ∷ vs) (fit, fits) rest e =
      (point_at-Stands (suc i) v fit, line_through-Follows (suc (suc i)) vs fits rest e)

  Follows-InCanvas :
      (i : ℕ) (vs : List ℕ) (ps : List Point)
      → All (λ v. v ≤ max) vs
      → i + length vs ≤ last + 1
      → Follows w h max last i vs ps
      → All (InCanvas w h) ps
  Follows-InCanvas i [] [] fits le f = tt
  Follows-InCanvas i [] (p ∷ ps) fits le f = absurd f
  Follows-InCanvas i (v ∷ vs) [] fits le f = absurd f
  Follows-InCanvas i (v ∷ vs) (p ∷ ps) (fit, fits) le (first, more) = (
    Stands-InCanvas i v p (omega arith) fit first,
    Follows-InCanvas (suc i) vs ps fits (omega arith) more,
  )

-- On a canvas that is at least a pixel wide and two pixels high, two samples or more are drawn as a
-- line with a point for each of them in order: the points divide the width evenly, the first on the
-- left side and the last on the right side, each stands over the bottom by its share of the largest
-- sample (or of 1, if that is more), and all keep a pixel from the top and the bottom.
pub draw_sparkline-IsLine :
    (property : Text → Text) (one w h : ℕ) (samples : List ℕ) (color : Text)
    → 0 < one
    → 0 < w
    → 2 ≤ h
    → 2 ≤ length samples
    → let ps = line_of (draw_sparkline property true one w h samples color) in
      (max : ℕ) × IsLargest one samples max
      × Follows w h max (length samples - 1) 0 samples ps
      × All (InCanvas w h) ps
unfolding draw_sparkline drawing
draw_sparkline-IsLine property one w h samples color pos wide tall two =
    let wide_enough : (w == 0) ≡ false = ground arith in
    let tall_enough : (h == 0) ≡ false = ground arith in
    let enough : ltb (length samples) 2 ≡ false = ground arith in
    let max = max_sample one samples in
    let last = length samples - 1 in
    let some_max : 0 < max = omega (arith, max_sample-ge one samples) in
    let some_last : 0 < last = omega arith in
    let fits = le-max_sample one samples in
    let ps = line_of (draw_sparkline property true one w h samples color) in
    let follows : Follows w h max last 0 samples ps =
      rw (wide_enough, tall_enough, enough)
        (line_through-Follows w h max last tall some_max some_last 0 samples fits _ refl) in
    (
      max,
      (max_sample-ge one samples, fits, max_sample-among one samples),
      follows,
      Follows-InCanvas w h max last tall some_max some_last 0 samples _ fits (omega arith) follows,
    )
