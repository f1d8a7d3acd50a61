-- ===== src/Preview/Chart/Bars.antt =====
-- frontend/components/ComponentRegistry.tsx: the heights of the bars of a chart.
use Prim.{tt}
use isolator_v_wasm_sandbox.Common.{
  ℕ, ◌+◌, ◌-◌, ◌*◌, ◌/◌, ◌≤◌, ◌<◌, ltb, ◌≡◌, refl, some, List, [], ◌∷◌, map, if◌then◌else◌, ℤ, pos,
  negsuc, All, arith,
}
use isolator_v_wasm_sandbox.Preview.Chart.{
  max, Extended, infinity, whole, lower, least, ser_min, pos_part, ser_max, baseline, range, bar,
  Plot, plot, plot_on,
}

abbrev pub highest : List ℕ → ℕ
highest [] = 0
highest (n ∷ ns) = max n (highest ns)

abbrev low_part : Extended → ℕ
low_part infinity = 0
low_part (whole v) = pos_part v

lower_left : (v w : ℤ) → pos_part (lower v w) ≤ pos_part v
lower_left (pos a) (pos b) = omega arith
lower_left (pos a) (negsuc b) = omega arith
lower_left (negsuc a) (pos b) = omega arith
lower_left (negsuc a) (negsuc b) = omega arith

lower_right : (v w : ℤ) → pos_part (lower v w) ≤ pos_part w
lower_right (pos a) (pos b) = omega arith
lower_right (pos a) (negsuc b) = omega arith
lower_right (negsuc a) (pos b) = omega arith
lower_right (negsuc a) (negsuc b) = omega arith

least-first : (v : ℤ) (low : Extended) → pos_part (least v low) ≤ pos_part v
least-first v infinity = omega arith
least-first v (whole w) = lower_left v w

abbrev AtLeast : ℕ → ℤ → Type 0
AtLeast n v = n ≤ pos_part v

AtLeast-mono : (m n : ℕ) (vs : List ℤ) → m ≤ n → All (AtLeast n) vs → All (AtLeast m) vs
AtLeast-mono m n [] h all = tt
AtLeast-mono m n (v ∷ vs) h all = (omega (arith, all.0), AtLeast-mono m n vs h all.1)

ser_min-AtLeast : (vs : List ℤ) → All (AtLeast (low_part (ser_min vs))) vs
unfolding ser_min
ser_min-AtLeast [] = tt
ser_min-AtLeast (v ∷ []) = (omega arith, tt)
ser_min-AtLeast (v ∷ w ∷ vs) = (
  least-first v (ser_min (w ∷ vs)),
  AtLeast-mono _ _ (w ∷ vs) (lower_right v (least w (ser_min vs))) (ser_min-AtLeast (w ∷ vs)),
)

-- The bottom of the axis of numbers that are there.
bottom : ℤ → ℕ → ℕ
bottom (pos n) top = if ltb top (5 * n) then 4 * n / 5 else 0
bottom (negsuc n) top = 0

baseline-whole : (v : ℤ) (top : ℕ) → baseline (whole v) top ≡ some (bottom v top)
unfolding baseline bottom
baseline-whole (pos n) top = refl
baseline-whole (negsuc n) top = refl

bottom-le : (v : ℤ) (top : ℕ) → bottom v top ≤ pos_part v
unfolding bottom
bottom-le (pos n) top = ground arith
bottom-le (negsuc n) top = omega arith

bottom-lt : (v : ℤ) (top : ℕ) → pos_part v ≤ top → 0 < top → bottom v top < top
unfolding bottom
bottom-lt (pos n) top h p = ground arith
bottom-lt (negsuc n) top h p = omega arith

ser_max_pos : (vs : List ℤ) → 0 < ser_max vs
unfolding ser_max
ser_max_pos [] = omega arith
ser_max_pos (v ∷ vs) = ground (arith, ser_max_pos vs)

abbrev AtMost : ℕ → ℤ → Type 0
AtMost n v = pos_part v ≤ n

AtMost-mono : (m n : ℕ) (vs : List ℤ) → m ≤ n → All (AtMost m) vs → All (AtMost n) vs
AtMost-mono m n [] h all = tt
AtMost-mono m n (v ∷ vs) h all = (omega (arith, all.0), AtMost-mono m n vs h all.1)

ser_max-AtMost : (vs : List ℤ) → All (AtMost (ser_max vs)) vs
unfolding ser_max
ser_max-AtMost [] = tt
ser_max-AtMost (v ∷ vs) = (ground arith, AtMost-mono _ _ vs (ground arith) (ser_max-AtMost vs))

ser_max-highest : (vs : List ℤ) → ser_max vs ≡ max 1 (highest (map pos_part vs))
unfolding ser_max
ser_max-highest [] = refl
ser_max-highest (v ∷ vs) = ground (arith, ser_max-highest vs)

highest-bar :
    (base : ℕ) (vs : List ℤ) → highest (map (bar (some base)) vs) ≡ highest (map pos_part vs) - base
unfolding bar
highest-bar base [] = omega arith
highest-bar base (v ∷ vs) = ground (arith, highest-bar base vs)

-- What a value has to do with its bar, when the axis goes from `base` to `base + full`.
abbrev pub IsScaled : ℕ → ℕ → ℤ → Type 0
IsScaled base full (pos n) = (bar (some base) (pos n) + base ≡ n) × (bar (some base) (pos n) ≤ full)
IsScaled base full (negsuc n) = bar (some base) (negsuc n) ≡ 0

one-IsScaled :
    (base full : ℕ) (v : ℤ) → base ≤ pos_part v → pos_part v ≤ full + base → IsScaled base full v
unfolding bar
one-IsScaled base full (pos n) low high = (omega arith, omega arith)
one-IsScaled base full (negsuc n) low high = omega arith

values-IsScaled :
    (base full : ℕ) (vs : List ℤ)
    → All (AtLeast base) vs
    → All (AtMost (full + base)) vs
    → All (IsScaled base full) vs
values-IsScaled base full [] low high = tt
values-IsScaled base full (v ∷ vs) low high =
    (one-IsScaled base full v low.0 high.0, values-IsScaled base full vs low.1 high.1)

-- A plot of the values whose axis starts at `base`.
pub record IsPlot (values : List ℤ) (p : Plot) (base : ℕ) : Type 0 where
  pub axis : p.full + base ≡ ser_max values
  pub least_height : p.min_height_px ≡ 2
  pub heights : p.bars ≡ map (bar (some base)) values
  pub scaled : All (IsScaled base p.full) values
  pub top : 0 < highest (map pos_part values) → highest p.bars ≡ p.full

range-axis : (base top : ℕ) → base < top → range (some base) top + base ≡ top
unfolding range
range-axis base top h = ground arith

filled :
    (base full : ℕ) (vs : List ℤ)
    → full + base ≡ ser_max vs
    → 0 < highest (map pos_part vs)
    → highest (map (bar (some base)) vs) ≡ full
filled base full vs h p = ground (arith, highest-bar base vs, ser_max-highest vs)

plot_on-IsPlot :
    (base : ℕ) (values : List ℤ)
    → base < ser_max values
    → All (AtLeast base) values
    → IsPlot values (plot_on (some base) (ser_max values) values) base
unfolding plot_on
plot_on-IsPlot base values below low =
    let h : range (some base) (ser_max values) + base ≡ ser_max values =
      range-axis base (ser_max values) below in
    record {
      axis = h;
      least_height = refl;
      heights = refl;
      scaled = values-IsScaled base _ values low (rw h (ser_max-AtMost values));
      top = filled base _ values h;
    }

-- A series of at least one whole number is drawn on an axis that ends at its maximum, or at 1 if
-- that is more: the share of the plot that a bar has for its height is, for a value that is not
-- negative, what the value is over the bottom of the axis, and not more than the plot; for a negative
-- value it is zero; and the highest bar has the whole plot if a value is positive. Every bar is at
-- least two pixels high, whatever its share.
pub plot-IsPlot : (v : ℤ) (vs : List ℤ) → (base : ℕ) × IsPlot (v ∷ vs) (plot (v ∷ vs)) base
unfolding plot ser_min
plot-IsPlot v vs =
    let low = least v (ser_min vs) in
    let top = ser_max (v ∷ vs) in
    let below : pos_part low ≤ top =
      omega (arith, least-first v (ser_min vs), (ser_max-AtMost (v ∷ vs)).0) in
    (
      bottom low top,
      rw (baseline-whole low top) (
          plot_on-IsPlot (bottom low top) (v ∷ vs) (bottom-lt low top below (ser_max_pos (v ∷ vs)))
            (AtLeast-mono (bottom low top) (pos_part low) (v ∷ vs) (bottom-le low top)
              (ser_min-AtLeast (v ∷ vs)))),
    )
