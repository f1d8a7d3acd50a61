-- ===== src/Vitals/Sparkline.antt =====
-- frontend/components/AgentVitals.tsx: the drawing of a sparkline. A sample is not negative and is
-- counted in parts, of which `one` make 1; coordinates are fractions, with exact quotients.
pub mod Canvas
use isolator_v_wasm_sandbox.Common.{
  Text, codes, is_truthy, starts_with, trim, ℕ, zero, suc, ◌-◌, ◌*◌, ◌==◌, Bool, ◌||◌, List, [],
  ◌∷◌, ◌++◌, drop, take, length, ltb, if◌then◌else◌,
}
use isolator_v_wasm_sandbox.Vitals.{Colour, danger, warn, ok_colour}
use isolator_v_wasm_sandbox.Vitals.Formats.{Fraction, over}

-- The texts that `pctColor` returns.
abbrev pub css : Colour → Text
css danger = codes "var(--color-danger)"
css warn = codes "var(--color-warn)"
css ok_colour = codes "var(--color-ok)"

-- `color.slice(4, -1).trim()` where the colour is a variable.
abbrev pub property_name : Text → Text
property_name color =
    if starts_with color (codes "var(")
    then trim (take (length color - 5) (drop 4 color))
    else color

-- `resolvedColor`; `property` is `getComputedStyle(canvas).getPropertyValue`.
unfoldable pub resolved_color : (Text → Text) → Text → Text
unfolding trim starts_with
resolved_color property color =
    let computed = trim (property (property_name color)) in
    if is_truthy computed then computed else codes "#6366f1"

pub record Point : Type 0 where
  pub x : Fraction
  pub y : Fraction

-- The calls on the canvas and its context. `resize` and `scale` are by the device's pixel ratio, so
-- that the others are in CSS pixels; a gradient goes from the top to the bottom of the canvas, and its
-- two stops are the colour with an alpha.
pub data Call : Type 0 where
  resize clear_rect : (w h : ℕ) → Call
  scale begin_path close_path fill round_joins : Call
  move_to line_to : Point → Call
  stroke : (colour : Text) → Call
  fill_style : (stop₀ stop₁ : Text) → Call

-- `Math.max(...samples, 1)`
unfoldable pub max_sample : ℕ → List ℕ → ℕ
max_sample one [] = one
max_sample one (v ∷ vs) = let m = max_sample one vs in if ltb m v then v else m

-- `h - (v / max) * (h - 2) - 1`, times `max`. On a canvas that is one pixel high `h - 2` is -1.
abbrev pub y_over_max : (h max v : ℕ) → ℕ
y_over_max h max v = if h == 1 then v else (h - 1) * max - v * (h - 2)

abbrev pub point_at : (w h max last i v : ℕ) → Point
point_at w h max last i v = record { x = over (i * w) last; y = over (y_over_max h max v) max }

-- `i === 0 ? ctx.moveTo(x, y) : ctx.lineTo(x, y)`
abbrev pub go_to : ℕ → Point → Call
go_to zero p = move_to p
go_to (suc i) p = line_to p

-- The loop over the samples, from the i-th on; `last` is the index of the last.
unfoldable pub line_through : (w h max last i : ℕ) → List ℕ → List Call
line_through w h max last i [] = []
line_through w h max last i (v ∷ vs) =
    go_to i (point_at w h max last i v) ∷ line_through w h max last (suc i) vs

abbrev pub corner : ℕ → ℕ → Call
corner x y = line_to (record { x = over x 1; y = over y 1 })

abbrev pub is_empty : ℕ → ℕ → List ℕ → Bool
is_empty w h samples = w == 0 || h == 0 || ltb (length samples) 2

unfoldable pub drawing : (Text → Text) → ℕ → ℕ → ℕ → List ℕ → Text → List Call
unfolding resolved_color max_sample line_through
drawing property one w h samples color =
    let resolved = resolved_color property color in
    scale
    ∷ clear_rect w h
    ∷ begin_path
    ∷ (line_through w h (max_sample one samples) (length samples - 1) 0 samples
        ++ (round_joins
            ∷ stroke resolved
            ∷ corner w h
            ∷ corner 0 h
            ∷ close_path
            ∷ fill_style (resolved ++ codes "30") (resolved ++ codes "00")
            ∷ fill
            ∷ []))

unfoldable pub draw_sparkline :
    (property : Text → Text) (has_context : Bool) (one w h : ℕ) → List ℕ → Text → List Call
unfolding drawing
draw_sparkline property has_context one w h samples color =
    if is_empty w h samples
    then []
    else resize w h ∷ (if has_context then drawing property one w h samples color else [])
