-- ===== src/Preview/Chart.antt =====
-- frontend/components/ComponentRegistry.tsx: the chart of a JSON file. The geometry is that of series
-- of whole numbers, with exact quotients.
pub mod Bars
pub mod Documents
use isolator_v_wasm_sandbox.Common.{
  Text, codes, decimal, text_eq, ℕ, zero, suc, ◌+◌, ◌-◌, ◌*◌, ◌/◌, ◌%◌, min, ltb, ◌==◌, Bool, true,
  false, not, ◌&&◌, ◌||◌, Option, none, some, List, [], ◌∷◌, ◌++◌, if◌then◌else◌, ℤ, pos, negsuc,
  map, or_else,
}
use isolator_v_wasm_sandbox.Preview.Json.{
  Json, null_value, number, string, array, object, Items, elements, truthy, property, Rendered,
  shown, throws, ◌>>=◌, ◌>>◌, read, as_array, as_child, all_children,
}

-- `CHART_COLORS[si % CHART_COLORS.length]`
abbrev pub chart_colour : ℕ → Text
chart_colour i =
    if i % 6 == 0
    then codes "#6366f1"
    else if i % 6 == 1
    then codes "#22c55e"
    else if i % 6 == 2
    then codes "#f59e0b"
    else if i % 6 == 3
    then codes "#ef4444"
    else if i % 6 == 4
    then codes "#38bdf8"
    else codes "#c084fc"

abbrev pub max : ℕ → ℕ → ℕ
max a b = if ltb a b then b else a

-- A number that is whole, or infinite.
pub data Extended : Type 0 where
  infinity : Extended
  whole : ℤ → Extended

abbrev pub lower : ℤ → ℤ → ℤ
lower (pos a) (pos b) = pos (min a b)
lower (pos a) (negsuc b) = negsuc b
lower (negsuc a) (pos b) = negsuc a
lower (negsuc a) (negsuc b) = negsuc (max a b)

abbrev pub least : ℤ → Extended → ℤ
least v infinity = v
least v (whole w) = lower v w

-- `Math.min(...s.data)`, which is infinite if there is nothing.
unfoldable pub ser_min : List ℤ → Extended
ser_min [] = infinity
ser_min (v ∷ vs) = whole (least v (ser_min vs))

abbrev pub pos_part : ℤ → ℕ
pos_part (pos n) = n
pos_part (negsuc n) = 0

-- `Math.max(...s.data, 1)`: it is at least 1, and negative numbers do not count.
unfoldable pub ser_max : List ℤ → ℕ
ser_max [] = 1
ser_max (v ∷ vs) = max (pos_part v) (ser_max vs)

-- The bottom of the axis, which is not below 0; `none` is infinity.
unfoldable pub baseline : Extended → ℕ → Option ℕ
baseline infinity ser_max = none
baseline (whole (pos n)) ser_max = some (if ltb ser_max (5 * n) then 4 * n / 5 else 0)
baseline (whole (negsuc n)) ser_max = some 0

-- `Math.max(serMax - baseline, 1)`
unfoldable pub range : Option ℕ → ℕ → ℕ
range none ser_max = 1
range (some base) ser_max = max (ser_max - base) 1

-- `fmtTick` of a number of halves, or of infinity.
unfoldable pub fmt_tick : Option ℕ → Text
fmt_tick none = codes "Infinity"
fmt_tick (some halves) =
    if halves % 2 == 0 then decimal (halves / 2) else decimal (halves / 2) ++ codes ".5"

-- The height of a bar is `bar / range` of the plot, nothing for a value below the axis, before the
-- least height in pixels that all bars have.
unfoldable pub bar : Option ℕ → ℤ → ℕ
bar none v = 0
bar (some base) v = pos_part v - base

abbrev twice : Option ℕ → Option ℕ
twice none = none
twice (some n) = some (2 * n)

abbrev mid_halves : Option ℕ → ℕ → Option ℕ
mid_halves none full = none
mid_halves (some base) full = some (2 * base + full)

-- The axis and the bars of one series.
pub record Plot : Type 0 where
  pub top_tick : Text
  pub mid_tick : Text
  pub bottom_tick : Text
  pub full : ℕ
  pub bars : List ℕ
  pub min_height_px : ℕ

unfoldable pub plot_on : Option ℕ → ℕ → List ℤ → Plot
plot_on base ser_max values =
    let full = range base ser_max in
    record {
      top_tick = fmt_tick (some (2 * ser_max));
      mid_tick = fmt_tick (mid_halves base full);
      bottom_tick = fmt_tick (twice base);
      full = full;
      bars = map (bar base) values;
      min_height_px = 2;
    }

unfoldable pub plot : List ℤ → Plot
plot values = plot_on (baseline (ser_min values) (ser_max values)) (ser_max values) values

-- The numbers of a series, if it has nothing else.
abbrev pub numbers : List Json → Option (List ℤ)
numbers [] = some []
numbers (number v ∷ js) = elim (numbers js) [ none ↦ none | some vs ↦ some (v ∷ vs) ]
numbers (_ ∷ js) = none

abbrev pub plotted : Option (List ℤ) → Option Plot
plotted none = none
plotted (some values) = some (plot values)

-- One series of the chart; `plot` is there for numbers.
pub record SeriesView : Type 0 where
  pub colour : Text
  pub name : Option Json
  pub values : List Json
  pub plot : Option Plot
  pub labels : List Json

-- What `series.map` does for one series. The labels are read again for each.
unfoldable pub series_view : Option Json → ℕ → Json → Rendered SeriesView
series_view labels i s = do
  items ← read (codes "data") s
  bars ← as_array items
  name ← read (codes "name") s
  name ← as_child name
  values ← all_children bars
  below ← as_array labels
  ticks ← all_children below
  shown (record {
    colour = chart_colour i;
    name = name;
    values = values;
    plot = plotted (numbers values);
    labels = ticks;
  })

unfoldable pub series_views : Option Json → ℕ → List Json → Rendered (List SeriesView)
series_views labels i [] = shown []
series_views labels i (s ∷ ss) = do
  v ← series_view labels i s
  vs ← series_views labels (suc i) ss
  shown (v ∷ vs)

pub data ChartPane : Type 0 where
  json_pane : Text → ChartPane
  chart : List SeriesView → ChartPane

-- `data.type === "timeseries"`
abbrev pub is_string : Text → Option Json → Bool
is_string k (some (string s)) = text_eq s k
is_string k _ = false

abbrev charted : (Json → Text) → Json → Option Json → Rendered ChartPane
charted stringify j (some (array items)) = do
  views ← series_views (property (codes "labels") j) 0 (elements items)
  shown (chart views)
charted stringify j _ = shown (json_pane (stringify j))

-- `parse` is `JSON.parse`, with `none` where it throws; `stringify` is `JSON.stringify`.
unfoldable pub chart_data : (Json → Text) → Json → Rendered ChartPane
chart_data stringify j =
    if truthy j && is_string (codes "timeseries") (property (codes "type") j)
    then charted stringify j (property (codes "series") j)
    else shown (json_pane (stringify j))

unfoldable pub chart_view : (Text → Option Json) → (Json → Text) → Text → Rendered ChartPane
chart_view parse stringify raw = chart_data stringify (or_else (parse raw) null_value)
