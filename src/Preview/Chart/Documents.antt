-- ===== src/Preview/Chart/Documents.antt =====
-- frontend/components/ComponentRegistry.tsx: which JSON texts are drawn as a chart.
use isolator_v_wasm_sandbox.Common.{
  Text, codes, text_eq, ℕ, suc, ◌≡◌, refl, ap, ◌⊎◌, inl, inr, Bool, true, false, Option, none, some,
  List, [], ◌∷◌, ◌++◌, map, ℤ,
}
use isolator_v_wasm_sandbox.Preview.Json.{
  Json, number, string, array, object, null_value, bool, field, end, elements, items_of, property,
  Rendered, shown, throws, are_children, is_child, read, as_array, as_child, all_children, ◌>>=◌,
  truthy, lookup,
}
use isolator_v_wasm_sandbox.Preview.Chart.{
  numbers, plot, SeriesView, chart_colour, series_view, series_views, chart, chart_data, chart_view,
  is_string,
}

-- One series of a document: its name and its numbers.
abbrev pub Series : Type 0
Series = Text × List ℤ

abbrev pub series_json : Series → Json
series_json (name, values) = object (
    field (codes "name") (string name)
      (field (codes "data") (array (items_of (map number values))) end))

abbrev pub labels_json : List Text → Json
labels_json labels = array (items_of (map string labels))

-- A timeseries document.
abbrev pub document : List Text → List Series → Json
document labels series = object (
    field (codes "type") (string (codes "timeseries")) (
      field (codes "labels") (labels_json labels)
        (field (codes "series") (array (items_of (map series_json series))) end)))

-- The charts that are expected of it, from the series number `i` on.
abbrev pub drawn : List Text → ℕ → List Series → List SeriesView
drawn labels i [] = []
drawn labels i ((name, values) ∷ series) =
    record {
      colour = chart_colour i;
      name = some (string name);
      values = map number values;
      plot = some (plot values);
      labels = map string labels;
    }
    ∷ drawn labels (suc i) series

pub elements-items_of : (js : List Json) → elements (items_of js) ≡ js
elements-items_of [] = refl
elements-items_of (j ∷ js) = ap (λ l. j ∷ l) (elements-items_of js)

numbers-map : (values : List ℤ) → numbers (map number values) ≡ some values
numbers-map [] = refl
numbers-map (v ∷ vs) = rw (numbers-map vs, numbers) refl

numbers_are_children : (values : List ℤ) → are_children (items_of (map number values)) ≡ true
unfolding are_children is_child
numbers_are_children [] = refl
numbers_are_children (v ∷ vs) = numbers_are_children vs

pub strings_are_children : (labels : List Text) → are_children (items_of (map string labels)) ≡ true
unfolding are_children is_child
strings_are_children [] = refl
strings_are_children (l ∷ ls) = strings_are_children ls

all_children-true :
    (js : List Json) → are_children (items_of js) ≡ true → all_children (items_of js) ≡ shown js
all_children-true js h = rw h (ap shown (elements-items_of js))

series_view-json :
    (labels : List Text) (i : ℕ) (name : Text) (values : List ℤ)
    → series_view (some (labels_json labels)) i (series_json (name, values))
      ≡ shown (record {
        colour = chart_colour i;
        name = some (string name);
        values = map number values;
        plot = some (plot values);
        labels = map string labels;
      })
unfolding series_view is_child text_eq
series_view-json labels i name values = rw (numbers_are_children values) (
    rw (strings_are_children labels) (
      rw (elements-items_of (map number values))
        (rw (elements-items_of (map string labels)) (rw (numbers-map values) refl))))

series_views-json :
    (labels : List Text) (i : ℕ) (series : List Series)
    → series_views (some (labels_json labels)) i (map series_json series)
      ≡ shown (drawn labels i series)
unfolding series_views
series_views-json labels i [] = refl
series_views-json labels i ((name, values) ∷ series) =
    rw (series_view-json labels i name values, ◌>>=◌)
      (rw (series_views-json labels (suc i) series, ◌>>=◌) refl)

-- A text that is parsed as a timeseries document with these labels and series of whole numbers is
-- drawn as a chart that has, for each series in order, its name, the colour of its place, its
-- numbers, the plot of its numbers, and all the labels.
pub chart_view-document :
    (parse : Text → Option Json) (stringify : Json → Text) (raw : Text) (labels : List Text)
    (series : List Series)
    → parse raw ≡ some (document labels series)
    → chart_view parse stringify raw ≡ shown (chart (drawn labels 0 series))
unfolding chart_view chart_data text_eq
chart_view-document parse stringify raw labels series h = rw h (
    rw (elements-items_of (map series_json series))
      (rw (series_views-json labels 0 series, ◌>>=◌) refl))

abbrev pub is_array : Option Json → Bool
is_array (some (array items)) = true
is_array _ = false

as_array-throws : (o : Option Json) → is_array o ≡ false → as_array o ≡ throws
as_array-throws none h = refl
as_array-throws (some null_value) h = refl
as_array-throws (some (bool b)) h = refl
as_array-throws (some (number n)) h = refl
as_array-throws (some (string s)) h = refl
as_array-throws (some (array items)) h = cc
as_array-throws (some (object fields)) h = refl

>>=-throws {ℓ κ} :
    {A : Type ℓ} {B : Type κ} (m : Rendered A) (f : A → Rendered B)
    → ((a : A) → f a ≡ throws)
    → (m >>= f) ≡ throws
>>=-throws (shown a) f h = h a
>>=-throws throws f h = refl

series_view-no_data :
    (labels : Option Json) (i : ℕ) (s : Json)
    → is_array (property (codes "data") s) ≡ false
    → series_view labels i s ≡ throws
unfolding series_view
series_view-no_data labels i null_value h = refl
series_view-no_data labels i (bool b) h = refl
series_view-no_data labels i (number n) h = refl
series_view-no_data labels i (string t) h = refl
series_view-no_data labels i (array items) h = refl
series_view-no_data labels i (object fields) h =
    rw (as_array-throws (lookup (codes "data") fields) h, ◌>>=◌) refl

series_view-no_labels :
    (labels : Option Json) (i : ℕ) (s : Json)
    → is_array labels ≡ false
    → series_view labels i s ≡ throws
unfolding series_view
series_view-no_labels labels i s h =
    rw (as_array-throws labels h, ◌>>=◌)
      (>>=-throws (read (codes "data") s) _ λ items. >>=-throws (as_array items) _ λ bars.
        >>=-throws (read (codes "name") s) _ λ name.
          >>=-throws (as_child name) _
            λ shown_name. >>=-throws (all_children bars) _ λ values. refl)

series_views-throws :
    (labels : Option Json) (i : ℕ) (before after : List Json) (s : Json)
    → ((j : ℕ) → series_view labels j s ≡ throws)
    → series_views labels i (before ++ s ∷ after) ≡ throws
unfolding series_views
series_views-throws labels i [] after s h = rw (h i, ◌>>=◌) refl
series_views-throws labels i (b ∷ before) after s h =
    rw (series_views-throws labels (suc i) before after s h, ◌>>=◌)
      (>>=-throws (series_view labels i b) _ (λ v. refl))

one_throws :
    (labels : Option Json) (s : Json)
    → (is_array (property (codes "data") s) ≡ false) ⊎ (is_array labels ≡ false)
    → (i : ℕ) → series_view labels i s ≡ throws
one_throws labels s (inl h) i = series_view-no_data labels i s h
one_throws labels s (inr h) i = series_view-no_labels labels i s h

is_string-truthy : (j : Json) (k t : Text) → is_string t (property k j) ≡ true → truthy j ≡ true
is_string-truthy null_value k t h = cc
is_string-truthy (bool b) k t h = cc
is_string-truthy (number n) k t h = cc
is_string-truthy (string s) k t h = cc
is_string-truthy (array items) k t h = refl
is_string-truthy (object fields) k t h = refl

-- A text that is parsed as a value with the type "timeseries" and an array of series throws when it
-- is rendered if one of the series has no array as its data, or if there is a series and the labels
-- of the chart are no array.
pub chart_view-throws :
    (parse : Text → Option Json) (stringify : Json → Text) (raw : Text) (j : Json)
    (before after : List Json) (s : Json)
    → parse raw ≡ some j
    → is_string (codes "timeseries") (property (codes "type") j) ≡ true
    → property (codes "series") j ≡ some (array (items_of (before ++ s ∷ after)))
    → (is_array (property (codes "data") s) ≡ false)
      ⊎ (is_array (property (codes "labels") j) ≡ false)
    → chart_view parse stringify raw ≡ throws
unfolding chart_view chart_data
chart_view-throws parse stringify raw j before after s h t p bad = rw h (
    rw (is_string-truthy j (codes "type") (codes "timeseries") t) (
      rw t (
        rw p (
          rw (elements-items_of (before ++ s ∷ after)) (
            rw
              (
                series_views-throws (property (codes "labels") j) 0 before after s
                    (one_throws (property (codes "labels") j) s bad),
                ◌>>=◌,
              )
              refl)))))
