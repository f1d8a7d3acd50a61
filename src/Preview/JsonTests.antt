-- ===== src/Preview/JsonTests.antt =====
-- The chart and the WASM inspector of frontend/components/ComponentRegistry.tsx at concrete texts.
use isolator_v_wasm_sandbox.Common.{
  Text, codes, decimal, text_eq, ◌++◌, ℕ, ◌≡◌, refl, inl, true, false, Option, none, some, List, [],
  ◌∷◌, map, pos, negsuc, if◌then◌else◌,
}
use isolator_v_wasm_sandbox.Preview.{Answer, Props, body}
use isolator_v_wasm_sandbox.Preview.Json.{
  Json, string, object, null_value, field, array, property, items_of, end, shown, throws,
}
use isolator_v_wasm_sandbox.Preview.Chart.{
  fmt_tick, ser_min, ser_max, baseline, range, bar, plot, plot_on, chart, json_pane, chart_data,
  chart_view, is_string,
}
use isolator_v_wasm_sandbox.Preview.Chart.Bars.{IsPlot, plot-IsPlot}
use isolator_v_wasm_sandbox.Preview.Chart.Documents.{
  Series, document, drawn, series_json, labels_json, is_array, chart_view-document,
  chart_view-throws,
}
use isolator_v_wasm_sandbox.Preview.Inspector.{fmt, inspected, wasm_inspector}
use isolator_v_wasm_sandbox.Preview.Inspector.Reports.{
  Report, report_json, section_row, import_row, wasm_inspector-report,
}

-- A parser that knows one text.
abbrev knows : Text → Json → Text → Option Json
knows known j raw = if text_eq raw known then some j else none

abbrev no_text : Json → Text
no_text j = []

abbrev two_series : List Series
two_series =
    (codes "rps", pos 10 ∷ pos 12 ∷ pos 15 ∷ [])
    ∷ (codes "delta", negsuc 2 ∷ pos 0 ∷ pos 4 ∷ [])
    ∷ []

abbrev days : List Text
days = codes "mon" ∷ codes "tue" ∷ codes "wed" ∷ []

raised_axis : (plot (pos 10 ∷ pos 12 ∷ pos 15 ∷ [])).bars ≡ 2 ∷ 4 ∷ 7 ∷ []
unfolding plot plot_on ser_min ser_max baseline range bar
raised_axis = refl

half_tick : (plot (pos 10 ∷ pos 12 ∷ pos 15 ∷ [])).mid_tick ≡ codes "11.5"
unfolding plot plot_on ser_min ser_max baseline range fmt_tick decimal
half_tick = refl

empty_series : (plot []).bottom_tick ≡ codes "Infinity"
unfolding plot plot_on ser_min ser_max baseline range fmt_tick
empty_series = refl

kilobytes : fmt 12345 ≡ codes "12.1 KB"
unfolding fmt
kilobytes = refl

broken_text :
    (stringify : Json → Text)
    → chart_view (λ raw. none) stringify (codes "{") ≡ shown (json_pane (stringify null_value))
unfolding chart_view chart_data
broken_text stringify = refl

plot-IsPlot_example :
    (base : ℕ) × IsPlot (pos 10 ∷ pos 12 ∷ pos 15 ∷ []) (plot (pos 10 ∷ pos 12 ∷ pos 15 ∷ [])) base
plot-IsPlot_example = plot-IsPlot (pos 10) (pos 12 ∷ pos 15 ∷ [])

known_document :
    knows (codes "{}") (document days two_series) (codes "{}") ≡ some (document days two_series)
unfolding text_eq
known_document = refl

chart_view-document_example :
    chart_view (knows (codes "{}") (document days two_series)) no_text (codes "{}")
    ≡ shown (chart (drawn days 0 two_series))
chart_view-document_example =
    chart_view-document (knows (codes "{}") (document days two_series)) no_text (codes "{}") days
      two_series known_document

-- A timeseries document with a series that has a name only.
abbrev nameless_data : Json
nameless_data = object (field (codes "name") (string (codes "rps")) end)

abbrev no_data : Json
no_data = object (
    field (codes "type") (string (codes "timeseries")) (
      field (codes "labels") (labels_json days) (
        field (codes "series")
          (array (items_of (series_json (codes "rps", []) ∷ nameless_data ∷ []))) end)))

no_data_known : knows (codes "{}") no_data (codes "{}") ≡ some no_data
unfolding text_eq
no_data_known = refl

no_data_type : is_string (codes "timeseries") (property (codes "type") no_data) ≡ true
unfolding text_eq
no_data_type = refl

no_data_series :
    property (codes "series") no_data
    ≡ some (array (items_of ((series_json (codes "rps", []) ∷ []) ++ nameless_data ∷ [])))
unfolding text_eq
no_data_series = refl

nameless_data_array : is_array (property (codes "data") nameless_data) ≡ false
unfolding text_eq
nameless_data_array = refl

chart_view-throws_example : chart_view (knows (codes "{}") no_data) no_text (codes "{}") ≡ throws
chart_view-throws_example =
    chart_view-throws (knows (codes "{}") no_data) no_text (codes "{}") no_data
      (series_json (codes "rps", []) ∷ []) [] nameless_data no_data_known no_data_type
      no_data_series (inl nameless_data_array)

abbrev small_report : Report
small_report = record {
  magic = codes "0061736d";
  sections = record { id = 1; name = codes "type"; size = 2048; entries = 3 } ∷ [];
  exports = codes "_start" ∷ [];
  imports = (codes "wasi_snapshot_preview1", codes "fd_write") ∷ [];
}

report_known :
    knows (codes "{}") (report_json small_report) (codes "{}") ≡ some (report_json small_report)
unfolding text_eq
report_known = refl

wasm_inspector-report_example :
    wasm_inspector (knows (codes "{}") (report_json small_report)) (codes "{}")
    ≡ shown (
        inspected (record {
          magic = some (string (codes "0061736d"));
          sections = map section_row small_report.sections;
          exports = map string small_report.exports;
          imports = map import_row small_report.imports;
        }))
wasm_inspector-report_example =
    wasm_inspector-report (knows (codes "{}") (report_json small_report)) (codes "{}") small_report
      report_known

abbrev as_is : Text → Text
as_is s = s

abbrev built : Props
built = record {
  file_path = codes "/out/app.wasm";
  session_id = some (codes "session_1");
  inline_content = none;
  inline_b64 = none;
}

abbrev its_answer : List Answer
its_answer = record { asked = built.file_path; reply = body (codes "x") } ∷ []
