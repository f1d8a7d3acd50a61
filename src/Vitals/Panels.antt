-- ===== src/Vitals/Panels.antt =====
-- frontend/components/AgentVitals.tsx: the number formats and the two displays, over the arithmetic
-- of JavaScript's numbers, which is a parameter.
use isolator_v_wasm_sandbox.Common.{
  Text, codes, ℕ, Bool, Option, none, some, List, ◌++◌, map, if◌then◌else◌,
}
use isolator_v_wasm_sandbox.Vitals.{JsNumber, VitalsSnapshot, Hud, Colour, pct_color}

-- The operators and methods that the component applies to numbers. `below x n` is `x < n`, and
-- `to_text` is `String`.
pub record Arithmetic (num : JsNumber) : Type 0 where
  pub divide : num.Number → num.Number → num.Number
  pub times : num.Number → num.Number → num.Number
  pub remainder : num.Number → num.Number → num.Number
  pub below : num.Number → ℕ → Bool
  pub least : num.Number → num.Number → num.Number
  pub floor : num.Number → num.Number
  pub round : num.Number → num.Number
  pub to_fixed : ℕ → num.Number → Text
  pub to_text : num.Number → Text

module _ (num : JsNumber) (ops : Arithmetic num) where
  open num use {Number, of_numeral}
  open ops use {divide, times, remainder, below, least, floor, round, to_fixed, to_text}

  -- `(usedBytes / limitBytes) * 100`
  abbrev pub percent : Number → Number → Number
  percent used limit = times (divide used limit) (of_numeral 100)

  unfoldable pub mem_color : Number → Number → Colour
  mem_color used limit = pct_color num (percent used limit)

  unfoldable pub format_mem : Number → Text
  format_mem bytes =
      let mb = divide bytes (of_numeral 1048576) in
      if below mb 10 then to_fixed 1 mb ++ codes " MB" else to_text (round mb) ++ codes " MB"

  unfoldable pub format_wall : Number → Text
  format_wall ms =
      let s = divide ms (of_numeral 1000) in
      if below s 60
      then to_fixed 1 s ++ codes "s"
      else to_text (floor (divide s (of_numeral 60)))
        ++ codes "m "
        ++ to_text (round (remainder s (of_numeral 60)))
        ++ codes "s"

  -- A `ProgressBar`: its width in per cent, and its colour.
  pub record Bar : Type 0 where
    pub width : Number
    pub colour : Colour

  unfoldable pub progress_bar : Number → Colour → Bar
  progress_bar pct colour = record { width = least (of_numeral 100) pct; colour = colour }

  -- A `SparklineCanvas`.
  pub record Sparkline : Type 0 where
    pub samples : List Number
    pub colour : Colour

  -- One part of the full panel: the text of the reading, in the colour of the bar and the sparkline.
  pub record Meter : Type 0 where
    pub reading : Text
    pub reading_colour : Colour
    pub bar : Bar
    pub sparkline : Sparkline

  pub data Display : Type 0 where
    waiting dash : Display
    full : (memory cpu : Meter) (limit elapsed : Text) → Display
    pill :
        (cpu : Sparkline) (cpu_text mem_text pct_text title : Text)
        (cpu_colour mem_colour pct_colour : Colour)
        → Display

  abbrev pub mem_pct_of : VitalsSnapshot num → Number
  mem_pct_of s = percent s.mem_used_bytes s.mem_limit_bytes

  abbrev pub cpu_pct_of : VitalsSnapshot num → Number
  cpu_pct_of s = s.cpu_pct

  abbrev pub meter : Text → Number → Colour → List Number → Meter
  meter reading pct colour samples = record {
    reading = reading;
    reading_colour = colour;
    bar = progress_bar pct colour;
    sparkline = record { samples = samples; colour = colour };
  }

  unfoldable pub full_panel : List (VitalsSnapshot num) → Option (VitalsSnapshot num) → Display
  full_panel snapshots none = waiting
  full_panel snapshots (some latest) =
      let m_color = mem_color latest.mem_used_bytes latest.mem_limit_bytes in
      let c_color = pct_color num latest.cpu_pct in
      full
        (meter (format_mem latest.mem_used_bytes) (mem_pct_of latest) m_color
          (map mem_pct_of snapshots))
        (meter (to_fixed 1 latest.cpu_pct ++ codes "%") latest.cpu_pct c_color
          (map cpu_pct_of snapshots))
        (codes " / " ++ format_mem latest.mem_limit_bytes) (format_wall (of_numeral latest.wall_ms))

  unfoldable pub compact_pill : List (VitalsSnapshot num) → Option (VitalsSnapshot num) → Display
  compact_pill snapshots none = dash
  compact_pill snapshots (some latest) =
      let mem_pct = mem_pct_of latest in
      let c_color = pct_color num latest.cpu_pct in
      let m_color = mem_color latest.mem_used_bytes latest.mem_limit_bytes in
      pill (record { samples = map cpu_pct_of snapshots; colour = c_color })
        (to_text (round latest.cpu_pct) ++ codes "%") (format_mem latest.mem_used_bytes)
        (to_fixed 0 mem_pct ++ codes "%") (codes "Mem: " ++ to_fixed 0 mem_pct ++ codes "%") c_color
        m_color m_color

  -- What `AgentVitals` renders.
  unfoldable pub agent_vitals : (compact : Bool) → Hud num → Display
  unfolding full_panel compact_pill
  agent_vitals compact h =
      if compact then compact_pill h.snapshots h.latest else full_panel h.snapshots h.latest
