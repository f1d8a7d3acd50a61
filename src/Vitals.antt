-- ===== src/Vitals.antt =====
-- frontend/components/AgentVitals.tsx: the telemetry poll and its window of snapshots. The numbers
-- of the telemetry are floats, which the poll only passes on: they enter as an interface.
mod Tests
mod DisplayTests
pub mod Delays
pub mod Window
pub mod Panels
pub mod Formats
pub mod Sparkline
pub mod Current
use isolator_v_wasm_sandbox.Common.{
  ℕ, suc, ◌+◌, Bool, true, false, ◌&&◌, Option, none, some, List, [], ◌∷◌, ◌++◌, length,
  if◌then◌else◌, ltb, leb, ◌==◌,
}
use isolator_v_wasm_sandbox.Common.Backoff.{double_capped}

-- JavaScript numbers: those that are written as numerals, and the test `x >= n` against one.
pub record JsNumber : Type 1 where
  pub Number : Type 0
  pub of_numeral : ℕ → Number
  pub at_least : Number → ℕ → Bool

abbrev pub poll_interval_ms : ℕ
poll_interval_ms = 800

abbrev pub poll_backoff_base_ms : ℕ
poll_backoff_base_ms = 5000

abbrev pub poll_backoff_max_ms : ℕ
poll_backoff_max_ms = 30000

abbrev pub sparkline_samples : ℕ
sparkline_samples = 60

abbrev pub mem_limit_bytes : ℕ
mem_limit_bytes = 52428800

pub data Colour : Type 0 where
  danger warn ok_colour : Colour

-- `Math.min(backoffMs * 2, POLL_BACKOFF_MAX_MS)`, and the test behind it.
abbrev pub rebased : ℕ → ℕ
rebased delay = if delay == poll_interval_ms then poll_backoff_base_ms else delay

unfoldable pub next_backoff : ℕ → ℕ
next_backoff delay = rebased (double_capped poll_backoff_max_ms delay)

abbrev pub shift {ℓ} : {A : Type ℓ} → List A → List A
shift [] = []
shift (x ∷ xs) = xs

abbrev pub trim {ℓ} : {A : Type ℓ} → List A → List A
trim xs = if ltb sparkline_samples (length xs) then shift xs else xs

module _ (num : JsNumber) where
  open num use {Number, of_numeral, at_least}

  pub record VitalsSnapshot : Type 0 where
    pub mem_used_bytes : Number
    pub mem_limit_bytes : Number
    pub cpu_pct : Number
    pub wall_ms : ℕ

  -- The JSON body of a response.
  pub record Body : Type 0 where
    pub mem_used_bytes : Number
    pub mem_limit_bytes : Number
    pub cpu_pct : Number

  -- What the fetch meets: it throws, as a network error or otherwise, or there is a response with a
  -- status and, where it can be parsed, a body.
  pub data Reply : Type 0 where
    threw : (network_error : Bool) → Reply
    response : ℕ → Option Body → Reply

  pub data VitalsFetchResult : Type 0 where
    ok : VitalsSnapshot → VitalsFetchResult
    failed : (network_error : Bool) → VitalsSnapshot → VitalsFetchResult

  abbrev pub fallback_of : ℕ → Option VitalsSnapshot → VitalsSnapshot
  fallback_of elapsed none = record {
    mem_used_bytes = of_numeral 0;
    mem_limit_bytes = of_numeral 52428800;
    cpu_pct = of_numeral 0;
    wall_ms = elapsed;
  }
  fallback_of elapsed (some prev) = record prev { wall_ms = elapsed }

  abbrev snapshot_of : ℕ → Body → VitalsSnapshot
  snapshot_of elapsed json = record {
    mem_used_bytes = json.mem_used_bytes;
    mem_limit_bytes = json.mem_limit_bytes;
    cpu_pct = json.cpu_pct;
    wall_ms = elapsed;
  }

  -- A body that cannot be parsed throws a SyntaxError, which is no network error.
  abbrev read_body : ℕ → Option VitalsSnapshot → Option Body → VitalsFetchResult
  read_body elapsed prev none = failed false (fallback_of elapsed prev)
  read_body elapsed prev (some json) = ok (snapshot_of elapsed json)

  unfoldable pub fetch_vitals : Reply → ℕ → Option VitalsSnapshot → VitalsFetchResult
  fetch_vitals (threw network_error) elapsed prev = failed network_error (fallback_of elapsed prev)
  fetch_vitals (response status body) elapsed prev =
      if leb 200 status && ltb status 300
      then read_body elapsed prev body
      else failed false (fallback_of elapsed prev)

  -- The refs of the component, the render counter and the variable `backoffMs`.
  pub record Hud : Type 0 where
    pub snapshots : List VitalsSnapshot
    pub latest : Option VitalsSnapshot
    pub backoff_ms : ℕ
    pub tick : ℕ

  unfoldable pub mounted : Hud
  mounted = record { snapshots = []; latest = none; backoff_ms = poll_interval_ms; tick = 0 }

  abbrev pub record_snapshot : VitalsSnapshot → ℕ → Hud → Hud
  record_snapshot s delay h = record {
    snapshots = trim (h.snapshots ++ s ∷ []);
    latest = some s;
    backoff_ms = delay;
    tick = h.tick + 1;
  }

  abbrev pub absorb : VitalsFetchResult → Hud → Hud
  absorb (ok snapshot) h = record_snapshot snapshot poll_interval_ms h
  absorb (failed network_error fallback) h =
      record_snapshot fallback (if network_error then next_backoff h.backoff_ms else h.backoff_ms) h

  -- One run of `poll`, `elapsed` milliseconds after the effect began.
  unfoldable pub poll : Reply → ℕ → Hud → Hud
  poll reply elapsed h = absorb (fetch_vitals reply elapsed h.latest) h

  -- The effect without a running session, and with one: the latter clears nothing but its variables.
  unfoldable pub stopped : Hud → Hud
  stopped h = record h { snapshots = []; latest = none; tick = 0 }

  unfoldable pub started : Hud → Hud
  started h = record h { backoff_ms = poll_interval_ms }

  pub data Event : Type 0 where
    polled : Reply → ℕ → Event
    stop start : Event

  unfoldable pub step : Event → Hud → Hud
  step (polled reply elapsed) h = poll reply elapsed h
  step stop h = stopped h
  step start h = started h

  unfoldable pub run_all : List Event → Hud → Hud
  run_all [] h = h
  run_all (e ∷ es) h = run_all es (step e h)

  unfoldable pub pct_color : Number → Colour
  pct_color pct = if at_least pct 90 then danger else if at_least pct 70 then warn else ok_colour
