-- ===== src/Health.antt =====
-- frontend/components/OrchestratorStatus.tsx: the health probe, its back-off and the countdown to the
-- next probe.
mod Tests
pub mod Laws
pub mod Tip
use isolator_v_wasm_sandbox.Common.{
  ℕ, ◌+◌, ◌-◌, ◌*◌, ◌/◌, Bool, true, false, ◌&&◌, Option, none, some, List, [], ◌∷◌, if◌then◌else◌,
  ltb, leb,
}
use isolator_v_wasm_sandbox.Common.Backoff.{double_capped}

abbrev pub poll_base_ms : ℕ
poll_base_ms = 10000

abbrev pub poll_max_ms : ℕ
poll_max_ms = 120000

pub data HealthState : Type 0 where
  checking online offline : HealthState

-- What the probe meets: the fetch throws, or a response with a status.
pub data Reply : Type 0 where
  threw : Reply
  response : ℕ → Reply

unfoldable pub check_health : Reply → Bool
check_health threw = false
check_health (response status) = leb 200 status && ltb status 300

-- The component's state and refs. `countdown` is the variable `remaining` of the interval that runs,
-- `none` where `countdownRef` is null; `timer` is the delay of the timeout that is set.
pub record Status : Type 0 where
  pub status : HealthState
  pub retry_in : Option ℕ
  pub backoff_ms : ℕ
  pub countdown : Option ℕ
  pub timer : Option ℕ

unfoldable pub mounted : Status
mounted = record {
  status = checking;
  retry_in = none;
  backoff_ms = poll_base_ms;
  countdown = none;
  timer = none;
}

abbrev pub clear_countdown : Status → Status
clear_countdown s = record s { countdown = none; retry_in = none }

-- `Math.round(totalMs / 1000)`, ties up.
abbrev pub seconds : ℕ → ℕ
seconds ms = (2 * ms + 1000) / 2000

abbrev pub start_countdown : ℕ → Status → Status
start_countdown total_ms s = record s {
  countdown = some (seconds total_ms);
  retry_in = some (seconds total_ms);
}

-- The interval's callback: one second has passed. `remaining` is positive when it runs.
abbrev pub count_down : Option ℕ → Status → Status
count_down none s = s
count_down (some remaining) s =
    if leb remaining 1
    then clear_countdown s
    else record s { countdown = some (remaining - 1); retry_in = some (remaining - 1) }

unfoldable pub second_passed : Status → Status
second_passed s = count_down s.countdown s

abbrev alive_again : Status → Status
alive_again s = record (clear_countdown s) {
  backoff_ms = poll_base_ms;
  status = online;
  timer = some poll_base_ms;
}

abbrev gone : ℕ → Status → Status
gone delay s = record (start_countdown delay s) {
  status = offline;
  backoff_ms = delay;
  timer = some delay;
}

-- One run of `poll` with the reply that its probe met.
unfoldable pub poll : Reply → Status → Status
poll reply s =
    if check_health reply then alive_again s else gone (double_capped poll_max_ms s.backoff_ms) s

pub data Event : Type 0 where
  probed : Reply → Event
  second : Event

unfoldable pub step : Event → Status → Status
step (probed reply) s = poll reply s
step second s = second_passed s

unfoldable pub run_all : List Event → Status → Status
run_all [] s = s
run_all (e ∷ es) s = run_all es (step e s)
