-- ===== src/Tooltip.antt =====
-- frontend/components/Tooltip.tsx: the state of a tooltip and its timers.
pub mod Laws
mod Tests
use isolator_v_wasm_sandbox.Common.{
  Text, is_truthy, ℕ, suc, ◌==◌, Bool, true, false, Option, none, some, List, [], ◌∷◌,
  if◌then◌else◌,
}

-- The state, `timerRef`, and the timers of the browser that have not fired, by their ids; `next_id`
-- is the id of the next one.
pub record Tooltip : Type 0 where
  pub visible : Bool
  pub timer_ref : Option ℕ
  pub pending : List ℕ
  pub next_id : ℕ

unfoldable pub mounted : Tooltip
mounted = record { visible = false; timer_ref = none; pending = []; next_id = 1 }

abbrev pub mem : ℕ → List ℕ → Bool
mem id [] = false
mem id (t ∷ ts) = if t == id then true else mem id ts

-- `clearTimeout`
abbrev pub clear_timeout : ℕ → List ℕ → List ℕ
clear_timeout id [] = []
clear_timeout id (t ∷ ts) = if t == id then clear_timeout id ts else t ∷ clear_timeout id ts

abbrev armed : Tooltip → Tooltip
armed t = record t {
  timer_ref = some t.next_id;
  pending = t.next_id ∷ t.pending;
  next_id = suc t.next_id;
}

-- `disabled` is the prop.
unfoldable pub show : Bool → Tooltip → Tooltip
show disabled t = if disabled then t else armed t

abbrev cleared : Option ℕ → List ℕ → List ℕ
cleared none pending = pending
cleared (some id) pending = clear_timeout id pending

unfoldable pub hide : Tooltip → Tooltip
hide t = record t { visible = false; pending = cleared t.timer_ref t.pending }

-- The callback of a timer that has not fired or been cleared.
unfoldable pub fire : ℕ → Tooltip → Tooltip
fire id t =
    if mem id t.pending
    then record t { visible = true; pending = clear_timeout id t.pending }
    else t

-- A scroll or a key, which the effect listens to while the tooltip is visible.
unfoldable pub dismiss : Tooltip → Tooltip
dismiss t = if t.visible then record t { visible = false } else t

-- The events of the wrapper, the timers and the window; the first two come with the prop.
pub data Event : Type 0 where
  mouse_enter focus : (disabled : Bool) → Event
  mouse_leave blur : Event
  timer : ℕ → Event
  scrolled key_down : Event

unfoldable pub step : Event → Tooltip → Tooltip
step (mouse_enter disabled) t = show disabled t
step (focus disabled) t = show disabled t
step mouse_leave t = hide t
step blur t = hide t
step (timer id) t = fire id t
step scrolled t = dismiss t
step key_down t = dismiss t

unfoldable pub run_all : List Event → Tooltip → Tooltip
run_all [] t = t
run_all (e ∷ es) t = run_all es (step e t)

-- What is rendered beside the children while the tooltip is visible.
pub data Side : Type 0 where
  top bottom : Side

pub record Popup : Type 0 where
  pub content : Text
  pub keys : Option Text
  pub side : Side

abbrev pub shortcut_of : Option Text → Option Text
shortcut_of none = none
shortcut_of (some s) = if is_truthy s then some s else none

unfoldable pub popup : (content : Text) (shortcut : Option Text) → Side → Tooltip → Option Popup
popup content shortcut side t =
    if t.visible
    then some (record { content = content; keys = shortcut_of shortcut; side = side })
    else none
