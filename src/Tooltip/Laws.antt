-- ===== src/Tooltip/Laws.antt =====
-- frontend/components/Tooltip.tsx: when a tooltip can be visible.
use Prim.{tt, Unit}
use mathlib.Core.Path.{subst}
use isolator_v_wasm_sandbox.Common.{
  Text, ℕ, ◌==◌, ◌≡◌, ◌⊎◌, inl, inr, refl, Bool, true, false, Option, none, some, List, [], ◌∷◌,
  if◌then◌else◌, arith, Bool-cases, if_elim,
}
use isolator_v_wasm_sandbox.Tooltip.{
  Side, popup, Tooltip, mounted, mem, clear_timeout, show, hide, fire, dismiss, Event, mouse_enter,
  focus, mouse_leave, blur, timer, scrolled, key_down, step, run_all, cleared,
}

-- Whether the pointer or the focus is there, where each arrival comes after the last departure.
abbrev pub inside : Bool → List Event → Option Bool
inside here [] = some here
inside here (mouse_enter disabled ∷ es) = let rest = inside true es in if here then none else rest
inside here (focus disabled ∷ es) = let rest = inside true es in if here then none else rest
inside here (mouse_leave ∷ es) = inside false es
inside here (blur ∷ es) = inside false es
inside here (timer id ∷ es) = inside here es
inside here (scrolled ∷ es) = inside here es
inside here (key_down ∷ es) = inside here es

-- Nothing is shown and no timer runs.
pub record IsAtRest (t : Tooltip) : Type 0 where
  pub hidden : t.visible ≡ false
  pub no_timer : t.pending ≡ []

-- At most the timer that is remembered runs.
abbrev pub IsTidy : Tooltip → Type 0
IsTidy t = (t.pending ≡ []) ⊎ ((id : ℕ) × (t.timer_ref ≡ some id) × (t.pending ≡ id ∷ []))

-- While the pointer or the focus is there, and while not.
abbrev pub Holds : Bool → Tooltip → Type 0
Holds true t = IsTidy t
Holds false t = IsAtRest t

at_rest-IsTidy : (t : Tooltip) → IsAtRest t → IsTidy t
at_rest-IsTidy t h = inl h.no_timer

clear_one : (id : ℕ) → clear_timeout id (id ∷ []) ≡ []
clear_one id = ground arith

show-Holds : (disabled : Bool) (t : Tooltip) → IsAtRest t → IsTidy (show disabled t)
unfolding show
show-Holds true t h = inl h.no_timer
show-Holds false t h = inr (t.next_id, refl, rw h.no_timer refl)

cleared_nil : (r : Option ℕ) → cleared r [] ≡ []
cleared_nil none = refl
cleared_nil (some id) = refl

hide_idle : (t : Tooltip) → t.pending ≡ [] → IsAtRest (hide t)
unfolding hide
hide_idle t e = record { hidden = refl; no_timer = rw e (cleared_nil t.timer_ref) }

hide-Holds : (here : Bool) (t : Tooltip) → Holds here t → IsAtRest (hide t)
unfolding hide
hide-Holds true t (inl e) = hide_idle t e
hide-Holds true t (inr (id, r, e)) = record { hidden = refl; no_timer = rw r (rw e (clear_one id)) }
hide-Holds false t h = hide_idle t h.no_timer

fire_idle : (id : ℕ) (t : Tooltip) → t.pending ≡ [] → fire id t ≡ t
unfolding fire
fire_idle id t e = let gone : mem id t.pending ≡ false = rw e refl in rw gone refl

fire_one : (k id : ℕ) (t : Tooltip) → t.timer_ref ≡ some k → t.pending ≡ k ∷ [] → IsTidy (fire id t)
unfolding fire
fire_one k id t r e = elim (Bool-cases (k == id)) [
  | inl same ↦
      let found : mem id t.pending ≡ true = rw e (rw same refl) in
      let emptied : clear_timeout id t.pending ≡ [] = rw e (rw same refl) in rw found (inl emptied)
  | inr other ↦
      let missed : mem id t.pending ≡ false = rw e (rw other refl) in rw missed (inr (k, r, e))
]

fire-Holds : (here : Bool) (id : ℕ) (t : Tooltip) → Holds here t → Holds here (fire id t)
fire-Holds true id t (inl e) = rw (fire_idle id t e) (inl e)
fire-Holds true id t (inr (k, r, e)) = fire_one k id t r e
fire-Holds false id t h = rw (fire_idle id t h.no_timer) h

dismiss-Holds : (here : Bool) (t : Tooltip) → Holds here t → Holds here (dismiss t)
unfolding dismiss
dismiss-Holds true t h = if_elim IsTidy t.visible (record t { visible = false }) t h h
dismiss-Holds false t h =
    if_elim IsAtRest t.visible (record t { visible = false }) t
      (record { hidden = refl; no_timer = h.no_timer }) h

-- The promise of `inside` where it gives one.
abbrev HoldsAt : Option Bool → Tooltip → Type 0
HoldsAt none t = Unit {0}
HoldsAt (some here) t = Holds here t

run_all-HoldsAt :
    (es : List Event) (here : Bool) (t : Tooltip)
    → Holds here t
    → HoldsAt (inside here es) (run_all es t)
unfolding run_all step
run_all-HoldsAt [] here t h = h
run_all-HoldsAt (mouse_enter disabled ∷ es) true t h = tt
run_all-HoldsAt (mouse_enter disabled ∷ es) false t h =
    run_all-HoldsAt es true (show disabled t) (show-Holds disabled t h)
run_all-HoldsAt (focus disabled ∷ es) true t h = tt
run_all-HoldsAt (focus disabled ∷ es) false t h =
    run_all-HoldsAt es true (show disabled t) (show-Holds disabled t h)
run_all-HoldsAt (mouse_leave ∷ es) here t h =
    run_all-HoldsAt es false (hide t) (hide-Holds here t h)
run_all-HoldsAt (blur ∷ es) here t h = run_all-HoldsAt es false (hide t) (hide-Holds here t h)
run_all-HoldsAt (timer id ∷ es) here t h =
    run_all-HoldsAt es here (fire id t) (fire-Holds here id t h)
run_all-HoldsAt (scrolled ∷ es) here t h =
    run_all-HoldsAt es here (dismiss t) (dismiss-Holds here t h)
run_all-HoldsAt (key_down ∷ es) here t h =
    run_all-HoldsAt es here (dismiss t) (dismiss-Holds here t h)

mounted-IsAtRest : IsAtRest mounted
unfolding mounted
mounted-IsAtRest = record { hidden = refl; no_timer = refl }

-- If the pointer and the focus never come while one of them is there, then whenever neither is
-- there the tooltip is hidden and no timer runs that could show it.
pub run_all-IsAtRest :
    (es : List Event) → inside false es ≡ some false → IsAtRest (run_all es mounted)
run_all-IsAtRest es h =
    subst (λ o. HoldsAt o (run_all es mounted)) h
      (run_all-HoldsAt es false mounted mounted-IsAtRest)

-- On a tooltip that is not disabled and has no timer, if the pointer and then the focus comes, and
-- both leave before the delay is over, the first timer still fires and shows the tooltip.
pub run_all-stray_timer :
    (t : Tooltip)
    → t.pending ≡ []
    → (run_all
        (mouse_enter false ∷ focus false ∷ mouse_leave ∷ blur ∷ timer t.next_id ∷ [])
        t).visible
      ≡ true
unfolding run_all step show hide fire
run_all-stray_timer t e = ground (arith, e)

-- And so nothing is rendered beside the children.
pub popup-none :
    (es : List Event) (content : Text) (shortcut : Option Text) (side : Side)
    → inside false es ≡ some false
    → popup content shortcut side (run_all es mounted) ≡ none
unfolding popup
popup-none es content shortcut side h = rw ((run_all-IsAtRest es h).hidden)
