-- ===== src/Terminal/Xterm/Kept.antt =====
-- frontend/components/Terminal.tsx: what each event keeps of the xterm instances and their palettes.
use mathlib.Core.Path.{subst}
use isolator_v_wasm_sandbox.Common.{
  ℕ, ◌+◌, ◌≤◌, ◌≡◌, refl, sym, Bool, true, false, Option, none, some, List, [], ◌∷◌, ◌++◌,
  if◌then◌else◌, length, length-append, All, All-append, Bool-cases, inl, inr, arith,
}
use isolator_v_wasm_sandbox.Theme.{Page, ThemeName, toggle, is_dark, IsShown}
use isolator_v_wasm_sandbox.Terminal.Xterm.{
  Xterm, Stage, Event, mounts, loads_modules, draws_frame, unmounts, toggles, step, run_all,
  get_xterm_theme, xterm_dark, xterm_light, Palette, alive, dispose_loads, recoloured, disposed_of,
  toggled, mount, modules_loaded, first_frame, unmount, loaded_first, ready_first,
}

-- The palette of a theme.
abbrev pub palette_of : ThemeName → Palette
palette_of name = if is_dark name then xterm_dark else xterm_light

-- The effects that wait for their modules and are not disposed.
abbrev pub undisposed : List Bool → ℕ
undisposed [] = 0
undisposed (disposed ∷ loads) = (if disposed then 0 else 1) + undisposed loads

-- The component is mounted only when it is not, and while an instance waits for its first frame
-- neither the theme changes nor the component goes.
abbrev pub IsCalm : Event → Stage → Type 0
IsCalm mounts s = s.is_mounted ≡ false
IsCalm loads_modules s = Unit
IsCalm draws_frame s = Unit
IsCalm unmounts s = s.waiting ≡ []
IsCalm (toggles saved) s = s.waiting ≡ []

abbrev pub AreCalm : List Event → Stage → Type 0
AreCalm [] s = Unit
AreCalm (e ∷ es) s = IsCalm e s × AreCalm es (step e s)

abbrev pub HasTheme : Page → Xterm → Type 0
HasTheme p x = (x.theme ≡ palette_of p.theme) × (x.disposed ≡ false)

abbrev pub RefHasTheme : Page → Option Xterm → Type 0
RefHasTheme p none = Unit
RefHasTheme p (some x) = (x.disposed ≡ false) → x.theme ≡ palette_of p.theme

abbrev pub room : Bool → ℕ
room true = 1
room false = 0

pub record IsKept (s : Stage) : Type 0 where
  pub shown : IsShown s.page
  pub waiting_themes : All (HasTheme s.page) s.waiting
  pub ref_theme : RefHasTheme s.page s.xterm
  pub reachable : s.opened ≡ length s.waiting + alive s.xterm
  pub one_life : undisposed s.loads + length s.waiting + alive s.xterm ≤ room s.is_mounted

undisposed-append : (xs : List Bool) → undisposed (xs ++ false ∷ []) ≡ undisposed xs + 1
undisposed-append [] = refl
undisposed-append (x ∷ xs) = omega (arith, undisposed-append xs)

undisposed-dispose_loads : (xs : List Bool) → undisposed (dispose_loads xs) ≡ 0
undisposed-dispose_loads [] = refl
undisposed-dispose_loads (x ∷ xs) = omega (arith, undisposed-dispose_loads xs)

pub get_xterm_theme-IsShown : (p : Page) → IsShown p → get_xterm_theme p ≡ palette_of p.theme
unfolding get_xterm_theme
get_xterm_theme-IsShown p (_, light_class) = elim (Bool-cases (is_dark p.theme)) [
  | inl e ↦ rw (light_class, e)
  | inr e ↦ rw (light_class, e)
]

mount-IsKept : (s : Stage) → s.is_mounted ≡ false → IsKept s → IsKept (mount s)
unfolding mount
mount-IsKept s c k = record {
  shown = k.shown;
  waiting_themes = k.waiting_themes;
  ref_theme = k.ref_theme;
  reachable = k.reachable;
  one_life = ground (arith, undisposed-append s.loads, k.one_life, c);
}

loaded_first-IsKept :
    (loads : List Bool) (s : Stage)
    → IsKept (record s { loads = loads })
    → IsKept (loaded_first loads (record s { loads = loads }))
loaded_first-IsKept [] s k = k
loaded_first-IsKept (true ∷ loads) s k = record {
  shown = k.shown;
  waiting_themes = k.waiting_themes;
  ref_theme = k.ref_theme;
  reachable = k.reachable;
  one_life = ground (arith, k.one_life);
}
loaded_first-IsKept (false ∷ loads) s k =
    let x : Xterm = record { theme = get_xterm_theme s.page; disposed = false } in
    let size = length-append s.waiting (x ∷ []) in
    record {
      shown = k.shown;
      waiting_themes =
          All-append (HasTheme s.page) s.waiting (x ∷ []) k.waiting_themes
            ((get_xterm_theme-IsShown s.page k.shown, refl), tt);
      ref_theme = k.ref_theme;
      reachable = omega (arith, size, k.reachable);
      one_life = omega (arith, size, k.one_life);
    }

ready_first-IsKept :
    (waiting : List Xterm) (s : Stage)
    → IsKept (record s { waiting = waiting })
    → IsKept (ready_first waiting (record s { waiting = waiting }))
ready_first-IsKept [] s k = k
ready_first-IsKept (x ∷ waiting) s k =
    let ((theme, live), rest) = k.waiting_themes in
    let counted : alive (some x) ≡ 1 = rw live in
    let room_le : room s.is_mounted ≤ 1 = ground arith in
    record {
      shown = k.shown;
      waiting_themes = rest;
      ref_theme = λ _. theme;
      reachable = omega (arith, counted, room_le, k.reachable, k.one_life);
      one_life = omega (arith, counted, room_le, k.one_life);
    }

alive-recoloured : (p : Page) (o : Option Xterm) → alive (recoloured p o) ≡ alive o
alive-recoloured p none = refl
alive-recoloured p (some x) = refl

recoloured-RefHasTheme : (p : Page) (o : Option Xterm) → IsShown p → RefHasTheme p (recoloured p o)
recoloured-RefHasTheme p none h = tt
recoloured-RefHasTheme p (some x) h = λ _. get_xterm_theme-IsShown p h

dead-RefHasTheme : (p : Page) (o : Option Xterm) → alive o ≡ 0 → RefHasTheme p o
dead-RefHasTheme p none e = tt
dead-RefHasTheme p (some x) e = λ live. absurd (ground (arith, e, live))

disposed_of-RefHasTheme : (p : Page) (o : Option Xterm) → RefHasTheme p (disposed_of o)
disposed_of-RefHasTheme p none = tt
disposed_of-RefHasTheme p (some x) = λ live. absurd (cc live)

alive-disposed_of : (o : Option Xterm) → alive (disposed_of o) ≡ 0
alive-disposed_of none = refl
alive-disposed_of (some x) = refl

toggled-IsKept : (saved : Bool) (s : Stage) → s.waiting ≡ [] → IsKept s → IsKept (toggled saved s)
unfolding toggled toggle
toggled-IsKept saved s c k =
    let p = toggle saved s.page in
    elim (Bool-cases s.is_mounted) [
      | inl e ↦ record {
        shown = (refl, refl);
        waiting_themes = subst (All (HasTheme p)) (sym c) tt;
        ref_theme = rw e (recoloured-RefHasTheme p s.xterm (refl, refl));
        reachable = rw (e, alive-recoloured) k.reachable;
        one_life = rw (e, alive-recoloured) (rw e at k.one_life);
      }
      | inr e ↦ record {
        shown = (refl, refl);
        waiting_themes = subst (All (HasTheme p)) (sym c) tt;
        ref_theme = rw e (dead-RefHasTheme p s.xterm (ground (arith, e, k.one_life)));
        reachable = rw e k.reachable;
        one_life = rw e (rw e at k.one_life);
      }
    ]

unmount-IsKept : (s : Stage) → s.waiting ≡ [] → IsKept s → IsKept (unmount s)
unfolding unmount
unmount-IsKept s c k =
    let none_waits : length s.waiting ≡ 0 = rw c in
    record {
      shown = k.shown;
      waiting_themes = k.waiting_themes;
      ref_theme = disposed_of-RefHasTheme s.page s.xterm;
      reachable = omega (arith, none_waits, alive-disposed_of s.xterm, k.reachable);
      one_life =
          omega (arith, none_waits, alive-disposed_of s.xterm, undisposed-dispose_loads s.loads);
    }

step-IsKept : (e : Event) (s : Stage) → IsCalm e s → IsKept s → IsKept (step e s)
unfolding step
step-IsKept mounts s c k = mount-IsKept s c k
step-IsKept loads_modules s c k = unfold modules_loaded in loaded_first-IsKept s.loads s k
step-IsKept draws_frame s c k = unfold first_frame in ready_first-IsKept s.waiting s k
step-IsKept unmounts s c k = unmount-IsKept s c k
step-IsKept (toggles saved) s c k = toggled-IsKept saved s c k

pub run_all-IsKept : (es : List Event) (s : Stage) → AreCalm es s → IsKept s → IsKept (run_all es s)
unfolding run_all
run_all-IsKept [] s c k = k
run_all-IsKept (e ∷ es) s (c, cs) k = run_all-IsKept es (step e s) cs (step-IsKept e s c k)
