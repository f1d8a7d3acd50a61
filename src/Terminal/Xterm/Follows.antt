-- ===== src/Terminal/Xterm/Follows.antt =====
-- frontend/components/Terminal.tsx: the xterm instance follows the theme of the page, and none is left
-- open.
use mathlib.Core.Path.{subst}
use isolator_v_wasm_sandbox.Common.{
  ◌≤◌, ◌≡◌, refl, Bool, false, Option, none, some, List, [], ◌∷◌, arith,
}
use isolator_v_wasm_sandbox.Theme.{Page, IsShown}
use isolator_v_wasm_sandbox.Terminal.Xterm.{
  Xterm, Stage, Event, mounts, loads_modules, draws_frame, unmounts, toggles, run_all, unmounted_on,
  get_xterm_theme,
}
use isolator_v_wasm_sandbox.Terminal.Xterm.Kept.{
  palette_of, AreCalm, RefHasTheme, room, IsKept, run_all-IsKept, get_xterm_theme-IsShown,
}

-- What holds of the instance in the ref: while it is open, it has the palette of the theme.
abbrev pub FollowsTheme : Stage → Type 0
FollowsTheme s =
    (x : Xterm) → s.xterm ≡ some x → x.disposed ≡ false → x.theme ≡ palette_of s.page.theme

ref-FollowsTheme :
    (p : Page) (o : Option Xterm)
    → RefHasTheme p o
    → (x : Xterm) → o ≡ some x
    → x.disposed ≡ false
    → x.theme ≡ palette_of p.theme
ref-FollowsTheme p none h x e live = cc e
ref-FollowsTheme p (some y) h x e live =
    let same : y ≡ x = cc e in
    subst (λ (z : Xterm). z.disposed ≡ false → z.theme ≡ palette_of p.theme) same h live

kept-FollowsTheme :
    (s : Stage) → IsKept s → FollowsTheme s × (s.opened ≤ 1) × (s.is_mounted ≡ false → s.opened ≡ 0)
kept-FollowsTheme s k =
    let room_le : room s.is_mounted ≤ 1 = ground arith in
    (
      ref-FollowsTheme s.page s.xterm k.ref_theme,
      omega (arith, room_le, k.reachable, k.one_life),
      λ e. ground (arith, e, k.reachable, k.one_life),
    )

-- Over any sequence of events from a page that has the classes of its theme, in which the component
-- is mounted only when it is not, and neither the theme changes nor the component goes while an
-- instance waits for its first frame: an open instance in the ref has the palette of the theme that
-- the toggle shows, at most one instance is open, and none while the component is not mounted. And a
-- mount, the modules and a frame put an open instance with that palette in the ref.
pub run_all-FollowsTheme :
    (es : List Event) (p : Page)
    → IsShown p
    → AreCalm es (unmounted_on p)
    → let s = run_all es (unmounted_on p) in
      FollowsTheme s
      × (s.opened ≤ 1)
      × (s.is_mounted ≡ false → s.opened ≡ 0)
      × ((run_all (mounts ∷ loads_modules ∷ draws_frame ∷ []) (unmounted_on p)).xterm
          ≡ some (record { theme = palette_of p.theme; disposed = false }))
unfolding unmounted_on run_all
run_all-FollowsTheme es p h c =
    let k = run_all-IsKept es (unmounted_on p) c (record {
      shown = h;
      waiting_themes = tt;
      ref_theme = tt;
      reachable = refl;
      one_life = omega arith;
    }) in
    let (follows, one, gone) = kept-FollowsTheme (run_all es (unmounted_on p)) k in
    (follows, one, gone, rw (get_xterm_theme-IsShown p h))

-- Without the condition: a component that goes between the modules and the first frame leaves an
-- open instance behind.
pub early_unmount :
    (p : Page)
    → let s = run_all (mounts ∷ loads_modules ∷ unmounts ∷ draws_frame ∷ []) (unmounted_on p) in
      (s.is_mounted ≡ false) × (s.opened ≡ 1)
unfolding unmounted_on run_all
early_unmount p = (refl, refl)

-- And a theme that changes there leaves the instance with the palette of the one before.
pub early_toggle :
    (saved : Bool) (p : Page)
    → (run_all (mounts ∷ loads_modules ∷ toggles saved ∷ draws_frame ∷ []) (unmounted_on p)).xterm
      ≡ some (record { theme = get_xterm_theme p; disposed = false })
unfolding unmounted_on run_all
early_toggle saved p = refl
