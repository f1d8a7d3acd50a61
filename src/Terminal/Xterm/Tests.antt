-- ===== src/Terminal/Xterm/Tests.antt =====
-- The theorem on the xterm instance of frontend/components/Terminal.tsx at concrete events.
use isolator_v_wasm_sandbox.Common.{◌≡◌, ◌≤◌, refl, true, false, none, some, List, [], ◌∷◌}
use isolator_v_wasm_sandbox.Theme.{Page, dark}
use isolator_v_wasm_sandbox.Terminal.Xterm.{
  Event, mounts, loads_modules, draws_frame, unmounts, toggles, run_all, unmounted_on,
}
use isolator_v_wasm_sandbox.Terminal.Xterm.Kept.{palette_of}
use isolator_v_wasm_sandbox.Terminal.Xterm.Follows.{FollowsTheme, run_all-FollowsTheme}

abbrev served : Page
served = record { theme = dark; dark_class = true; light_class = false; stored = none }

-- React's strict mode mounts twice; the second instance is then recoloured.
abbrev strict_events : List Event
strict_events =
    mounts ∷ unmounts ∷ mounts ∷ loads_modules ∷ loads_modules ∷ draws_frame ∷ toggles true ∷ []

run_all-FollowsTheme_example :
    FollowsTheme (run_all strict_events (unmounted_on served))
    × ((run_all strict_events (unmounted_on served)).opened ≤ 1)
    × ((run_all strict_events (unmounted_on served)).is_mounted ≡ false
        → (run_all strict_events (unmounted_on served)).opened ≡ 0)
    × ((run_all (mounts ∷ loads_modules ∷ draws_frame ∷ []) (unmounted_on served)).xterm
        ≡ some (record { theme = palette_of dark; disposed = false }))
unfolding run_all unmounted_on
run_all-FollowsTheme_example =
    run_all-FollowsTheme strict_events served (refl, refl)
      (refl, (refl, (refl, (tt, (tt, (tt, (refl, tt)))))))

strict_mode : (run_all strict_events (unmounted_on served)).opened ≡ 1
unfolding run_all unmounted_on
strict_mode = refl
