-- ===== src/Theme/Tests.antt =====
-- frontend/components/ThemeToggle.tsx at a concrete page.
use isolator_v_wasm_sandbox.Common.{◌≡◌, refl, true, false, none, some, [], ◌∷◌}
use isolator_v_wasm_sandbox.Theme.{Page, dark, light, toggle_all}

abbrev served : Page
served = record { theme = dark; dark_class = true; light_class = false; stored = none }

-- The storage takes the first of two clicks only.
stored_once : (toggle_all (true ∷ false ∷ []) served).stored ≡ some light
unfolding toggle_all
stored_once = refl
