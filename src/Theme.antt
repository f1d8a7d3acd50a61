-- ===== src/Theme.antt =====
-- frontend/components/ThemeToggle.tsx: the theme, in the component, on the page and in the storage.
mod Tests
use isolator_v_wasm_sandbox.Common.{
  Text, codes, ◌++◌, arith, ℕ, zero, suc, ◌≡◌, refl, ap, ◌∙◌, Bool, true, false, not, Option, none,
  some, List, [], ◌∷◌, if◌then◌else◌,
}

pub data ThemeName : Type 0 where
  dark light : ThemeName

-- The component's state, the classes of the root element, and the item of the storage.
pub record Page : Type 0 where
  pub theme : ThemeName
  pub dark_class : Bool
  pub light_class : Bool
  pub stored : Option ThemeName

abbrev pub is_dark : ThemeName → Bool
is_dark dark = true
is_dark light = false

abbrev pub other : ThemeName → ThemeName
other dark = light
other light = dark

-- The effect on mount, where reading the storage succeeds.
abbrev pub synced : Option ThemeName → Bool → ThemeName → ThemeName
synced (some t) light_class theme = t
synced none true theme = light
synced none false theme = theme

unfoldable pub mount : Page → Page
mount p = record p { theme = synced p.stored p.light_class dark }

-- A click. `saved` says whether `setItem` succeeds, which it does not in private browsing.
unfoldable pub toggle : (saved : Bool) → Page → Page
toggle saved p =
    let next = other p.theme in
    record {
      theme = next;
      dark_class = is_dark next;
      light_class = not (is_dark next);
      stored = if saved then some next else p.stored;
    }

unfoldable pub toggle_all : List Bool → Page → Page
unfolding toggle
toggle_all [] p = p
toggle_all (saved ∷ more) p = toggle_all more (toggle saved p)

-- The classes of the page are those of the theme.
abbrev pub IsShown : Page → Type 0
IsShown p = (p.dark_class ≡ is_dark p.theme) × (p.light_class ≡ not (is_dark p.theme))

-- A page that has the class of the component's theme has it after any number of clicks, whether or not
-- the storage works.
pub toggle_all-IsShown : (clicks : List Bool) (p : Page) → IsShown p → IsShown (toggle_all clicks p)
unfolding toggle_all
toggle_all-IsShown [] p h = h
toggle_all-IsShown (saved ∷ clicks) p h = toggle_all-IsShown clicks (toggle saved p) (refl, refl)

-- The button: its label, which is its title too, and its icon.
pub data Icon : Type 0 where
  sun moon : Icon

pub record ToggleButton : Type 0 where
  pub label : Text
  pub icon : Icon

unfoldable pub toggle_button : ThemeName → ToggleButton
toggle_button dark = record { label = codes "Switch to light mode"; icon = sun }
toggle_button light = record { label = codes "Switch to dark mode"; icon = moon }

abbrev pub mode_word : ThemeName → Text
mode_word dark = codes "dark"
mode_word light = codes "light"

-- The button names the theme that a click on it brings, whether or not it is saved.
pub toggle_button-toggle :
    (saved : Bool) (p : Page)
    → (toggle_button p.theme).label
      ≡ codes "Switch to " ++ mode_word (toggle saved p).theme ++ codes " mode"
unfolding toggle_button toggle
toggle_button-toggle saved p = ground arith
