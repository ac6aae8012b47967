-- ===== src/Navigation/Theme.antt =====
-- ui/src/components/ThemeProvider.tsx and ui/src/layout/mode-toggle.tsx: the theme, which the browser
-- keeps under a key of the local storage.
use otel_hive.Base.{Bool, Option, none, some, if◌then◌else◌}
use otel_hive.Text.{Text, text, text_eq, truthy}

-- The entry of the storage, and the theme of the page.
pub record Themed : Type 0 where
  pub stored : Option Text
  pub theme : Text

-- `localStorage.getItem(storageKey) || defaultTheme`
abbrev pub initial_theme : Text → Option Text → Text
initial_theme default_theme stored = elim (truthy stored) [ none ↦ default_theme | some t ↦ t ]

abbrev pub mounted : Text → Option Text → Themed
mounted default_theme stored = record {
  stored = stored;
  theme = initial_theme default_theme stored;
}

abbrev pub set_theme : Text → Themed → Themed
set_theme theme s = record { stored = some theme; theme = theme }

unfoldable pub next_theme : Text → Text
unfolding text_eq
next_theme theme =
    if text_eq theme (text "light")
    then text "dark"
    else if text_eq theme (text "dark")
    then text "system"
    else text "light"

unfoldable pub cycle_theme : Themed → Themed
unfolding next_theme
cycle_theme s = set_theme (next_theme s.theme) s

-- The class of the document; `prefers_dark` is what the browser says of the system.
unfoldable pub root_class : Bool → Text → Text
unfolding text_eq
root_class prefers_dark theme =
    if text_eq theme (text "system")
    then if prefers_dark then text "dark" else text "light"
    else theme
