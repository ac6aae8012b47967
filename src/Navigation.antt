-- ===== src/Navigation.antt =====
-- ui/src/layout.tsx, layout/sidebar.tsx and layout/mode-toggle.tsx: the frame around the pages, whose
-- side bar is open as a cookie says; and getCookie of ui/src/lib/utils.ts.
pub mod Theme
pub mod Menu
pub mod SignedOut
pub mod Parts
pub mod Cookie
mod Tests
use otel_hive.Base.{
  ℕ, zero, suc, ◌-◌, Bool, true, false, Option, none, some, List, [], ◌∷◌, ◌++◌, map, length, take,
}
use otel_hive.Text.{Text, text, text_eq, truthy, starts_with, split}
use otel_hive.Api.{Reader}
use otel_hive.Auth.{TokenPair, Client, logout_done, run}
use otel_hive.Routes.{
  Page, login, agents, groups, configs, topology, git_sources, audit_log, View, view,
}

-- `s.split(sep)` for a separator that is not empty: the first part and the others. Code units that
-- belong to a separator are counted down.
unfoldable pub parts_from : Text → ℕ → Text → Text × List Text
unfolding starts_with
parts_from sep skip [] = ([], [])
parts_from sep (suc skip) (c ∷ s) = parts_from sep skip s
parts_from sep zero (c ∷ s) = elim (starts_with (c ∷ s) sep) [
  | true ↦ ([], (let (part, parts) = parts_from sep (length sep - 1) s in part ∷ parts))
  | false ↦ (let (part, parts) = parts_from sep 0 s in (c ∷ part, parts))
]

abbrev pub split_text : Text → Text → List Text
split_text sep s = let (part, parts) = parts_from sep 0 s in part ∷ parts

-- `part.split(";").shift() || null`
unfoldable pub before_semicolon : Text → Option Text
unfolding split
before_semicolon part = elim (split b';' part) [ [] ↦ none | value ∷ rest ↦ truthy (some value) ]

-- Of two parts, the last one's value.
abbrev pub last_of_two : List Text → Option Text
last_of_two (a ∷ b ∷ []) = before_semicolon b
last_of_two _ = none

-- `; ${name}=`
abbrev pub separator : Text → Text
separator name = b';' ∷ b' ' ∷ (name ++ (b'=' ∷ []))

-- `cookie` is `document.cookie`.
unfoldable pub get_cookie : Text → Text → Option Text
unfolding parts_from before_semicolon
get_cookie cookie name = last_of_two (split_text (separator name) (b';' ∷ b' ' ∷ cookie))

abbrev pub open_by : Option Text → Bool
open_by none = true
open_by (some v) = text_eq v (text "true")

-- Whether the side bar is open at first.
unfoldable pub default_open : Text → Bool
unfolding get_cookie text_eq
default_open cookie = open_by (get_cookie cookie (text "sidebar_state"))
