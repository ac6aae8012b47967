-- ===== src/Navigation/SignedOut.antt =====
-- sidebar.tsx and ThemeProvider.tsx: what signing out shows, and that a chosen theme is kept.
use otel_hive.Base.{
  ◌≡◌, refl, ap, sym, subst, Bool, false, Bool-cases, inl, inr, ◌⊎◌, Option, none, some,
}
use otel_hive.Text.{Text, text, text_eq}
use otel_hive.Api.{Reader}
use otel_hive.Auth.{TokenPair, Client, run, unauthenticated}
use otel_hive.Routes.{Page, login, goes, shows, is_public, guarded, view}
use otel_hive.Navigation.Menu.{User, app_sidebar, handle_logout}
use otel_hive.Navigation.Theme.{Themed, initial_theme, next_theme, cycle_theme}

-- Signing out shows the login page, closes all pages behind the guard and removes the menu of the user.
pub handle_logout-view :
    {J : Type 0} (read : Reader J) (tokens_of : J → Option TokenPair) (c : Client J User)
    (expanded : Bool) (pathname : Text) (p : Page)
    → let (d, address) = handle_logout read tokens_of c in
      (view d.status address ≡ shows login)
      × (is_public p ≡ false → view d.status p ≡ goes login)
      × ((app_sidebar expanded pathname d.user).menu ≡ none)
unfolding handle_logout run app_sidebar
handle_logout-view read tokens_of c expanded pathname p =
    (refl, λ e. ap (λ b. guarded b unauthenticated p) e, refl)

next_theme-cases :
    (t : Text)
    → (next_theme t ≡ text "dark") ⊎ (next_theme t ≡ text "system") ⊎ (next_theme t ≡ text "light")
unfolding next_theme
next_theme-cases t = elim (Bool-cases (text_eq t (text "light"))) [
  | inl h ↦ inl (rw h refl)
  | inr h ↦ elim (Bool-cases (text_eq t (text "dark"))) [
    | inl k ↦ inr (inl (rw (h, k) refl))
    | inr k ↦ inr (inr (rw (h, k) refl))
  ]
]

-- A theme that is stored is the one that a page loaded anew has, and three clicks lead back to it.
abbrev IsKept : Text → Text → Type 0
IsKept default_theme theme =
    (initial_theme default_theme (some theme) ≡ theme)
    × (next_theme (next_theme (next_theme theme)) ≡ theme)

next_theme-IsKept : (default_theme t : Text) → IsKept default_theme (next_theme t)
unfolding next_theme text_eq
next_theme-IsKept default_theme t = elim (next_theme-cases t) [
  | inl h ↦ subst (IsKept default_theme) (sym h) (refl, refl)
  | inr (inl h) ↦ subst (IsKept default_theme) (sym h) (refl, refl)
  | inr (inr h) ↦ subst (IsKept default_theme) (sym h) (refl, refl)
]

-- After a click the page that is loaded anew has the theme that is shown, and three more clicks lead
-- back to it.
pub cycle_theme_lem :
    (default_theme : Text) (s : Themed)
    → let once = cycle_theme s in
      (initial_theme default_theme once.stored ≡ once.theme)
      × ((cycle_theme (cycle_theme (cycle_theme once))).theme ≡ once.theme)
unfolding cycle_theme
cycle_theme_lem default_theme s = next_theme-IsKept default_theme s.theme
