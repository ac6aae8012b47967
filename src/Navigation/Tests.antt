-- ===== src/Navigation/Tests.antt =====
-- Cookies, with an instance of the theorem, and the bar of a user.
use otel_hive.Base.{◌≡◌, refl, true, false, none, some, [], ◌∷◌, arith, map}
use otel_hive.Text.{Text, text, text_eq}
use otel_hive.Navigation.{get_cookie, default_open}
use otel_hive.Navigation.Parts.{IsOther, cookie_text}
use otel_hive.Navigation.Cookie.{get_cookie-cookie_text}
use otel_hive.Navigation.Menu.{MenuLink, app_sidebar}

second_cookie : default_open (text "theme=dark; sidebar_state=false; a=b") ≡ false
unfolding default_open
second_cookie = refl

empty_cookie : get_cookie [] (text "a") ≡ none
unfolding get_cookie
empty_cookie = refl

-- A name that stands twice, for two paths, counts as none.
twice : default_open (text "sidebar_state=false; sidebar_state=false") ≡ true
unfolding default_open
twice = refl

abbrev x_cookie : Text × Text
x_cookie = (text "x", text "=")

x_cookie-IsOther : IsOther (text "y") x_cookie
unfolding text_eq
x_cookie-IsOther = (
  refl,
  ((λ e. omega (arith, e)), tt),
  ((λ e. omega (arith, e)), tt),
  ((λ e. omega (arith, e)), tt),
)

get_cookie-cookie_text_example :
    (get_cookie (cookie_text (x_cookie ∷ (text "y", text "1") ∷ x_cookie ∷ [])) (text "y")
      ≡ some (text "1"))
    × (get_cookie (cookie_text (x_cookie ∷ [])) (text "y") ≡ none)
get_cookie-cookie_text_example =
    get_cookie-cookie_text (text "y") (text "1") (x_cookie ∷ []) (x_cookie ∷ [])
      ((λ e. omega (arith, e)), tt) ((λ e. omega (arith, e)), tt) (x_cookie-IsOther, tt)
      (x_cookie-IsOther, tt)

-- The address `/` shows the agents, but no link is active there.
no_active_link :
    map (λ (l : MenuLink). l.is_active) (app_sidebar true (text "/") none).links
    ≡ false ∷ false ∷ false ∷ false ∷ false ∷ false ∷ []
unfolding app_sidebar
no_active_link = refl
