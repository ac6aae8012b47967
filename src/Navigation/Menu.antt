-- ===== src/Navigation/Menu.antt =====
-- ui/src/layout/sidebar.tsx: the links and the menu of the user, and the way out of the session.
use otel_hive.Base.{Bool, Option, none, some, List, [], ◌∷◌, map, take, if◌then◌else◌}
use otel_hive.Text.{Text, text, text_eq}
use otel_hive.Api.{Reader}
use otel_hive.Auth.{TokenPair, Client, logout_done, run}
use otel_hive.Routes.{Page, login}

pub record MenuItem : Type 0 where
  pub title : Text
  pub url : Text

abbrev menu_item : Text → Text → MenuItem
menu_item title url = record { title = title; url = url }

abbrev pub main_items : List MenuItem
main_items =
    menu_item (text "Agents") (text "/agents")
    ∷ menu_item (text "Topology") (text "/topology")
    ∷ menu_item (text "Groups") (text "/groups")
    ∷ menu_item (text "Configs") (text "/configs")
    ∷ menu_item (text "Git Sources") (text "/git-sources")
    ∷ menu_item (text "Audit Log") (text "/audit-log")
    ∷ []

-- A link; it has its title only while the bar is expanded.
pub record MenuLink : Type 0 where
  pub to : Text
  pub tooltip : Text
  pub label : Option Text
  pub is_active : Bool

abbrev pub if_expanded : {A : Type 0} → Bool → A → Option A
if_expanded expanded a = if expanded then some a else none

unfoldable pub menu_link : Bool → Text → MenuItem → MenuLink
unfolding text_eq
menu_link expanded pathname i = record {
  to = i.url;
  tooltip = i.title;
  label = if_expanded expanded i.title;
  is_active = text_eq pathname i.url;
}

pub record User : Type 0 where
  pub username : Text
  pub role : Text

pub data Variant : Type 0 where
  default_variant secondary outline : Variant

-- `ROLE_VARIANT[role] ?? "outline"`
unfoldable pub role_variant : Text → Variant
unfolding text_eq
role_variant role =
    if text_eq role (text "admin")
    then default_variant
    else if text_eq role (text "operator")
    then secondary
    else outline

-- The button of the menu: the first letter, and name and role while the bar is expanded.
pub record UserMenu : Type 0 where
  pub initial : Text
  pub name_and_role : Option (Text × Text × Variant)

unfoldable pub user_menu : Bool → User → UserMenu
unfolding role_variant
user_menu expanded u = record {
  initial = take 1 u.username;
  name_and_role = if_expanded expanded (u.username, u.role, role_variant u.role);
}

pub record AppSidebar : Type 0 where
  -- The name of the program, in place of the trigger alone.
  pub name : Option Text
  pub links : List MenuLink
  pub menu : Option UserMenu

unfoldable pub app_sidebar : Bool → Text → Option User → AppSidebar
unfolding menu_link user_menu
app_sidebar expanded pathname user = record {
  name = if_expanded expanded (text "OTel Hive");
  links = map (menu_link expanded pathname) main_items;
  menu = elim user [ none ↦ none | some u ↦ some (user_menu expanded u) ];
}

-- `handleLogout`: the session ends, however the server answers, and the address is that of the login.
unfoldable pub handle_logout :
    {J U : Type 0} → Reader J → (J → Option TokenPair) → Client J U → Client J U × Page
unfolding run
handle_logout read tokens_of c = (run read tokens_of c (logout_done ∷ []), login)
