-- ===== src/Pages/Signin.antt =====
-- ui/src/pages/Login.tsx and ui/src/pages/Setup.tsx: what the forms before the session send, and when.
use otel_hive.Base.{Bool, true, not, ◌&&◌, Option, none, some, length, leb, ltb, if◌then◌else◌}
use otel_hive.Text.{Text, text_eq, trim}

pub record SignForm : Type 0 where
  pub username : Text
  pub password : Text
  pub confirm : Text
  pub error : Option Text
  pub loading : Bool

-- `isStrongEnough`
abbrev pub is_strong_enough : Text → Bool
is_strong_enough pw = leb 8 (length pw)

unfoldable pub can_submit : SignForm → Bool
unfolding trim text_eq
can_submit f =
    ltb 0 (length (trim f.username))
    && (is_strong_enough f.password && (text_eq f.password f.confirm && not f.loading))

-- What `setup` is called with.
unfoldable pub submit_setup : SignForm → Option (Text × Text) × SignForm
unfolding can_submit
submit_setup f =
    if can_submit f
    then (some (trim f.username, f.password), record f { error = none; loading = true })
    else (none, f)

abbrev pub submit_login : SignForm → (Text × Text) × SignForm
submit_login f = ((f.username, f.password), record f { error = none; loading = true })
