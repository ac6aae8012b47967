-- ===== src/Clients/Address.antt =====
-- ui/src/config.ts: the address of the server, from what the page is served with, from where it is
-- served or from the build; and the whole address of a request (ui/src/api/base.ts).
use otel_hive.Base.{Option, none, some, [], ◌∷◌, ◌++◌, if◌then◌else◌}
use otel_hive.Text.{Text, text, text_eq}
use otel_hive.Clients.{ApiRequest}

-- `window.__LAWRENCE_CONFIG__?.backendUrl`, `window.location.origin` and
-- `import.meta.env.VITE_BACKEND_URL`.
pub record Environment : Type 0 where
  pub runtime_backend_url : Option Text
  pub origin : Option Text
  pub vite_backend_url : Option Text

-- A value that is absent, empty or the placeholder is passed over.
unfoldable pub sanitized : Option Text → Option Text
unfolding text_eq
sanitized none = none
sanitized (some []) = none
sanitized (some (c ∷ url)) =
    if text_eq (c ∷ url) (text "__LAWRENCE_BACKEND_URL__") then none else some (c ∷ url)

-- `a ?? b`
abbrev pub or_else : Option Text → Text → Text
or_else none b = b
or_else (some a) b = a

unfoldable pub backend_hostname : Environment → Text
unfolding sanitized
backend_hostname e =
    or_else (sanitized e.runtime_backend_url)
      (or_else e.origin (or_else (sanitized e.vite_backend_url) (text "http://localhost:8080")))

unfoldable pub api_base_url : Environment → Text
unfolding backend_hostname
api_base_url e = backend_hostname e ++ text "/api/v1"

unfoldable pub url : {D : Type 0} → Environment → ApiRequest D → Text
unfolding api_base_url
url e r = api_base_url e ++ r.endpoint
