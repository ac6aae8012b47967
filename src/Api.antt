-- ===== src/Api.antt =====
-- ui/src/api/base.ts: how the answer to a request is settled. `J` is the type of parsed JSON bodies;
-- its three readers give the fields that the code looks at.
use otel_hive.Base.{
  ℕ, Bool, false, not, ◌&&◌, Option, none, some, [], ◌∷◌, ◌++◌, leb, ◌==◌, if◌then◌else◌,
}
use otel_hive.Text.{Text, text, decimal}

-- The answer of `fetch`; `body` is `none` where `json()` rejects.
pub record Response (J : Type 0) : Type 0 where
  pub status : ℕ
  pub status_text : Text
  pub body : Option J

pub data Outcome (J : Type 0) : Type 0 where
  resolved : J → Outcome J
  no_content : Outcome J
  rejected : Text → ℕ → Outcome J
  bad_json : Outcome J
  navigating : Outcome J
  unreachable : Outcome J

-- `response.ok`
abbrev pub is_ok : ℕ → Bool
is_ok status = leb 200 status && leb status 299

pub record Reader (J : Type 0) : Type 0 where
  pub setup_required : J → Bool
  pub error : J → Option Text
  pub details : J → Option Text

module _ {J : Type 0} (read : Reader J) where
  pub default_message : Response J → Text
  unfolding decimal
  default_message r = text "API request failed: " ++ decimal r.status ++ text " " ++ r.status_text

  -- An `error` that is absent or empty leaves the default message.
  pub body_message : Text → Option J → Text
  body_message default none = default
  body_message default (some j) = elim (read.error j) [
    | none ↦ default
    | some [] ↦ default
    | some (c ∷ s) ↦ elim (read.details j) [
      | none ↦ c ∷ s
      | some [] ↦ c ∷ s
      | some (d ∷ t) ↦ (c ∷ s) ++ text ": " ++ (d ∷ t)
    ]
  ]

  pub needs_setup : Response J → Bool
  needs_setup r = r.status == 503 && elim r.body [ none ↦ false | some j ↦ read.setup_required j ]

  -- The end of `simpleRequest`, once the answer is final.
  unfoldable pub settle : Response J → Outcome J
  unfolding default_message body_message needs_setup
  settle r =
      if needs_setup r
      then navigating
      else if not (is_ok r.status)
      then rejected (body_message (default_message r) r.body) r.status
      else if r.status == 204
      then no_content
      else elim r.body [ none ↦ bad_json | some j ↦ resolved j ]

  -- `none` is a `fetch` that rejects.
  abbrev pub settle_answer : Option (Response J) → Outcome J
  settle_answer none = unreachable
  settle_answer (some r) = settle r
