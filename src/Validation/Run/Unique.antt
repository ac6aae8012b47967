-- ===== src/Validation/Run/Unique.antt =====
-- What the removal of repeated errors keeps.
use otel_hive.Base.{
  sym, subst, ◌≡◌, refl, true, false, ◌⊎◌, inl, inr, List, [], ◌∷◌, map, All, In, In-of_map, here,
  there, In-cons, In-head, In-cons_mono, ap, Bool-cases,
}
use otel_hive.Text.{Text}
use otel_hive.Validation.Types.{ValidationError, ParsedData}
use otel_hive.Validation.Pipeline.{has}
use otel_hive.Validation.Pipeline.Resolves.{has-eq-true, has-In}
use otel_hive.Validation.Run.Keys.{SameError, error_key-SameError, error_key_injective}
use otel_hive.Validation.Run.{Validator, error_key, all_errors, unique_errors, validate_yaml_config}

abbrev keys : List ValidationError → List Text
keys = map error_key

-- No text stands twice in the list, and none of it stands in `seen`.
abbrev DistinctFrom : List Text → List Text → Type 0
DistinctFrom seen [] = Unit
DistinctFrom seen (k ∷ ks) = (¬ In k seen) × DistinctFrom (k ∷ seen) ks

-- No two errors of the list are the same.
abbrev pub Distinct : List ValidationError → Type 0
Distinct [] = Unit
Distinct (e ∷ es) = All (λ f. ¬ SameError e f) es × Distinct es

-- The kept errors are some of the given ones, no two have the same message, line and column, and each
-- of the given ones is among them as one with the same message, line and column.
pub record IsDeduplicated (given kept : List ValidationError) : Type 0 where
  pub kept_given : (e : ValidationError) → In e kept → In e given
  pub distinct : Distinct kept
  pub shown : (e : ValidationError) → In e given → (f : ValidationError) × In f kept × SameError f e

differ_later :
    (seen : List Text) (e : ValidationError) (es : List ValidationError)
    → In (error_key e) seen
    → DistinctFrom seen (keys es)
    → All (λ f. ¬ SameError e f) es
differ_later seen e [] i h = tt
differ_later seen e (f ∷ es) i h = (
  λ same. h.0 (subst (λ k. In k seen) (error_key-SameError e f same) i),
  differ_later (error_key f ∷ seen) e es (there i) h.1,
)

DistinctFrom-Distinct :
    (seen : List Text) (es : List ValidationError) → DistinctFrom seen (keys es) → Distinct es
DistinctFrom-Distinct seen [] h = tt
DistinctFrom-Distinct seen (e ∷ es) h = (
  differ_later (error_key e ∷ seen) e es here h.1,
  DistinctFrom-Distinct (error_key e ∷ seen) es h.1,
)

unique_errors_nil : (seen : List Text) → unique_errors seen [] ≡ []
unfolding unique_errors
unique_errors_nil seen = refl

unique_errors_old :
    (seen : List Text) (d : ValidationError) (es : List ValidationError)
    → has seen (error_key d) ≡ true
    → unique_errors seen (d ∷ es) ≡ unique_errors seen es
unfolding unique_errors
unique_errors_old seen d es old = rw (old, unique_errors)

pub unique_errors_new :
    (seen : List Text) (d : ValidationError) (es : List ValidationError)
    → has seen (error_key d) ≡ false
    → unique_errors seen (d ∷ es) ≡ d ∷ unique_errors (error_key d ∷ seen) es
unfolding unique_errors
unique_errors_new seen d es new = rw (new, unique_errors)

unique_errors-given :
    (seen : List Text) (es : List ValidationError) (e : ValidationError)
    → In e (unique_errors seen es)
    → In e es
unique_errors-given seen [] e i = rw (unique_errors_nil seen) at i
unique_errors-given seen (d ∷ es) e i = elim (Bool-cases (has seen (error_key d))) [
  | inl old ↦ there (unique_errors-given seen es e (rw (unique_errors_old seen d es old) at i))
  | inr new ↦
      In-cons_mono (unique_errors-given (error_key d ∷ seen) es e)
        (rw (unique_errors_new seen d es new) at i)
]

unique_errors-DistinctFrom :
    (seen : List Text) (es : List ValidationError)
    → DistinctFrom seen (keys (unique_errors seen es))
unique_errors-DistinctFrom seen [] =
    subst (λ u. DistinctFrom seen (keys u)) (sym (unique_errors_nil seen)) tt
unique_errors-DistinctFrom seen (d ∷ es) = elim (Bool-cases (has seen (error_key d))) [
  | inl old ↦
      subst (λ u. DistinctFrom seen (keys u)) (sym (unique_errors_old seen d es old))
        (unique_errors-DistinctFrom seen es)
  | inr new ↦
      subst (λ u. DistinctFrom seen (keys u)) (sym (unique_errors_new seen d es new))
        (λ i. cc (has-In i), unique_errors-DistinctFrom (error_key d ∷ seen) es)
]

unique_errors-covers :
    (seen : List Text) (es : List ValidationError) (e : ValidationError)
    → In e es
    → In (error_key e) seen ⊎ In (error_key e) (keys (unique_errors seen es))
unique_errors-covers seen [] e i = elim i [ ]
unique_errors-covers seen (d ∷ es) e i = elim (Bool-cases (has seen (error_key d))) [
  | inl old ↦ rw (unique_errors_old seen d es old) (elim (In-cons i) [
    | inl same ↦ inl (rw same (has-eq-true seen (error_key d) old))
    | inr later ↦ unique_errors-covers seen es e later
  ])
  | inr new ↦ rw (unique_errors_new seen d es new) (elim (In-cons i) [
    | inl same ↦ inr (In-head (ap error_key same))
    | inr later ↦ elim (unique_errors-covers (error_key d ∷ seen) es e later) [
      | inl known ↦ elim (In-cons known) [ inl same ↦ inr (In-head same) | inr j ↦ inl j ]
      | inr kept ↦ inr (there kept)
    ]
  ])
]

-- The errors of a validation are some of those of the validators, no two of them with the same message,
-- line and column, and each error of a validator is shown, at least as one with the same message, line
-- and column.
pub validate_yaml_config-IsDeduplicated :
    (yaml_content : Text) (parsed : ParsedData) (validators : List Validator)
    → IsDeduplicated
        (all_errors yaml_content parsed validators)
        (validate_yaml_config yaml_content parsed validators).errors
unfolding validate_yaml_config
validate_yaml_config-IsDeduplicated yaml parsed vs =
    let es = all_errors yaml parsed vs in
    record {
      kept_given = unique_errors-given [] es;
      distinct = DistinctFrom-Distinct [] (unique_errors [] es) (unique_errors-DistinctFrom [] es);
      shown = λ e i. elim (unique_errors-covers [] es e i) [
        | inl j ↦ elim j [ ]
        | inr j ↦
            let (f, k, same) = In-of_map error_key (unique_errors [] es) j in
            (f, k, error_key_injective f e same)
      ];
    }
