-- ===== src/Query.antt =====
-- ui/src/hooks/useLawrenceQL.ts, `useLawrenceQL`: the state of the query editor, with the queries
-- under way, which end in any order. `Response` is the answer's type; `time_of` and `rows_of` read
-- its `meta`. The clock gives each item of the history its `timestamp`.
pub mod History
pub mod Saved
pub mod Kept
mod Tests
use otel_hive.Base.{
  ℕ, zero, suc, Bool, true, false, Option, none, some, List, [], ◌∷◌, ◌++◌, take, get_elem?,
}
use otel_hive.Text.{Text, text, truthy, trim}

pub record QueryHistoryItem : Type 0 where
  pub query : Text
  pub timestamp : ℕ
  pub execution_time : ℕ
  pub row_count : ℕ

-- `pending` holds the text of each query that is under way; the program has no such variable.
pub record Editor (R : Type 0) : Type 0 where
  pub query : Text
  pub is_executing : Bool
  pub results : Option R
  pub error : Option Text
  pub history : List QueryHistoryItem
  pub pending : List Text

-- What happens next. A query that fails may have thrown an `Error`, with its message, or not.
pub data Event (R : Type 0) : Type 0 where
  set_query : Text → Event R
  execute : Option Text → Event R
  answered : (i now : ℕ) → R → Event R
  failed : ℕ → Option Text → Event R
  clear_results : Event R
  clear_history : Event R

-- `a || b`
abbrev pub either : Option Text → Text → Text
either a b = elim (truthy a) [ none ↦ b | some t ↦ t ]

abbrev pub remove {ℓ} : {A : Type ℓ} → List A → ℕ → List A
remove [] i = []
remove (x ∷ xs) zero = xs
remove (x ∷ xs) (suc i) = x ∷ remove xs i

abbrev pub failure : Option Text → Text
failure none = text "Failed to execute query"
failure (some message) = message

module _ {R : Type 0} (time_of rows_of : R → ℕ) where
  -- The query `q` is sent, or refused if nothing of it is left when trimmed.
  pub start : (trimmed q : Text) → Editor R → Editor R
  start [] q s = record s { error = some (text "Query cannot be empty") }
  start (c ∷ t) q s = record s { is_executing = true; error = none; pending = s.pending ++ q ∷ [] }

  pub item : Text → ℕ → R → QueryHistoryItem
  item q now r = record {
    query = q;
    timestamp = now;
    execution_time = time_of r;
    row_count = rows_of r;
  }

  pub finish : ℕ → ℕ → R → Option Text → Editor R → Editor R
  unfolding item
  finish i now r none s = s
  finish i now r (some q) s = record s {
    results = some r;
    history = item q now r ∷ take 49 s.history;
    is_executing = false;
    pending = remove s.pending i;
  }

  pub fail : ℕ → Option Text → Option Text → Editor R → Editor R
  fail i thrown none s = s
  fail i thrown (some q) s = record s {
    error = some (failure thrown);
    results = none;
    is_executing = false;
    pending = remove s.pending i;
  }

  unfoldable pub step : Editor R → Event R → Editor R
  unfolding start finish fail
  step s (set_query q) = record s { query = q }
  step s (execute custom) = start (trim (either custom s.query)) (either custom s.query) s
  step s (answered i now r) = finish i now r (get_elem? s.pending i) s
  step s (failed i thrown) = fail i thrown (get_elem? s.pending i) s
  step s clear_results = record s { results = none; error = none }
  step s clear_history = record s { history = [] }

  unfoldable pub run : Editor R → List (Event R) → Editor R
  unfolding step
  run s [] = s
  run s (e ∷ es) = run (step s e) es

-- What `validateQuery` ends in: its verdict, or what it throws.
pub data Verdict : Type 0 where
  verdict : Bool → Option Text → Verdict
  thrown : Option Text → Verdict

abbrev pub verdict_of : Verdict → Bool × Option Text
verdict_of (verdict valid error) = (valid, error)
verdict_of (thrown none) = (false, some (text "Validation failed"))
verdict_of (thrown (some message)) = (false, some message)

-- `validate`
pub validate : (query : Text) (custom : Option Text) → (Text → Verdict) → Bool × Option Text
validate query custom validate_query = elim (trim (either custom query)) [
  | [] ↦ (false, some (text "Query cannot be empty"))
  | c ∷ t ↦ verdict_of (validate_query (either custom query))
]
