-- ===== src/Validation/Run/Keys.antt =====
-- index.ts: the key that errors are compared by tells the message, the line and the column.
use otel_hive.Base.{◌≡◌, refl, sym, ◌∙◌, ◌++◌, append_assoc, ◌∷◌}
use otel_hive.Text.{decimal}
use otel_hive.Text.Decimal.{decimal_injective, decimal-HasNoBar, at_bar_injective}
use otel_hive.Validation.Types.{ValidationError}
use otel_hive.Validation.Run.{error_key}

-- The same message at the same position.
pub record SameError (e f : ValidationError) : Type 0 where
  pub message : e.message ≡ f.message
  pub line : e.line ≡ f.line
  pub column : e.column ≡ f.column

error_key-parts :
    (e : ValidationError)
    → error_key e ≡ (e.message ++ (124 ∷ decimal e.line)) ++ (124 ∷ decimal e.column)
unfolding error_key
error_key-parts e = simp append_assoc

-- Two errors have the same key only where they have the same message, line and column.
pub error_key_injective : (e f : ValidationError) → error_key e ≡ error_key f → SameError e f
error_key_injective e f h =
    let (front, columns) =
      at_bar_injective (e.message ++ (124 ∷ decimal e.line)) (f.message ++ (124 ∷ decimal f.line))
        (decimal e.column) (decimal f.column) (decimal-HasNoBar e.column)
        (decimal-HasNoBar f.column) (sym (error_key-parts e) ∙ h ∙ error_key-parts f) in
    let (messages, lines) =
      at_bar_injective e.message f.message (decimal e.line) (decimal f.line)
        (decimal-HasNoBar e.line) (decimal-HasNoBar f.line) front in
    record {
      message = messages;
      line = decimal_injective e.line f.line lines;
      column = decimal_injective e.column f.column columns;
    }

-- Errors that are the same have the same key.
pub error_key-SameError : (e f : ValidationError) → SameError e f → error_key e ≡ error_key f
unfolding error_key
error_key-SameError e f h = rw (h.message, h.line, h.column) refl
