-- ===== src/Validation/Outcome.antt =====
-- What validators report, and when they return: rules for the parts they are composed of.
use otel_hive.Base.{◌≡◌, refl, List, ◌∷◌, ◌++◌, All, All-append, arith}
use otel_hive.Validation.Types.{Throws, ok, throws, ◌>>=◌, Returns, Severity, ValidationError}

-- Whatever errors are reported have the severity.
abbrev pub Reports : Severity → Throws (List ValidationError) → Type 0
Reports s (ok es) = All (λ e. e.severity ≡ s) es
Reports s throws = Unit

pub Reports-append :
    (s : Severity) (m k : Throws (List ValidationError))
    → Reports s m
    → Reports s k
    → Reports s (m >>= λ xs. k >>= λ ys. ok (xs ++ ys))
Reports-append s (ok xs) (ok ys) h i = All-append _ xs ys h i
Reports-append s (ok xs) throws h i = tt
Reports-append s throws k h i = tt

pub Reports-append3 :
    (s : Severity) (m k l : Throws (List ValidationError))
    → Reports s m
    → Reports s k
    → Reports s l
    → Reports s (m >>= λ xs. k >>= λ ys. l >>= λ zs. ok (xs ++ ys ++ zs))
Reports-append3 s (ok xs) (ok ys) (ok zs) h i j =
    All-append _ (xs ++ ys) zs (All-append _ xs ys h i) j
Reports-append3 s (ok xs) (ok ys) throws h i j = tt
Reports-append3 s (ok xs) throws l h i j = tt
Reports-append3 s throws k l h i j = tt

pub Reports-cons :
    (s : Severity) (m : Throws ValidationError) (k : Throws (List ValidationError))
    → ((e : ValidationError) → m ≡ ok e → e.severity ≡ s)
    → Reports s k
    → Reports s (m >>= λ e. k >>= λ es. ok (e ∷ es))
Reports-cons s (ok e) (ok es) h i = (h e refl, i)
Reports-cons s (ok e) throws h i = tt
Reports-cons s throws k h i = tt

pub Returns-append :
    (m k : Throws (List ValidationError))
    → Returns m
    → Returns k
    → Returns (m >>= λ xs. k >>= λ ys. ok (xs ++ ys))
Returns-append (ok xs) (ok ys) h i = ground arith
Returns-append (ok xs) throws h i = absurd (i refl)
Returns-append throws k h i = absurd (h refl)

pub Returns-append3 :
    (m k l : Throws (List ValidationError))
    → Returns m
    → Returns k
    → Returns l
    → Returns (m >>= λ xs. k >>= λ ys. l >>= λ zs. ok (xs ++ ys ++ zs))
Returns-append3 (ok xs) (ok ys) (ok zs) h i j = ground arith
Returns-append3 (ok xs) (ok ys) throws h i j = absurd (j refl)
Returns-append3 (ok xs) throws l h i j = absurd (i refl)
Returns-append3 throws k l h i j = absurd (h refl)

pub >>=-throws :
    {A B : Type 0} (m : Throws A) (f : A → Throws B) → ((a : A) → f a ≡ throws) → (m >>= f) ≡ throws
>>=-throws (ok a) f h = h a
>>=-throws throws f h = refl
