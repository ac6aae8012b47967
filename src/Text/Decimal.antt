-- ===== src/Text/Decimal.antt =====
-- The digits of a number tell the number, and are digits.
use otel_hive.Base.{
  ℕ, zero, suc, ◌+◌, ◌-◌, ◌*◌, ◌/◌, ◌%◌, ◌<◌, ◌≡◌, refl, sym, ap, subst, ◌∙◌, ◌≢◌, inl, inr, true,
  [], ◌∷◌, ◌++◌, All, arith, ◌==◌, Bool-cases,
}
use otel_hive.Text.{Text, decimal_from, decimal}

-- The number that digits stand for, after a number read so far.
abbrev read_from : ℕ → Text → ℕ
read_from n [] = n
read_from n (c ∷ s) = read_from (n * 10 + (c - 48)) s

abbrev pub read : Text → ℕ
read s = read_from 0 s

decimal_from_enough :
    (fuel n : ℕ) (acc : Text) → n < fuel → read_from 0 (decimal_from fuel n acc) ≡ read_from n acc
unfolding decimal_from
decimal_from_enough zero n acc h = omega (arith, h)
decimal_from_enough (suc fuel) n acc h = elim (Bool-cases (n / 10 == 0)) [
  | inl last ↦
      let digit : 0 * 10 + ((48 + n % 10) - 48) ≡ n = ground arith in
      rw last (ap (λ k. read_from k acc) digit)
  | inr more ↦
      let below : n / 10 < fuel = ground arith in
      let whole : n / 10 * 10 + ((48 + n % 10) - 48) ≡ n = omega arith in
      rw more (
        decimal_from_enough fuel (n / 10) ((48 + n % 10) ∷ acc) below
        ∙ ap (λ k. read_from k acc) whole)
]

-- n + 1 steps are enough for all digits of n.
pub read-decimal : (n : ℕ) → read (decimal n) ≡ n
unfolding decimal
read-decimal n = decimal_from_enough (suc n) n [] (omega arith)

pub decimal_injective : (m n : ℕ) → decimal m ≡ decimal n → m ≡ n
decimal_injective m n e = sym (read-decimal m) ∙ ap read e ∙ read-decimal n

pub decimal-digit : (d : ℕ) → d < 10 → decimal d ≡ (48 + d) ∷ []
unfolding decimal decimal_from
decimal-digit d h =
    let last : (d / 10 == 0) ≡ true = ground arith in
    let same : d % 10 ≡ d = omega (arith, h) in rw (last, same) refl

-- No code unit of the text is the bar.
abbrev pub HasNoBar : Text → Type 0
HasNoBar s = All (λ c. c ≢ 124) s

decimal_from-HasNoBar :
    (fuel n : ℕ) (acc : Text) → HasNoBar acc → HasNoBar (decimal_from fuel n acc)
unfolding decimal_from
decimal_from-HasNoBar zero n acc h = h
decimal_from-HasNoBar (suc fuel) n acc h =
    let digit : 48 + n % 10 ≢ 124 = λ e. omega (arith, e) in
    elim (Bool-cases (n / 10 == 0)) [
      | inl last ↦ rw last (digit, h)
      | inr more ↦ rw more (decimal_from-HasNoBar fuel (n / 10) ((48 + n % 10) ∷ acc) (digit, h))
    ]

pub decimal-HasNoBar : (n : ℕ) → HasNoBar (decimal n)
unfolding decimal
decimal-HasNoBar n = decimal_from-HasNoBar (suc n) n [] tt

bar_in : (s t : Text) → HasNoBar (s ++ (124 ∷ t)) → ⊥
bar_in [] t h = h.0 refl
bar_in (c ∷ s) t h = bar_in s t h.1

head_eq : {c d : ℕ} {s t : Text} → c ∷ s ≡ d ∷ t → c ≡ d
head_eq e = cc

tail_eq : {c d : ℕ} {s t : Text} → c ∷ s ≡ d ∷ t → s ≡ t
tail_eq e = cc

-- What stands before the last bar and after it is told by the whole.
pub at_bar_injective :
    (s t : Text) (u v : Text)
    → HasNoBar u
    → HasNoBar v
    → s ++ (124 ∷ u) ≡ t ++ (124 ∷ v)
    → (s ≡ t) × (u ≡ v)
at_bar_injective [] [] u v h k e = (refl, tail_eq e)
at_bar_injective [] (d ∷ t) u v h k e = absurd (bar_in t v (subst HasNoBar (tail_eq e) h))
at_bar_injective (c ∷ s) [] u v h k e = absurd (bar_in s u (subst HasNoBar (sym (tail_eq e)) k))
at_bar_injective (c ∷ s) (d ∷ t) u v h k e =
    let (same, rest) = at_bar_injective s t u v h k (tail_eq e) in
    (rw (head_eq e) (ap (◌∷◌ d) same), rest)
