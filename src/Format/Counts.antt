-- ===== src/Format/Counts.antt =====
-- utils/index.ts: what a count is written as.
use otel_hive.Base.{
  ℕ, ◌+◌, ◌-◌, ◌*◌, ◌/◌, ◌%◌, ◌≤◌, ◌<◌, arith, ◌≡◌, refl, ap, ◌∙◌, ◌⊎◌, inl, inr, true, [], ◌∷◌,
  ◌++◌, length, length-append, take-length-append, le→leb, leb, ltb, ◌==◌, if◌then◌else◌,
  Bool-cases,
}
use otel_hive.Text.{Text, text, text_eq, decimal}
use otel_hive.Text.Laws.{drop-length_append}
use otel_hive.Text.Decimal.{decimal-digit}
use otel_hive.Format.{
  Scale, thousand, million, billion, size, letter, ends_with, without_zero, scaled, format_count,
}

-- `r` tenths.
abbrev pub tenths : ℕ → Text
tenths r = decimal (r / 10) ++ (b'.' ∷ decimal (r % 10))

-- The same, without a zero after the point.
abbrev pub short_tenths : ℕ → Text
short_tenths r = if r % 10 == 0 then decimal (r / 10) else tenths r

-- `r` tenths of the unit are as near to the count as tenths can be.
pub record IsNear (count : ℕ) (scale : Scale) (r : ℕ) : Type 0 where
  pub not_less : 20 * count ≤ 2 * (r * size scale) + size scale
  pub not_more : 2 * (r * size scale) ≤ 20 * count + size scale

-- What `toFixed(1)` promises of a quotient below 1000.
abbrev pub IsFixed : (ℕ → Scale → Text) → Type 0
IsFixed to_fixed =
    (count : ℕ) (scale : Scale)
    → count < 1000 * size scale
    → (r : ℕ) × (to_fixed count scale ≡ tenths r) × IsNear count scale r

ends_with_append :
    (pre post t : Text) → length post ≡ length t → ends_with (pre ++ post) t ≡ text_eq post t
unfolding ends_with
ends_with_append pre post t e =
    let long : leb (length t) (length (pre ++ post)) ≡ true =
      le→leb (length t) (length (pre ++ post)) (omega (arith, e, length-append pre post)) in
    let cut : length (pre ++ post) - length t ≡ length pre =
      omega (arith, e, length-append pre post) in
    rw (long, cut, drop-length_append pre post) refl

zero_after_point : (d : ℕ) → text_eq (46 ∷ (48 + d) ∷ []) (text ".0") ≡ (d == 0)
unfolding text_eq
zero_after_point d = ground arith

without_zero-append :
    (pre : Text) (d : ℕ)
    → without_zero (pre ++ (46 ∷ (48 + d) ∷ []))
      ≡ (if d == 0 then pre else pre ++ (46 ∷ (48 + d) ∷ []))
unfolding without_zero
without_zero-append pre d =
    let post = 46 ∷ (48 + d) ∷ [] in
    let cut : length (pre ++ post) - 2 ≡ length pre = omega (arith, length-append pre post) in
    rw
      (
        ends_with_append pre post (text ".0") refl,
        zero_after_point d,
        cut,
        take-length-append pre post,
      )
      refl

without_zero-tenths : (r : ℕ) → without_zero (tenths r) ≡ short_tenths r
without_zero-tenths r =
    rw (decimal-digit (r % 10) (omega arith)) (without_zero-append (decimal (r / 10)) (r % 10))

-- The text names a number of tenths of a unit.
pub record IsShown (count : ℕ) (scale : Scale) (s : Text) : Type 0 where
  pub r : ℕ
  pub text_is : s ≡ short_tenths r ++ letter scale
  pub near : IsNear count scale r

module _ (to_fixed : ℕ → Scale → Text) (fixed : IsFixed to_fixed) where
  scaled-IsShown :
      (count : ℕ) (scale : Scale)
      → count < 1000 * size scale
      → IsShown count scale (scaled to_fixed count scale)
  scaled-IsShown count scale h =
      let (r, e, near) = fixed count scale h in
      record {
        r = r;
        text_is =
            ap (λ s. without_zero s ++ letter scale) e
            ∙ ap (λ s. s ++ letter scale) (without_zero-tenths r);
        near = near;
      }

  -- Where `toFixed(1)` gives the nearest tenth of a quotient below 1000, a count below 1000 billions is
  -- written in full if it is below 1000, and else as a number of tenths of the unit that it is at least
  -- one and less than 1000 of, as near to it as can be and without a zero after the point.
  pub format_count-IsShown :
      (count : ℕ)
      → count < 1000000000000
      → ((count < 1000) × (format_count to_fixed count ≡ decimal count))
        ⊎ ((scale : Scale) × (size scale ≤ count)
            × (count < 1000 * size scale)
            × IsShown count scale (format_count to_fixed count))
  unfolding format_count
  format_count-IsShown count below = elim (Bool-cases (ltb count 1000)) [
    | inl e ↦ rw e (inl (ground arith, refl))
    | inr e ↦ elim (Bool-cases (ltb count 1000000)) [
      | inl f ↦
          let h : count < 1000 * 1000 = ground arith in
          rw (e, f) (inr (thousand, ground arith, h, scaled-IsShown count thousand h))
      | inr f ↦ elim (Bool-cases (ltb count 1000000000)) [
        | inl g ↦
            let h : count < 1000 * 1000000 = ground arith in
            rw (e, f, g) (inr (million, ground arith, h, scaled-IsShown count million h))
        | inr g ↦
            let h : count < 1000 * 1000000000 = omega (arith, below) in
            rw (e, f, g) (inr (billion, ground arith, h, scaled-IsShown count billion h))
      ]
    ]
  ]
