-- ===== src/Text/Laws.antt =====
-- Equality, prefixes, search, trimming and splitting.
use otel_hive.Base.{
  ℕ, suc, ◌+◌, ◌≡◌, ◌≢◌, refl, false, true-ne-false, ap, sym, subst, ◌∙◌, ◌↔◌, inl, inr, true, some,
  List, [], ◌==◌, ◌∷◌, ◌++◌, length, arith, take, take-length-append, drop, append_assoc,
  append-nil, Option-cases, Bool-cases,
}
use otel_hive.Text.{
  Text, text_eq, starts_with, index_of, remove_first, is_space, trim_start, trim_end, trim, split,
}

pub text_eq→eq : (s t : Text) → text_eq s t ≡ true → s ≡ t
unfolding text_eq
text_eq→eq [] [] h = refl
text_eq→eq [] (d ∷ t) h = ground arith
text_eq→eq (c ∷ s) [] h = ground arith
text_eq→eq (c ∷ s) (d ∷ t) h = ground (arith, text_eq→eq s t)

pub text_eq_refl : (s : Text) → text_eq s s ≡ true
unfolding text_eq
text_eq_refl [] = refl
text_eq_refl (c ∷ s) = ground (arith, text_eq_refl s)

pub text_eq_iff : (s t : Text) → (text_eq s t ≡ true) ↔ (s ≡ t)
text_eq_iff s t = (text_eq→eq s t, λ e. subst (λ x. text_eq s x ≡ true) e (text_eq_refl s))

pub ne-of_text_eq : (s t : Text) → text_eq s t ≡ false → s ≢ t
ne-of_text_eq s t h e = true-ne-false (sym ((text_eq_iff s t).1 e) ∙ h)

-- `t` stands somewhere in `s`.
pub record Occurs (t s : Text) : Type 0 where
  pub before : Text
  pub after : Text
  pub parts : s ≡ before ++ (t ++ after)

pub Occurs-refl : (s : Text) → Occurs s s
Occurs-refl s = record { before = []; after = []; parts = sym (append-nil s) }

pub Occurs-trans : {r s t : Text} → Occurs r s → Occurs s t → Occurs r t
Occurs-trans o p = record {
  before = p.before ++ o.before;
  after = o.after ++ p.after;
  parts = p.parts ∙ rw o.parts (simp append_assoc);
}

pub Occurs-cons : {s t : Text} (c : ℕ) → Occurs s t → Occurs s (c ∷ t)
Occurs-cons c o = record { before = c ∷ o.before; after = o.after; parts = ap (◌∷◌ c) o.parts }

pub starts_with-eq-true : (s t : Text) → starts_with s t ≡ true → (rest : Text) × (s ≡ t ++ rest)
unfolding starts_with
starts_with-eq-true s [] h = (s, refl)
starts_with-eq-true [] (d ∷ t) h = cc
starts_with-eq-true (c ∷ s) (d ∷ t) h =
    let same : c ≡ d = ground arith in
    let (rest, e) = starts_with-eq-true s t (ground arith) in (rest, rw same (ap (◌∷◌ d) e))

pub starts_with_append : (t rest : Text) → starts_with (t ++ rest) t ≡ true
unfolding starts_with
starts_with_append [] rest = refl
starts_with_append (c ∷ t) rest = ground (arith, starts_with_append t rest)

-- A hit is a place where the text really stands.
pub index_of-eq-some : (s t : Text) (i : ℕ) → index_of s t ≡ some i → take (length t) (drop i s) ≡ t
unfolding index_of starts_with
index_of-eq-some [] [] i h = refl
index_of-eq-some [] (d ∷ t) i h = cc
index_of-eq-some (c ∷ s) t i h = elim (Bool-cases (starts_with (c ∷ s) t)) [
  | inl hit ↦
      let (rest, e) = starts_with-eq-true (c ∷ s) t hit in
      let first : i ≡ 0 = ground arith in rw (first, e) (take-length-append t rest)
  | inr miss ↦ elim (Option-cases (index_of s t)) [
    | inl absent ↦ ground arith
    | inr (k, found) ↦
        let later : i ≡ suc k = ground arith in rw later (index_of-eq-some s t k found)
  ]
]

index_of_total : (before t after : Text) → (i : ℕ) × (index_of (before ++ (t ++ after)) t ≡ some i)
unfolding index_of starts_with
index_of_total [] [] [] = (0, refl)
index_of_total [] [] (c ∷ after) = (0, refl)
index_of_total [] (d ∷ t) after = (0, rw (starts_with_append (d ∷ t) after, index_of))
index_of_total (c ∷ before) t after =
    elim (Bool-cases (starts_with (c ∷ (before ++ (t ++ after))) t)) [
      | inl hit ↦ (0, rw hit)
      | inr miss ↦ let (i, e) = index_of_total before t after in (suc i, rw (miss, e))
    ]

-- There is a hit wherever the text occurs.
pub index_of-Occurs : {t s : Text} → Occurs t s → (i : ℕ) × (index_of s t ≡ some i)
index_of-Occurs {t} o = rw o.parts (index_of_total o.before t o.after)

pub drop-length_append : (t rest : Text) → drop (length t) (t ++ rest) ≡ rest
drop-length_append [] rest = refl
drop-length_append (c ∷ t) rest = drop-length_append t rest

index_of_prefix : (t rest : Text) → index_of (t ++ rest) t ≡ some 0
unfolding index_of
index_of_prefix [] [] = refl
index_of_prefix [] (c ∷ rest) = refl
index_of_prefix (c ∷ t) rest = rw (starts_with_append (c ∷ t) rest) refl

-- A prefix is dropped, wherever else the text stands.
pub remove_first_prefix : (t rest : Text) → remove_first (t ++ rest) t ≡ rest
unfolding remove_first
remove_first_prefix t rest =
    let start : 0 + length t ≡ length t = omega arith in
    rw (remove_first, index_of_prefix t rest, start) (drop-length_append t rest)

pub trim_start_suffix : (s : Text) → (pre : Text) × (s ≡ pre ++ trim_start s)
unfolding trim_start
trim_start_suffix [] = ([], refl)
trim_start_suffix (c ∷ s) = elim (Bool-cases (is_space c)) [
  | inl h ↦ let (pre, e) = trim_start_suffix s in (c ∷ pre, rw h (ap (◌∷◌ c) e))
  | inr h ↦ ([], rw h)
]

trim_end_cons :
    (c : ℕ) (s : Text)
    → ((post : Text) × (s ≡ trim_end s ++ post))
    → (post : Text) × (c ∷ s ≡ trim_end (c ∷ s) ++ post)
unfolding trim_end
trim_end_cons c s (post, e) = go (trim_end s) refl
  where
    go : (t : Text) → trim_end s ≡ t → (p : Text) × (c ∷ s ≡ trim_end (c ∷ s) ++ p)
    go [] f = elim (Bool-cases (is_space c)) [
      | inl h ↦ (c ∷ s, rw (f, trim_end, h))
      | inr h ↦ (s, rw (f, trim_end, h))
    ]
    go (d ∷ t) f = (post, rw (f, trim_end) (ap (◌∷◌ c) (e ∙ ap (λ u. u ++ post) f)))

pub trim_end_prefix : (s : Text) → (post : Text) × (s ≡ trim_end s ++ post)
unfolding trim_end
trim_end_prefix [] = ([], refl)
trim_end_prefix (c ∷ s) = trim_end_cons c s (trim_end_prefix s)

pub trim-Occurs : (s : Text) → Occurs (trim s) s
unfolding trim
trim-Occurs s =
    let (pre, e) = trim_start_suffix s in
    let (post, f) = trim_end_prefix (trim_start s) in
    record { before = pre; after = post; parts = e ∙ ap (◌++◌ pre) f }

pub split-cons :
    (sep : ℕ) (s : Text) → (first : Text) × (rest : List Text) × (split sep s ≡ first ∷ rest)
unfolding split
split-cons sep [] = ([], [], refl)
split-cons sep (c ∷ s) =
    let (first, rest, e) = split-cons sep s in
    elim (Bool-cases (c == sep)) [
      | inl h ↦ ([], first ∷ rest, rw (e, h) refl)
      | inr h ↦ (c ∷ first, rest, rw (e, h) refl)
    ]
