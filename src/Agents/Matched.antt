-- ===== src/Agents/Matched.antt =====
-- DisplaySidebar.tsx: which agents count for a group.
use otel_hive.Base.{
  ◌≡◌, refl, sym, ap, subst, ◌↔◌, inl, inr, Bool, true, ◌&&◌, Option, none, some, [], ◌∷◌, In,
  In-cons, here, there, arith,
}
use otel_hive.Text.{Text}
use otel_hive.Text.Laws.{text_eq→eq, text_eq_refl}
use otel_hive.Agents.{Labels, label, same_value, matches}

same_value_iff : (o : Option Text) (value : Text) → (same_value o value ≡ true) ↔ (o ≡ some value)
same_value_iff none value = (λ h. cc, λ h. cc)
same_value_iff (some v) value = (
  λ h. ap some (text_eq→eq v value h),
  λ h. subst (λ o. same_value o value ≡ true) (sym h) (text_eq_refl value),
)

and_true : (a b : Bool) → ((a && b) ≡ true) ↔ ((a ≡ true) × (b ≡ true))
and_true a b = ground arith

-- An agent matches the labels of a group exactly where it has each of them with the same value.
pub matches_iff :
    (group_labels agent_labels : Labels)
    → (matches group_labels agent_labels ≡ true)
      ↔ ((key value : Text) → In (key, value) group_labels → label agent_labels key ≡ some value)
unfolding matches
matches_iff [] agent_labels = (λ h key value i. elim i [ ], λ h. refl)
matches_iff ((k, v) ∷ group_labels) agent_labels =
    let both = and_true (same_value (label agent_labels k) v) (matches group_labels agent_labels) in
    let own = same_value_iff (label agent_labels k) v in
    let others = matches_iff group_labels agent_labels in
    (
      λ h key value i. elim (In-cons i) [
        | inl same ↦
            subst (λ (l : Text × Text). label agent_labels l.0 ≡ some l.1) (sym same)
              (own.0 (both.0 h).0)
        | inr j ↦ others.0 (both.0 h).1 key value j
      ],
      λ h. both.1 (own.1 (h k v here), others.1 (λ key value i. h key value (there i))),
    )
