-- ===== src/Profiles/Evaluate/Compliant/Conditions.antt =====
-- The required_when conditions as checks (internal/profiles/evaluate.go).
use atb.Prelude.{
  ◌≡◌, ◌⊎◌, ◌↔◌, refl, Bool, true, false, List, [], ◌∷◌, All, Bool-cases, inl, inr, if◌then◌else◌,
}
use atb.Prelude.Int.{ℤ, ltb_ℤ}
use atb.Bundle.{Record}
use atb.Profiles.{EventRule, RequiredWhenRule, EvaluationResult, Library}
use atb.Profiles.Fields.{Timestamp, no_timestamp, invalid_timestamp, at_time, parse_event_timestamp}
use atb.Profiles.Evaluate.{target_times, order_finding, ordering, condition_finding}
use atb.Profiles.Evaluate.Holds.{Any, IsUntimed, IsNotBefore, IsOrdered, IsConditionMet}
use atb.Profiles.Evaluate.Compliant.{Checks, kept, failed, restated}

-- A timestamp that cannot be read, or its time.
Timestamp-cases :
    (s : Timestamp) → (s ≡ no_timestamp) ⊎ ((s ≡ invalid_timestamp) ⊎ ((u : ℤ) × (s ≡ at_time u)))
Timestamp-cases no_timestamp = inl refl
Timestamp-cases invalid_timestamp = inr (inl refl)
Timestamp-cases (at_time u) = inr (inr (u, refl))

skipped : {P R A : Type 0} → (A → ⊥) → P ↔ R → P ↔ (A ⊎ R)
skipped refuted same =
    (λ p. inr (same.0 p), λ h. elim h [ inl a ↦ absurd (refuted a) | inr r ↦ same.1 r ])

below : {P Q R : Type 0} → P ↔ (Q × R) → P ↔ (Q × (Unit {0} × R))
below same = (λ p. let (q, r) = same.0 p in (q, (tt, r)), λ h. same.1 (h.0, h.1.1))

module _ (lib : Library) (t : ℤ) where
  -- A target is at or after the time.
  target_times-after :
      (rs : List Record) (any_valid : Bool)
      → ((target_times lib t rs any_valid).1 ≡ true)
        ↔ Any (λ r. IsNotBefore lib t (parse_event_timestamp lib r)) rs
  unfolding target_times
  target_times-after [] any_valid = (λ e. cc e, λ h. absurd h)
  target_times-after (r ∷ rs) any_valid = elim (Timestamp-cases (parse_event_timestamp lib r)) [
    | inl e ↦ rw (target_times, e) (skipped (λ h. h) (target_times-after rs any_valid))
    | inr (inl e) ↦ rw (target_times, e) (skipped (λ h. h) (target_times-after rs any_valid))
    | inr (inr (u, e)) ↦ elim (Bool-cases (ltb_ℤ u t)) [
      | inl l ↦ rw (target_times, e, l) (skipped (λ h. cc h) (target_times-after rs true))
      | inr l ↦ rw (target_times, e, l) (λ h. inl refl, λ h. refl)
    ]
  ]

  -- No target has a time.
  target_times-IsUntimed :
      (rs : List Record) (any_valid : Bool)
      → ((target_times lib t rs any_valid).0 ≡ false)
        ↔ ((any_valid ≡ false) × All (λ r. IsUntimed lib (parse_event_timestamp lib r)) rs)
  unfolding target_times
  target_times-IsUntimed [] any_valid = (λ e. (e, tt), λ h. h.0)
  target_times-IsUntimed (r ∷ rs) any_valid = elim (Timestamp-cases (parse_event_timestamp lib r)) [
    | inl e ↦ rw (target_times, e) (below (target_times-IsUntimed rs any_valid))
    | inr (inl e) ↦ rw (target_times, e) (below (target_times-IsUntimed rs any_valid))
    | inr (inr (u, e)) ↦ elim (Bool-cases (ltb_ℤ u t)) [
      | inl l ↦
          rw (target_times, e, l)
            (λ h. cc ((target_times-IsUntimed rs true).0 h).0, λ h. absurd h.1.0)
      | inr l ↦ rw (target_times, e, l) (λ h. cc h, λ h. absurd h.1.0)
    ]
  ]

module _ (lib : Library) (rule : EventRule) (c : RequiredWhenRule) where
  order_finding-Checks :
      (r : EvaluationResult) (times : Bool × Bool)
      → Checks r (order_finding lib r rule c times) ((times.0 ≡ false) ⊎ (times.1 ≡ true))
  unfolding order_finding
  order_finding-Checks r (false, at_or_after) = kept r (inl refl)
  order_finding-Checks r (true, true) = kept r (inr refl)
  order_finding-Checks r (true, false) = failed r _ λ q. elim q [ inl e ↦ cc e | inr e ↦ cc e ]

  ordering-Checks :
      (r : EvaluationResult) (targets : List Record) (s : Timestamp)
      → Checks r (ordering lib r rule c targets s) (IsOrdered lib targets s)
  unfolding ordering
  ordering-Checks r targets no_timestamp = kept r tt
  ordering-Checks r targets invalid_timestamp = kept r tt
  ordering-Checks r targets (at_time t) =
      let untimed = target_times-IsUntimed lib t targets false in
      let after = target_times-after lib t targets false in
      restated r (order_finding lib r rule c (target_times lib t targets false))
        (
          λ q. elim q [ inl e ↦ inl (untimed.0 e).1 | inr e ↦ inr (after.0 e) ],
          λ q. elim q [ inl u ↦ inl (untimed.1 (refl, u)) | inr a ↦ inr (after.1 a) ],
        )
        (order_finding-Checks r (target_times lib t targets false))

  pub condition_finding-Checks :
      (r : EvaluationResult) (conditions targets : List Record)
      → Checks r
          (condition_finding lib r rule c conditions targets)
          (IsConditionMet lib c conditions targets)
  unfolding condition_finding
  condition_finding-Checks r [] targets = kept r tt
  condition_finding-Checks r (first ∷ more) [] = failed r _ λ h. h
  condition_finding-Checks r (first ∷ more) (x ∷ xs) = by_test c.at_or_after
    where
      by_test :
          (test : Bool)
          → Checks r
              (if test then ordering lib r rule c (x ∷ xs) (parse_event_timestamp lib first) else r)
              ((test ≡ false) ⊎ IsOrdered lib (x ∷ xs) (parse_event_timestamp lib first))
      by_test false = kept r (inl refl)
      by_test true =
          restated r (ordering lib r rule c (x ∷ xs) (parse_event_timestamp lib first))
            (skipped (λ h. cc h) (λ h. h, λ h. h))
            (ordering-Checks r (x ∷ xs) (parse_event_timestamp lib first))
