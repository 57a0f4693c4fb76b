-- ===== src/Profiles/Evaluate/Compliant/Relations.antt =====
-- The rules on relations as checks (internal/profiles/evaluate.go).
use atb.Prelude.{
  ◌≡◌, ◌⊎◌, ◌↔◌, refl, sym, ◌∙◌, subst, String, true, false, ◌||◌, List, [], ◌∷◌, Option, none,
  some, All, Bool-cases, List-cases, Option-cases, inl, inr, str_eq, if◌then◌else◌,
}
use atb.Prelude.Map.{Map}
use atb.Bundle.{Record}
use atb.Profiles.{RelationRule, RelationPredicate, CriticalFailure, EvaluationResult, Library}
use atb.Profiles.Fields.{field_string, at_key, index_by_field}
use atb.Profiles.Evaluate.{
  target_of, no_elements, first_predicate_failure, relation_predicate_failure, add_found,
  linked_finding, relate, evaluate_relation_rule, for_each,
}
use atb.Profiles.Evaluate.Indexed.{with_value, index_by_field-with_value}
use atb.Profiles.Evaluate.Holds.{Any, IsMatched, IsLinked}
use atb.Profiles.Evaluate.Compliant.{Checks, kept, failed, restated, for_each-Checks}

Any-with_value :
    (P : Record → Type 0) (field v : String) (rs : List Record)
    → Any P (with_value field v rs) ↔ Any (λ r. (str_eq (field_string r field) v ≡ true) × P r) rs
Any-with_value P field v [] = (λ h. h, λ h. h)
Any-with_value P field v (r ∷ rs) =
    let rest = Any-with_value P field v rs in
    elim (Bool-cases (str_eq (field_string r field) v)) [
      | inl e ↦ (
        λ h. elim (rw (e) at h) [ inl p ↦ inl (e, p) | inr a ↦ inr (rest.0 a) ],
        λ h. rw (e) (elim h [ inl p ↦ inl p.1 | inr a ↦ inr (rest.1 a) ]),
      )
      | inr e ↦ (
        λ h. inr (rest.0 (rw (e) at h)),
        λ h. rw (e) (elim h [ inl p ↦ cc (p.0, e) | inr a ↦ rest.1 a ]),
      )
    ]

add_found-Checks :
    {Q : Type 0} (r : EvaluationResult) (found : Option CriticalFailure)
    → (found ≡ none) ↔ Q
    → Checks r (add_found found r) Q
add_found-Checks r none q = kept r (q.0 refl)
add_found-Checks r (some f) q = failed r f λ h. some_clash (q.1 h)
  where
    some_clash : {A : Type 0} {x : A} → some x ≡ none → ⊥
    some_clash e = cc

module _ (lib : Library) (rule : RelationRule) (from : Record) where
  first_predicate_failure-none :
      (to : Record) (ps : List RelationPredicate)
      → (first_predicate_failure lib rule from to ps ≡ none)
        ↔ All (λ p. lib.equal_fold (field_string (target_of p from to) p.field) p.equals ≡ true) ps
  unfolding first_predicate_failure
  first_predicate_failure-none to [] = (λ e. tt, λ h. refl)
  first_predicate_failure-none to (p ∷ ps) =
      let more = first_predicate_failure-none to ps in
      elim (Bool-cases (lib.equal_fold (field_string (target_of p from to) p.field) p.equals)) [
        | inl e ↦ (
          λ m. (e, more.0 (rw (first_predicate_failure, e) at m)),
          λ h. rw (first_predicate_failure, e) (more.1 h.1),
        )
        | inr e ↦ (λ m. cc (rw (first_predicate_failure, e) at m), λ h. cc (h.0, e))
      ]

  -- Behind a record that has failed, another one has to match.
  relation_predicate_failure-some :
      (tos : List Record) (f : CriticalFailure)
      → (relation_predicate_failure lib rule from tos (some f) ≡ none)
        ↔ Any (IsMatched lib rule from) tos
  unfolding relation_predicate_failure
  relation_predicate_failure-some [] f = (λ e. cc e, λ h. absurd h)
  relation_predicate_failure-some (to ∷ tos) f =
      let matched = first_predicate_failure-none to rule.predicates in
      let more = relation_predicate_failure-some tos f in
      elim (Option-cases (first_predicate_failure lib rule from to rule.predicates)) [
        | inl e ↦ (λ m. inl (matched.0 e), λ h. rw (relation_predicate_failure, e) refl)
        | inr (g, e) ↦ (
          λ m. inr (more.0 (rw (relation_predicate_failure, e) at m)),
          λ h.
              rw (relation_predicate_failure, e)
                (elim h [ inl one ↦ cc (sym (matched.1 one) ∙ e) | inr a ↦ more.1 a ]),
        )
      ]

  relation_predicate_failure-none :
      (to : Record) (tos : List Record)
      → (relation_predicate_failure lib rule from (to ∷ tos) none ≡ none)
        ↔ Any (IsMatched lib rule from) (to ∷ tos)
  unfolding relation_predicate_failure
  relation_predicate_failure-none to tos =
      let matched = first_predicate_failure-none to rule.predicates in
      elim (Option-cases (first_predicate_failure lib rule from to rule.predicates)) [
        | inl e ↦ (λ m. inl (matched.0 e), λ h. rw (relation_predicate_failure, e) refl)
        | inr (g, e) ↦
            let more = relation_predicate_failure-some tos g in
            (
              λ m. inr (more.0 (rw (relation_predicate_failure, e) at m)),
              λ h.
                  rw (relation_predicate_failure, e)
                    (elim h [ inl one ↦ cc (sym (matched.1 one) ∙ e) | inr a ↦ more.1 a ]),
            )
      ]

  -- Where a linked record can be reached, the predicates decide, also if there are none.
  linked_finding-found :
      (r : EvaluationResult) (to : Record) (tos : List Record)
      → str_eq (field_string from rule.field) "" ≡ false
      → linked_finding lib r rule from (to ∷ tos)
        ≡ add_found (relation_predicate_failure lib rule from (to ∷ tos) none) r
  unfolding linked_finding relation_predicate_failure first_predicate_failure
  linked_finding-found r to tos given = elim (List-cases rule.predicates) [
    | inl e ↦ rw (linked_finding, relation_predicate_failure, given, e) refl
    | inr (p, ps, e) ↦ rw (linked_finding, given, e) refl
  ]

  linked_finding-Checks :
      (r : EvaluationResult) (linked : List Record)
      → Checks r (linked_finding lib r rule from linked) (
          (str_eq (field_string from rule.field) "" ≡ false) × Any (IsMatched lib rule from) linked)
  unfolding linked_finding
  linked_finding-Checks r linked = elim (Bool-cases (str_eq (field_string from rule.field) "")) [
    | inl e ↦ rw (linked_finding, e) (failed r _ λ q. cc q.0)
    | inr e ↦ given linked e
  ]
    where
      given :
          (linked : List Record)
          → str_eq (field_string from rule.field) "" ≡ false
          → Checks r (linked_finding lib r rule from linked) (
              (str_eq (field_string from rule.field) "" ≡ false)
              × Any (IsMatched lib rule from) linked)
      given [] e = rw (linked_finding, e) (failed r _ λ q. q.1)
      given (to ∷ tos) e =
          let found = relation_predicate_failure-none to tos in
          subst
            (λ x. Checks r x (
              (str_eq (field_string from rule.field) "" ≡ false)
              × Any (IsMatched lib rule from) (to ∷ tos)))
            (sym (linked_finding-found r to tos e))
            (add_found-Checks r _ (λ m. (e, found.0 m), λ q. found.1 q.1))

module _ (lib : Library) (rule : RelationRule) where
  relate-Checks :
      (tos : List Record) (r : EvaluationResult) (from : Record)
      → Checks r
          (relate lib rule (index_by_field tos rule.field) r from)
          (IsLinked lib rule tos from)
  relate-Checks tos r from =
      let v = field_string from rule.field in
      let linked = at_key (index_by_field tos rule.field) v in
      restated r (linked_finding lib r rule from linked)
        (
          λ q. (
            q.0,
            (Any-with_value (IsMatched lib rule from) rule.field v tos).0 (
                subst (Any (IsMatched lib rule from))
                  (index_by_field-with_value rule.field v q.0 tos) q.1),
          ),
          λ q. (
            q.0,
            subst (Any (IsMatched lib rule from))
                (sym (index_by_field-with_value rule.field v q.0 tos))
                ((Any-with_value (IsMatched lib rule from) rule.field v tos).1 q.1),
          ),
        )
        (linked_finding-Checks lib rule from r linked)

  pub evaluate_relation_rule-Checks :
      (r : EvaluationResult) (m : Map (List Record))
      → Checks r (evaluate_relation_rule lib r m rule) (
          (at_key m rule.to ≡ []) ⊎ All (IsLinked lib rule (at_key m rule.to)) (at_key m rule.from))
  unfolding evaluate_relation_rule
  evaluate_relation_rule-Checks r m = by_records (at_key m rule.from) (at_key m rule.to)
    where
      by_records :
          (froms tos : List Record)
          → Checks r
              (if no_elements froms || no_elements tos
                then r
                else for_each (relate lib rule (index_by_field tos rule.field)) r froms)
              ((tos ≡ []) ⊎ All (IsLinked lib rule tos) froms)
      by_records [] tos = kept r (inr tt)
      by_records (x ∷ xs) [] = kept r (inl refl)
      by_records (x ∷ xs) (y ∷ ys) =
          restated r (for_each (relate lib rule (index_by_field (y ∷ ys) rule.field)) r (x ∷ xs))
            (inr, λ h. elim h [ inl e ↦ cc e | inr a ↦ a ])
            (for_each-Checks (relate lib rule (index_by_field (y ∷ ys) rule.field))
              (IsLinked lib rule (y ∷ ys)) (relate-Checks (y ∷ ys)) r (x ∷ xs))
