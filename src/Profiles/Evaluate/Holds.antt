-- ===== src/Profiles/Evaluate/Holds.antt =====
-- What the rules of a profile ask of records (internal/profiles/evaluate.go), without indexes, loops and
-- findings.
use atb.Prelude.{◌≡◌, ◌⊎◌, true, false, List, [], ◌∷◌, ◌++◌, All, str_eq}
use atb.Prelude.Int.{ℤ, ltb_ℤ}
use atb.Bundle.{Record}
use atb.Profiles.{EventRule, RequiredWhenRule, RelationRule, ProfileSchema, Library}
use atb.Profiles.Fields.{
  data_map, has_field, field_string, Timestamp, at_time, parse_event_timestamp,
}
use atb.Profiles.Evaluate.{target_of}
use atb.Profiles.Evaluate.Indexed.{of_type}

abbrev pub Any : {A : Type 0} → (A → Type 0) → List A → Type 0
Any P [] = ⊥
Any P (x ∷ xs) = P x ⊎ Any P xs

-- The first record of the type has the fields that the rule names.
abbrev pub IsPresent : EventRule → List Record → Type 0
IsPresent rule [] = ⊥
IsPresent rule (r ∷ rs) = All (λ k. has_field (data_map r.event.payload) k ≡ true) rule.fields

module _ (lib : Library) where
  -- A rule on events, which is critical unless its severity is a warning.
  abbrev pub IsEventMet : List Record → EventRule → Type 0
  IsEventMet rs rule =
      (lib.equal_fold rule.severity "warning" ≡ true) ⊎ IsPresent rule (of_type rule.type_id rs)

  abbrev pub IsMatched : RelationRule → Record → Record → Type 0
  IsMatched rule from to =
      All (λ p. lib.equal_fold (field_string (target_of p from to) p.field) p.equals ≡ true)
        rule.predicates

  -- The record has a value in the rule's field, and a record among `tos` with the same value meets the
  -- predicates.
  abbrev pub IsLinked : RelationRule → List Record → Record → Type 0
  IsLinked rule tos from =
      (str_eq (field_string from rule.field) "" ≡ false)
      × Any
          (λ to.
            (str_eq (field_string to rule.field) (field_string from rule.field) ≡ true)
            × IsMatched rule from to)
          tos

  abbrev pub IsRelated : List Record → RelationRule → Type 0
  IsRelated rs rule =
      (of_type rule.to rs ≡ []) ⊎ All (IsLinked rule (of_type rule.to rs)) (of_type rule.from rs)

  abbrev pub IsUntimed : Timestamp → Type 0
  IsUntimed (at_time t) = ⊥
  IsUntimed _ = Unit

  abbrev pub IsNotBefore : ℤ → Timestamp → Type 0
  IsNotBefore t (at_time u) = ltb_ℤ u t ≡ false
  IsNotBefore t _ = ⊥

  -- The targets against the timestamp of the condition: where both sides can be read, one target is at
  -- or after it.
  abbrev pub IsOrdered : List Record → Timestamp → Type 0
  IsOrdered targets (at_time t) =
      All (λ r. IsUntimed (parse_event_timestamp lib r)) targets
      ⊎ Any (λ r. IsNotBefore t (parse_event_timestamp lib r)) targets
  IsOrdered targets _ = Unit

  -- A required_when condition, on the records of its type and the targets.
  abbrev pub IsConditionMet : RequiredWhenRule → List Record → List Record → Type 0
  IsConditionMet c [] targets = Unit
  IsConditionMet c (first ∷ more) [] = ⊥
  IsConditionMet c (first ∷ more) (r ∷ targets) =
      (c.at_or_after ≡ false) ⊎ IsOrdered (r ∷ targets) (parse_event_timestamp lib first)

  abbrev pub AreConditionsMet : List Record → EventRule → Type 0
  AreConditionsMet rs rule =
      All (λ c. IsConditionMet c (of_type c.when_type rs) (of_type rule.type_id rs))
        rule.required_when

  -- The records meet every rule of the profile.
  abbrev pub IsCompliant : ProfileSchema → List Record → Type 0
  IsCompliant schema rs =
      All (IsEventMet rs) schema.required
      × All (IsEventMet rs) schema.optional
      × All (IsRelated rs) schema.relations
      × All (AreConditionsMet rs) (schema.required ++ schema.optional)
