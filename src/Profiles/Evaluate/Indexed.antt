-- ===== src/Profiles/Evaluate/Indexed.antt =====
-- indexRecordsByType and indexByField as filters (internal/profiles/evaluate.go).
use atb.Prelude.{
  ◌≡◌, refl, sym, ap, ◌∙◌, subst, String, true, false, List, [], ◌∷◌, ◌++◌, str_eq, eq_iff,
  Bool-cases, inl, inr, append-nil, append_assoc', if◌then◌else◌,
}
use atb.Prelude.Map.{Map, lookup-put, lookup-put_other}
use atb.Bundle.{Record}
use atb.Profiles.Fields.{
  field_string, or_no_records, at_key, push, index_types_from, index_records_by_type,
  index_fields_from, index_by_field,
}

-- The records of a type, in order.
abbrev pub of_type : String → List Record → List Record
of_type k [] = []
of_type k (r ∷ rs) = if str_eq r.event.type_id k then r ∷ of_type k rs else of_type k rs

-- The records with a value in the field, in order.
abbrev pub with_value : String → String → List Record → List Record
with_value field v [] = []
with_value field v (r ∷ rs) =
    if str_eq (field_string r field) v then r ∷ with_value field v rs else with_value field v rs

-- What a record adds behind the key `j`.
pushed :
    (k j : String) (r : Record) (m : Map (List Record)) (later : List Record)
    → at_key (push k r m) j ++ later ≡ at_key m j ++ (if str_eq k j then r ∷ later else later)
pushed k j r m later = elim (Bool-cases (str_eq k j)) [
  | inl e ↦
      let same : k ≡ j = (eq_iff k j).0 e in
      let found : at_key (push k r m) j ≡ at_key m j ++ r ∷ [] =
        subst (λ i. at_key (push k r m) i ≡ at_key m i ++ r ∷ []) same
          (ap or_no_records (lookup-put k (at_key m k ++ r ∷ []) m)) in
      ap (λ l. l ++ later) found ∙ append_assoc' (at_key m j) (r ∷ []) later ∙ rw (e) refl
  | inr e ↦
      ap (λ l. or_no_records l ++ later) (lookup-put_other k j (at_key m k ++ r ∷ []) m e)
      ∙ rw (e) refl
]

index_types_from-of_type :
    (k : String) (rs : List Record) (m : Map (List Record))
    → at_key (index_types_from m rs) k ≡ at_key m k ++ of_type k rs
unfolding index_types_from
index_types_from-of_type k [] m = sym (append-nil (at_key m k))
index_types_from-of_type k (r ∷ rs) m =
    index_types_from-of_type k rs (push r.event.type_id r m)
    ∙ pushed r.event.type_id k r m (of_type k rs)

pub index_records_by_type-of_type :
    (k : String) (rs : List Record) → at_key (index_records_by_type rs) k ≡ of_type k rs
unfolding index_records_by_type
index_records_by_type-of_type k rs = index_types_from-of_type k rs []

unequal : (w v : String) → str_eq w "" ≡ true → str_eq v "" ≡ false → str_eq w v ≡ false
unequal w v blank given = elim (Bool-cases (str_eq w v)) [
  | inl e ↦ cc (sym (subst (λ x. str_eq x "" ≡ true) ((eq_iff w v).0 e) blank) ∙ given)
  | inr e ↦ e
]

index_fields_from-with_value :
    (field v : String) (given : str_eq v "" ≡ false) (rs : List Record) (m : Map (List Record))
    → at_key (index_fields_from field m rs) v ≡ at_key m v ++ with_value field v rs
unfolding index_fields_from
index_fields_from-with_value field v given [] m = sym (append-nil (at_key m v))
index_fields_from-with_value field v given (r ∷ rs) m =
    let w = field_string r field in
    elim (Bool-cases (str_eq w "")) [
      | inl e ↦
          let other : str_eq w v ≡ false = unequal w v e given in
          rw (e, other) (index_fields_from-with_value field v given rs m)
      | inr e ↦ rw (e) (
          index_fields_from-with_value field v given rs (push w r m)
          ∙ pushed w v r m (with_value field v rs))
    ]

pub index_by_field-with_value :
    (field v : String)
    → str_eq v "" ≡ false
    → (rs : List Record) → at_key (index_by_field rs field) v ≡ with_value field v rs
unfolding index_by_field
index_by_field-with_value field v given rs = index_fields_from-with_value field v given rs []
