-- ===== src/Bundle/Append/Laws/Floor.antt =====
-- The version floor of acquisition-bearing events, kept along any series of appends
-- (internal/bundle/bundle.go, AppendWithOptions).
use atb.Prelude.{
  ◌≡◌, ◌⊎◌, inl, inr, refl, sym, subst, ◌∙◌, String, true, List, [], ◌∷◌, ◌++◌, Option, none, some,
  All, length, ◌==◌, ◌&&◌, not, false, str_eq, eq_iff, arith, Bool-cases,
}
use atb.Prelude.Result.{ok, Result-cases}
use atb.Json.{Value}
use atb.Canonicalize.{Platform}
use atb.Event.{AcquisitionInfo}
use atb.Bundle.{
  Record, no_prefix, ManifestData, AppendOptions, Codec, manifest_event_type, has_manifest_record,
}
use atb.Bundle.Manifest.{parse_manifest_data}
use atb.Bundle.Append.{acquisition_floor, check_acquisition, acquisition_of, append_with_options}
use atb.Bundle.Append.Laws.{append-Appended, new_event, new_event-links, verify-append}
use atb.Bundle.Verify.{verify_bundle}
use atb.Bundle.Verify.Laws.{verify_bundle_iff}

-- The first record is a manifest that parses and declares version 3.
abbrev pub DeclaresV3 : Codec → List Record → Type 0
DeclaresV3 c [] = ⊥
DeclaresV3 c (r ∷ rs) =
    (has_manifest_record (r ∷ rs) ≡ true)
    × (m : ManifestData) × (parse_manifest_data c r.event ≡ ok m)
    × (m.version ≡ "3")

abbrev pub HasNoAcquisition : Record → Type 0
HasNoAcquisition r = r.event.acquisition ≡ none

-- The bundle declares version 3, or none of its records has acquisition metadata but its manifest
-- itself, which AppendWithOptions does not check.
abbrev pub IsFloored : Codec → List Record → Type 0
IsFloored c [] = Unit
IsFloored c (r ∷ rs) =
    DeclaresV3 c (r ∷ rs)
    ⊎ (((r.event.type_id ≡ manifest_event_type) ⊎ HasNoAcquisition r) × All HasNoAcquisition rs)

DeclaresV3-append :
    (c : Codec) (rs : List Record) (r : Record) → DeclaresV3 c rs → DeclaresV3 c (rs ++ r ∷ [])
DeclaresV3-append c [] r h = absurd h
DeclaresV3-append c (s ∷ rs) r h = h

All-snoc :
    (rs : List Record) (r : Record)
    → All HasNoAcquisition rs
    → HasNoAcquisition r
    → All HasNoAcquisition (rs ++ r ∷ [])
All-snoc [] r h b = (b, tt)
All-snoc (s ∷ rs) r h b = (h.0, All-snoc rs r h.1 b)

floor-DeclaresV3 : (c : Codec) (rs : List Record) → acquisition_floor c rs ≡ ok tt → DeclaresV3 c rs
unfolding acquisition_floor
floor-DeclaresV3 c [] h = absurd (ground arith)
floor-DeclaresV3 c (r ∷ rs) h = elim (Result-cases (parse_manifest_data c r.event)) [
  | inr (e, failed) ↦ absurd (ground arith)
  | inl (m, parsed) ↦ (ground arith, m, parsed, ground (arith, eq_iff m.version "3"))
]

-- What the check lets through: a bare event, or a bundle that declares version 3.
check-IsFloored :
    (c : Codec) (rs : List Record) (type_id : String) (a : Option AcquisitionInfo)
    → check_acquisition c rs type_id a ≡ ok tt
    → ((type_id ≡ manifest_event_type) ⊎ (a ≡ none)) ⊎ DeclaresV3 c rs
unfolding check_acquisition
check-IsFloored c rs type_id none h = inl (inr refl)
check-IsFloored c rs type_id (some a) h = elim (Bool-cases (str_eq type_id manifest_event_type)) [
  | inl m ↦ inl (inl ((eq_iff type_id manifest_event_type).0 m))
  | inr m ↦ inr (floor-DeclaresV3 c rs (rw m at h))
]

append-IsFloored :
    (pf : Platform) (c : Codec) (rs rs' : List Record) (type_id : String) (payload : Value)
    (opts : Option AppendOptions)
    → IsFloored c rs
    → append_with_options pf c rs type_id payload opts ≡ ok rs'
    → IsFloored c rs'
append-IsFloored pf c rs rs' type_id payload opts f h =
    let a = append-Appended pf c rs type_id payload opts rs' h in
    let (_, _, t, _, q) = new_event-links rs type_id payload opts in
    let r : Record = record {
      event = new_event rs type_id payload opts;
      hash = a.hash;
      prefix = no_prefix;
    } in
    subst (IsFloored c) (sym a.extended) (go rs r t q a.first_if_manifest a.floor f)
  where
    go :
        (rs : List Record) (r : Record)
        → r.event.type_id ≡ type_id
        → r.event.acquisition ≡ acquisition_of opts
        → (str_eq type_id manifest_event_type && not (length rs == 0)) ≡ false
        → check_acquisition c rs type_id (acquisition_of opts) ≡ ok tt
        → IsFloored c rs
        → IsFloored c (rs ++ r ∷ [])
    go [] r t q first checked bare =
        elim (check-IsFloored c [] type_id (acquisition_of opts) checked) [
          | inr v3 ↦ absurd v3
          | inl (inl m) ↦ inr (inl (t ∙ m), tt)
          | inl (inr n) ↦ inr (inr (q ∙ n), tt)
        ]
    go (x ∷ xs) r t q first checked (inl v3) = inl (DeclaresV3-append c (x ∷ xs) r v3)
    go (x ∷ xs) r t q first checked (inr (front, bare)) =
        elim (check-IsFloored c (x ∷ xs) type_id (acquisition_of opts) checked) [
          | inr v3 ↦ inl (DeclaresV3-append c (x ∷ xs) r v3)
          | inl (inl m) ↦ absurd (ground (arith, (eq_iff type_id manifest_event_type).1 m))
          | inl (inr n) ↦ inr (front, All-snoc xs r bare (q ∙ n))
        ]

-- The bundles that appends make, from one without records.
pub data Built (pf : Platform) (c : Codec) : List Record → Type 0 where
  built_empty : Built pf c []
  built_append :
      {rs rs' : List Record} (type_id : String) (payload : Value) (opts : Option AppendOptions)
      → Built pf c rs
      → append_with_options pf c rs type_id payload opts ≡ ok rs'
      → Built pf c rs'

-- A bundle made by any series of successful appends passes Verify, and unless it declares manifest
-- version 3 none of its records has acquisition metadata, with the exception of the manifest's own
-- record, for which AppendWithOptions does not check it.
pub Built-IsSound :
    (pf : Platform) (c : Codec) {rs : List Record}
    → Built pf c rs
    → (verify_bundle pf rs ≡ none) × IsFloored c rs
Built-IsSound pf c built_empty = ((verify_bundle_iff pf []).1 tt, tt)
Built-IsSound pf c (built_append {rs} {rs'} type_id payload opts b h) =
    let (v, f) = Built-IsSound pf c b in
    (
      verify-append pf c rs rs' type_id payload opts v h,
      append-IsFloored pf c rs rs' type_id payload opts f h,
    )
