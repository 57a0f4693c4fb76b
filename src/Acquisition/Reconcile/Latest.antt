-- ===== src/Acquisition/Reconcile/Latest.antt =====
-- Which record LoadFromBundle keeps for a source (internal/acquisition/reconcile.go).
use atb.Prelude.{
  ◌≡◌, refl, sym, subst, String, Bool, true, false, List, [], ◌∷◌, Option, none, some, inl, inr,
  ◌⊎◌, Bool-cases, str_eq, All, eq_iff, if◌then◌else◌,
}
use atb.Prelude.Int.{ℤ, leb_ℤ, ltb_ℤ, leb_ℤ-refl, leb_ℤ-trans, ltb_ℤ-leb_ℤ, leb_ℤ-total}
use atb.Prelude.Map.{Map, lookup, put}
use atb.Event.{AcquisitionInfo}
use atb.Bundle.{Record, manifest_event_type}
use atb.Acquisition.Reconcile.{
  KnownRecord, identity_key, identity_of, is_unstable, loaded_record, is_later, keep_latest,
  load_record, load_from_bundle,
}

-- The acquisition of a record, if it is one of the source with the key.
abbrev pub has_key : String → AcquisitionInfo → Option AcquisitionInfo
has_key key acq =
    if is_unstable (identity_of acq)
    then none
    else if str_eq (identity_key (identity_of acq)) key
    then some acq
    else none

abbrev pub bound : String → Option AcquisitionInfo → Option AcquisitionInfo
bound key none = none
bound key (some acq) = has_key key acq

abbrev pub acquisition_of : String → Record → Option AcquisitionInfo
acquisition_of key r =
    if str_eq r.event.type_id manifest_event_type then none else bound key r.event.acquisition

-- What a record makes of the known record of its key.
abbrev pub newer : ℤ → Option AcquisitionInfo → Option KnownRecord → Option KnownRecord
newer sequence none known = known
newer sequence (some acq) known =
    if is_later sequence known then some (loaded_record acq sequence) else known

kept :
    (key k : String) (m : Map KnownRecord) (sequence : ℤ) (acq : AcquisitionInfo) (u : Bool)
    → lookup key (
        if u
        then m
        else if is_later sequence (lookup k m)
        then put k (loaded_record acq sequence) m
        else m)
      ≡ newer sequence (if u then none else if str_eq k key then some acq else none) (lookup key m)
kept key k m sequence acq true = refl
kept key k m sequence acq false = elim (Bool-cases (str_eq k key)) [
  | inl e ↦
      let same : k ≡ key = (eq_iff k key).0 e in
      elim (Bool-cases (is_later sequence (lookup k m))) [
        | inl l ↦ rw (l, e, sym same, l) refl
        | inr l ↦ rw (l, e, sym same, l) refl
      ]
  | inr e ↦ elim (Bool-cases (is_later sequence (lookup k m))) [
    | inl l ↦ rw (l, e) refl
    | inr l ↦ rw (l, e) refl
  ]
]

lookup-keep_latest :
    (key : String) (m : Map KnownRecord) (sequence : ℤ) (acq : AcquisitionInfo)
    → lookup key (keep_latest m sequence acq) ≡ newer sequence (has_key key acq) (lookup key m)
unfolding keep_latest
lookup-keep_latest key m sequence acq =
    kept key (identity_key (identity_of acq)) m sequence acq (is_unstable (identity_of acq))

load_bound :
    (key : String) (m : Map KnownRecord) (sequence : ℤ) (manifest : Bool)
    (acq : Option AcquisitionInfo)
    → lookup key (if manifest then m else elim acq [ none ↦ m | some a ↦ keep_latest m sequence a ])
      ≡ newer sequence (if manifest then none else bound key acq) (lookup key m)
load_bound key m sequence true acq = refl
load_bound key m sequence false none = refl
load_bound key m sequence false (some a) = lookup-keep_latest key m sequence a

pub lookup-load_record :
    (key : String) (m : Map KnownRecord) (r : Record)
    → lookup key (load_record m r) ≡ newer r.event.sequence (acquisition_of key r) (lookup key m)
unfolding load_record
lookup-load_record key m r =
    load_bound key m r.event.sequence (str_eq r.event.type_id manifest_event_type)
      r.event.acquisition

-- The known record `old` is not later than `new`.
abbrev pub IsAtMost : Option KnownRecord → Option KnownRecord → Type 0
IsAtMost none new = Unit
IsAtMost (some old) none = false ≡ true
IsAtMost (some old) (some new) = leb_ℤ old.event_sequence new.event_sequence ≡ true

IsAtMost-refl : (o : Option KnownRecord) → IsAtMost o o
IsAtMost-refl none = tt
IsAtMost-refl (some a) = leb_ℤ-refl a.event_sequence

IsAtMost-trans : (a b c : Option KnownRecord) → IsAtMost a b → IsAtMost b c → IsAtMost a c
IsAtMost-trans none b c p q = tt
IsAtMost-trans (some a) none c p q = cc
IsAtMost-trans (some a) (some b) none p q = cc
IsAtMost-trans (some a) (some b) (some c) p q =
    leb_ℤ-trans a.event_sequence b.event_sequence c.event_sequence p q

IsAtMost-newer :
    (n : ℤ) (acq : Option AcquisitionInfo) (o : Option KnownRecord) → IsAtMost o (newer n acq o)
IsAtMost-newer n none o = IsAtMost-refl o
IsAtMost-newer n (some acq) none = tt
IsAtMost-newer n (some acq) (some k) = elim (Bool-cases (ltb_ℤ k.event_sequence n)) [
  | inl e ↦ rw e (ltb_ℤ-leb_ℤ k.event_sequence n e)
  | inr e ↦ rw e (leb_ℤ-refl k.event_sequence)
]

-- A record of the source with the key is not later than the known record `o`.
abbrev pub IsCovered : Option KnownRecord → ℤ → Option AcquisitionInfo → Type 0
IsCovered o n none = Unit
IsCovered o n (some acq) = IsAtMost (some (loaded_record acq n)) o

IsCovered-newer :
    (n : ℤ) (acq : Option AcquisitionInfo) (o : Option KnownRecord)
    → IsCovered (newer n acq o) n acq
IsCovered-newer n none o = tt
IsCovered-newer n (some acq) none = leb_ℤ-refl n
IsCovered-newer n (some acq) (some k) = elim (Bool-cases (ltb_ℤ k.event_sequence n)) [
  | inl e ↦ rw e (leb_ℤ-refl n)
  | inr e ↦ rw e (leb_ℤ-total k.event_sequence n e)
]

IsCovered-later :
    (o p : Option KnownRecord) (n : ℤ) (acq : Option AcquisitionInfo)
    → IsAtMost o p
    → IsCovered o n acq
    → IsCovered p n acq
IsCovered-later o p n none le h = tt
IsCovered-later o p n (some acq) le h = IsAtMost-trans (some (loaded_record acq n)) o p h le

load-step :
    (key : String) (m : Map KnownRecord) (r : Record) (o : Option KnownRecord)
    → IsAtMost (lookup key (load_record m r)) o
    → IsAtMost (lookup key m) o × IsCovered o r.event.sequence (acquisition_of key r)
load-step key m r o le =
    let n = r.event.sequence in
    let acq = acquisition_of key r in
    let k = lookup key m in
    let le' = subst (λ x. IsAtMost x o) (lookup-load_record key m r) le in
    (
      IsAtMost-trans k (newer n acq k) o (IsAtMost-newer n acq k) le',
      IsCovered-later (newer n acq k) o n acq le' (IsCovered-newer n acq k),
    )

-- The known record of a key is at least as late as the one before and as every record of its source.
covers :
    (key : String) (m : Map KnownRecord) (rs : List Record)
    → let o = lookup key (load_from_bundle m rs) in
      IsAtMost (lookup key m) o × All (λ r. IsCovered o r.event.sequence (acquisition_of key r)) rs
unfolding load_from_bundle
covers key m [] = (IsAtMost-refl (lookup key m), tt)
covers key m (r ∷ rs) =
    let o = lookup key (load_from_bundle (load_record m r) rs) in
    let (le, all) = covers key (load_record m r) rs in
    let (old, here) = load-step key m r o le in (old, (here, all))

-- Where the known record of a key comes from.
pub data ComesFrom (key : String) (start : Option KnownRecord)
    : List Record → Option KnownRecord → Type 0 where
  from_start : (rs : List Record) → ComesFrom key start rs start
  from_record :
      (r : Record) (rs : List Record) (acq : AcquisitionInfo)
      → acquisition_of key r ≡ some acq
      → ComesFrom key start (r ∷ rs) (some (loaded_record acq r.event.sequence))
  from_rest :
      (r : Record) (rs : List Record) (o : Option KnownRecord)
      → ComesFrom key start rs o
      → ComesFrom key start (r ∷ rs) o

from_where :
    (key : String) (start other : Option KnownRecord) (rs : List Record) (o : Option KnownRecord)
    → ComesFrom key start rs o
    → (o ≡ start) ⊎ ComesFrom key other rs o
from_where key start other _ _ (from_start rs) = inl refl
from_where key start other _ _ (from_record r rs acq q) = inr (from_record r rs acq q)
from_where key start other _ _ (from_rest r rs o c) = elim (from_where key start other rs o c) [
  | inl e ↦ inl e
  | inr d ↦ inr (from_rest r rs o d)
]

from_newer :
    (key : String) (start : Option KnownRecord) (r : Record) (rs : List Record)
    (o : Option KnownRecord) (acq : Option AcquisitionInfo)
    → acquisition_of key r ≡ acq
    → ComesFrom key (newer r.event.sequence acq start) rs o
    → ComesFrom key start (r ∷ rs) o
from_newer key start r rs o none q c = from_rest r rs o c
from_newer key start r rs o (some acq) q c =
    elim (from_where key (newer r.event.sequence (some acq) start) start rs o c) [
      | inr d ↦ from_rest r rs o d
      | inl e ↦
          subst (ComesFrom key start (r ∷ rs)) (sym e)
            (elim (Bool-cases (is_later r.event.sequence start)) [
              | inl l ↦ rw l (from_record r rs acq q)
              | inr l ↦ rw l (from_start (r ∷ rs))
            ])
    ]

comes_from :
    (key : String) (m : Map KnownRecord) (rs : List Record)
    → ComesFrom key (lookup key m) rs (lookup key (load_from_bundle m rs))
unfolding load_from_bundle
comes_from key m [] = from_start []
comes_from key m (r ∷ rs) =
    from_newer key (lookup key m) r rs (lookup key (load_from_bundle (load_record m r) rs))
      (acquisition_of key r) refl
      (subst (λ k. ComesFrom key k rs (lookup key (load_from_bundle (load_record m r) rs)))
        (lookup-load_record key m r) (comes_from key (load_record m r) rs))

-- What LoadFromBundle knows under a key, that is under a source's system and record id joined by a colon,
-- is what it knew before or one of the bundle's records with that key, and none of these, in whatever
-- order they stand in the bundle, has a higher sequence. Sources that share a key share what is known.
pub load_from_bundle-latest :
    (key : String) (m : Map KnownRecord) (rs : List Record)
    → let o = lookup key (load_from_bundle m rs) in
      ComesFrom key (lookup key m) rs o
      × IsAtMost (lookup key m) o
      × All (λ r. IsCovered o r.event.sequence (acquisition_of key r)) rs
load_from_bundle-latest key m rs = (comes_from key m rs, (covers key m rs).0, (covers key m rs).1)
