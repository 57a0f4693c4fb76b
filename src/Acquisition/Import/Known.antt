-- ===== src/Acquisition/Import/Known.antt =====
-- What appending a record to a bundle changes in the digests that LoadFromBundle knows
-- (internal/acquisition/reconcile.go).
use atb.Prelude.{
  ℕ, suc, ◌+◌, ◌≡◌, refl, subst, String, true, false, List, [], ◌∷◌, ◌++◌, Option, none, some,
  length, str_eq, arith, inl, inr, Bool-cases, if◌then◌else◌,
}
use atb.Prelude.Int.{ℤ, pos, negsuc, ltb_ℤ}
use atb.Prelude.Map.{Map, lookup}
use atb.Canonicalize.{Platform}
use atb.HashChain.Spec.{IsChain}
use atb.Event.{AcquisitionInfo}
use atb.Bundle.{Record, manifest_event_type, pairs}
use atb.Acquisition.Reconcile.{
  KnownRecord, identity_key, identity_of, is_unstable, is_later, load_record, load_from_bundle,
}
use atb.Acquisition.Reconcile.Laws.{digest_of}
use atb.Acquisition.Reconcile.Latest.{acquisition_of, newer, lookup-load_record}

-- The digest that is known under a key.
abbrev pub known_digest : Map KnownRecord → String → Option String
known_digest m key = digest_of (lookup key m)

pub load_from_bundle-append :
    (m : Map KnownRecord) (rs : List Record) (r : Record)
    → load_from_bundle m (rs ++ r ∷ []) ≡ load_record (load_from_bundle m rs) r
unfolding load_from_bundle
load_from_bundle-append m [] r = refl
load_from_bundle-append m (s ∷ rs) r = load_from_bundle-append (load_record m s) rs r

-- A known record, if there is one, has a sequence below `n`.
abbrev pub IsBelow : ℕ → Option KnownRecord → Type 0
IsBelow n none = Unit
IsBelow n (some k) = ltb_ℤ k.event_sequence (pos n) ≡ true

IsBelow-suc : (n : ℕ) (o : Option KnownRecord) → IsBelow n o → IsBelow (suc n) o
IsBelow-suc n none b = tt
IsBelow-suc n (some k) b = go k.event_sequence b
  where
    go : (q : ℤ) → ltb_ℤ q (pos n) ≡ true → ltb_ℤ q (pos (suc n)) ≡ true
    go (pos a) p = ground arith
    go (negsuc a) p = refl

IsBelow-newer :
    (n : ℕ) (acq : Option AcquisitionInfo) (o : Option KnownRecord)
    → IsBelow n o
    → IsBelow (suc n) (newer (pos n) acq o)
IsBelow-newer n none o b = IsBelow-suc n o b
IsBelow-newer n (some acq) o b = elim (Bool-cases (is_later (pos n) o)) [
  | inl e ↦ rw e (ground arith)
  | inr e ↦ rw e (IsBelow-suc n o b)
]

pub IsBelow-load_record :
    (key : String) (m : Map KnownRecord) (r : Record) (n : ℕ)
    → r.event.sequence ≡ pos n
    → IsBelow n (lookup key m)
    → IsBelow (suc n) (lookup key (load_record m r))
IsBelow-load_record key m r n q b =
    rw (lookup-load_record key m r, q) (IsBelow-newer n (acquisition_of key r) (lookup key m) b)

-- What is known of a well-linked bundle is below the sequence of its next record.
pub IsBelow-load :
    (pf : Platform) (key : String) (m : Map KnownRecord) (rs : List Record) (n : ℕ) (prev : String)
    → IsChain pf n prev (pairs rs)
    → IsBelow n (lookup key m)
    → IsBelow (n + length rs) (lookup key (load_from_bundle m rs))
unfolding load_from_bundle
IsBelow-load pf key m [] n prev c b = subst (λ k. IsBelow k (lookup key m)) (omega arith) b
IsBelow-load pf key m (r ∷ rs) n prev (q, _, _, c) b =
    subst (λ k. IsBelow k (lookup key (load_from_bundle (load_record m r) rs))) (omega arith)
      (IsBelow-load pf key (load_record m r) rs (suc n) r.hash c
        (IsBelow-load_record key m r n q b))

is_later-below : (n : ℕ) (o : Option KnownRecord) → IsBelow n o → is_later (pos n) o ≡ true
is_later-below n none b = refl
is_later-below n (some k) b = b

module _ (m : Map KnownRecord) (r : Record) where
  -- A record without acquisition metadata changes nothing.
  pub load_record-bare : r.event.acquisition ≡ none → load_record m r ≡ m
  unfolding load_record
  load_record-bare q = elim (Bool-cases (str_eq r.event.type_id manifest_event_type)) [
    | inl e ↦ rw e refl
    | inr e ↦ rw (e, q) refl
  ]

  -- The record of a source whose sequence is beyond the known ones sets the digest of its key.
  pub known_digest-load_record :
      (acq : AcquisitionInfo) (n : ℕ) (key : String)
      → str_eq r.event.type_id manifest_event_type ≡ false
      → r.event.acquisition ≡ some acq
      → is_unstable (identity_of acq) ≡ false
      → r.event.sequence ≡ pos n
      → IsBelow n (lookup key m)
      → known_digest (load_record m r) key ≡ (
          if str_eq (identity_key (identity_of acq)) key
          then some acq.source_digest
          else known_digest m key)
  known_digest-load_record acq n key t a u q b =
      let of_key = acquisition_of-key acq key t a u in
      elim (Bool-cases (str_eq (identity_key (identity_of acq)) key)) [
        | inl e ↦
            rw (e, lookup-load_record key m r, of_key, e, q, is_later-below n (lookup key m) b) refl
        | inr e ↦ rw (e, lookup-load_record key m r, of_key, e) refl
      ]
    where
      acquisition_of-key :
          (acq : AcquisitionInfo) (key : String)
          → str_eq r.event.type_id manifest_event_type ≡ false
          → r.event.acquisition ≡ some acq
          → is_unstable (identity_of acq) ≡ false
          → acquisition_of key r
            ≡ (if str_eq (identity_key (identity_of acq)) key then some acq else none)
      acquisition_of-key acq key t a u = rw (t, a, u) refl
