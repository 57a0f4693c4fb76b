-- ===== src/Acquisition/Import/Sourced.antt =====
-- What an append makes known of its sources (internal/acquisition/import_integration.go).
use atb.Prelude.{
  ◌≡◌, refl, sym, ap, subst, ◌∙◌, String, true, false, not, ◌&&◌, List, [], ◌∷◌, ◌++◌, Option, none,
  some, length, str_eq, ◌==◌, eq_iff, arith, inl, inr, Bool-cases, if◌then◌else◌,
}
use atb.Prelude.Int.{pos}
use atb.Prelude.Map.{Map, lookup}
use atb.Prelude.Result.{ok}
use atb.Json.{Value}
use atb.Canonicalize.{Platform}
use atb.HashChain.{genesis_hash}
use atb.HashChain.Spec.{IsChain}
use atb.Event.{AcquisitionInfo}
use atb.Bundle.{
  Record, no_prefix, AppendOptions, Codec, manifest_event_type, has_manifest_record, pairs,
}
use atb.Bundle.Append.{append_with_options, next_sequence, acquisition_of}
use atb.Bundle.Append.Laws.{append-Appended, new_event, new_event-links, verify-append}
use atb.Bundle.Verify.{verify_bundle}
use atb.Bundle.Verify.Laws.{verify_bundle_iff}
use atb.Acquisition.Reconcile.{
  KnownRecord, identity_key, identity_of, is_unstable, load_from_bundle,
}
use atb.Acquisition.Import.{ImportEvent}
use atb.Acquisition.Import.Known.{
  known_digest, load_from_bundle-append, IsBelow, IsBelow-load, load_record-bare,
  known_digest-load_record,
}

-- A bundle that passes Verify and starts with a manifest.
pub record IsReady (pf : Platform) (rs : List Record) : Type 0 where
  pub verified : verify_bundle pf rs ≡ none
  pub starts : has_manifest_record rs ≡ true

-- The records of a bundle as LoadFromBundle knows them.
abbrev pub known_of : List Record → Map KnownRecord
known_of rs = load_from_bundle [] rs

known_of-IsBelow :
    (pf : Platform) (rs : List Record)
    → IsReady pf rs
    → (key : String) → IsBelow (length rs) (lookup key (known_of rs))
known_of-IsBelow pf rs ready key =
    let chain = (verify_bundle_iff pf rs).0 ready.verified in
    subst (λ n. IsBelow n (lookup key (known_of rs))) (omega arith)
      (IsBelow-load pf key [] rs 0 genesis_hash
        (subst (λ n. IsChain pf n genesis_hash (pairs rs)) (rw ready.starts refl) chain) tt)

-- What a successful append adds to a bundle with a manifest.
pub record Added (pf : Platform) (rs rs' : List Record) (acq : Option AcquisitionInfo)
    : Type 0 where
  pub added : Record
  pub extended : rs' ≡ rs ++ added ∷ []
  pub its_acquisition : added.event.acquisition ≡ acq
  pub plain : str_eq added.event.type_id manifest_event_type ≡ false
  pub next : added.event.sequence ≡ pos (length rs)
  pub ready : IsReady pf rs'

has_manifest-append :
    (rs : List Record) (r : Record)
    → has_manifest_record rs ≡ true
    → has_manifest_record (rs ++ r ∷ []) ≡ true
has_manifest-append [] r h = cc
has_manifest-append (s ∷ rs) r h = h

not_manifest :
    (rs : List Record) (t : String)
    → has_manifest_record rs ≡ true
    → (str_eq t manifest_event_type && not (length rs == 0)) ≡ false
    → str_eq t manifest_event_type ≡ false
not_manifest [] t h p = cc
not_manifest (r ∷ rs) t h p = ground arith

next_sequence-length :
    (rs : List Record) (t : String)
    → has_manifest_record rs ≡ true
    → str_eq t manifest_event_type ≡ false
    → next_sequence rs t ≡ pos (length rs)
unfolding next_sequence
next_sequence-length rs t h p = rw (p, h) refl

module _ (pf : Platform) (c : Codec) (rs rs' : List Record) (t : String) (payload : Value)
    (opts : Option AppendOptions) where
  pub append-Added :
      IsReady pf rs
      → append_with_options pf c rs t payload opts ≡ ok rs'
      → Added pf rs rs' (acquisition_of opts)
  append-Added ready h =
      let a = append-Appended pf c rs t payload opts rs' h in
      let (q, _, same, _, acq) = new_event-links rs t payload opts in
      let plain = not_manifest rs t ready.starts a.first_if_manifest in
      record {
        added = record { event = new_event rs t payload opts; hash = a.hash; prefix = no_prefix };
        extended = a.extended;
        its_acquisition = acq;
        plain = rw same plain;
        next = q ∙ next_sequence-length rs t ready.starts plain;
        ready = record {
          verified = verify-append pf c rs rs' t payload opts ready.verified h;
          starts =
              subst (λ l. has_manifest_record l ≡ true) (sym a.extended)
                (has_manifest-append rs _ ready.starts);
        };
      }

-- The source record of an event has a stable identity, and its digest is that of its key by `digest`.
abbrev pub HasSource : (String → String) → ImportEvent → Type 0
HasSource digest ev =
    (acq : AcquisitionInfo) × (ev.acquisition ≡ some acq)
    × (is_unstable (identity_of acq) ≡ false)
    × (acq.source_digest ≡ digest (identity_key (identity_of acq)))

abbrev pub key_of : Option AcquisitionInfo → String
key_of none = ""
key_of (some acq) = identity_key (identity_of acq)

-- The digest of a key is the known one.
abbrev pub IsKnown : (String → String) → Map KnownRecord → String → Type 0
IsKnown digest m key = known_digest m key ≡ some (digest key)

module _ (pf : Platform) (rs rs' : List Record) where
  pub known_of-bare : Added pf rs rs' none → known_of rs' ≡ known_of rs
  known_of-bare a =
      ap known_of a.extended
      ∙ load_from_bundle-append [] rs a.added
      ∙ load_record-bare (known_of rs) a.added a.its_acquisition

  module _ (digest : String → String) (acq : AcquisitionInfo) where
    known_of-sourced :
        IsReady pf rs
        → is_unstable (identity_of acq) ≡ false
        → acq.source_digest ≡ digest (identity_key (identity_of acq))
        → Added pf rs rs' (some acq)
        → (key : String)
        → known_digest (known_of rs') key ≡ (
            if str_eq (identity_key (identity_of acq)) key
            then some (digest key)
            else known_digest (known_of rs) key)
    known_of-sourced ready u d a key =
        ap (λ l. known_digest (known_of l) key) a.extended
        ∙ ap (λ m. known_digest m key) (load_from_bundle-append [] rs a.added)
        ∙ known_digest-load_record (known_of rs) a.added acq (length rs) key a.plain
            a.its_acquisition u a.next (known_of-IsBelow pf rs ready key)
        ∙ of_key (identity_key (identity_of acq)) key d
      where
        of_key :
            (k key : String)
            → acq.source_digest ≡ digest k
            → (if str_eq k key then some acq.source_digest else known_digest (known_of rs) key)
              ≡ (if str_eq k key then some (digest key) else known_digest (known_of rs) key)
        of_key k key d = elim (Bool-cases (str_eq k key)) [
          | inl e ↦ rw e (ap some (d ∙ ap digest ((eq_iff k key).0 e)))
          | inr e ↦ rw e refl
        ]

    pub sourced-IsKnown :
        IsReady pf rs
        → is_unstable (identity_of acq) ≡ false
        → acq.source_digest ≡ digest (identity_key (identity_of acq))
        → Added pf rs rs' (some acq)
        → ((key : String) → IsKnown digest (known_of rs) key → IsKnown digest (known_of rs') key)
          × IsKnown digest (known_of rs') (identity_key (identity_of acq))
    sourced-IsKnown ready u d a = (
      λ key known.
          known_of-sourced ready u d a key
          ∙ elim (Bool-cases (str_eq (identity_key (identity_of acq)) key)) [
            | inl e ↦ rw e refl
            | inr e ↦ rw e known
          ],
      known_of-sourced ready u d a (identity_key (identity_of acq))
          ∙ rw ((eq_iff (identity_key (identity_of acq)) (identity_key (identity_of acq))).1 refl)
              refl,
    )
