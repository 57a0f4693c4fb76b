-- ===== src/Acquisition/Reconcile/Laws.antt =====
-- What a history of reconciliations determines (internal/acquisition/reconcile.go).
use atb.Prelude.{
  ◌≡◌, refl, subst, sym, ap, ◌∙◌, String, true, false, List, [], ◌∷◌, Option, none, some, inl, inr,
  Bool-cases, str_eq, eq_iff, if◌then◌else◌,
}
use atb.Prelude.Map.{Map, lookup, lookup-put, lookup-put_other}
use atb.Event.{SourceIdentity, AcquisitionInfo}
use atb.Acquisition.Reconcile.{
  ReconciliationResult, new, unchanged, changed, unknown, KnownRecord, identity_key, is_unstable,
  acquired, reconcile, against, FindingInfo, changed_finding,
}

-- A source record as it comes in.
pub record Incoming : Type 0 where
  pub identity : SourceIdentity
  pub digest : String
  pub at : String
  pub acquisition : Option AcquisitionInfo

-- The known records that a history, newest first, leaves of `m`.
abbrev pub after : Map KnownRecord → List Incoming → Map KnownRecord
after m [] = m
after m (x ∷ xs) = (reconcile (after m xs) x.identity x.digest x.at x.acquisition).1

-- The digest with which the key came last, in a history that is newest first.
abbrev pub last_digest : String → List Incoming → Option String
last_digest key [] = none
last_digest key (x ∷ xs) =
    if is_unstable x.identity
    then last_digest key xs
    else if str_eq (identity_key x.identity) key
    then some x.digest
    else last_digest key xs

-- What a new digest is against the one before.
abbrev pub classify : Option String → String → ReconciliationResult
classify none digest = new
classify (some previous) digest = if str_eq previous digest then unchanged else changed

abbrev pub digest_of : Option KnownRecord → Option String
digest_of none = none
digest_of (some known) = some known.digest

-- What `against` leaves under the key is a record with the new digest.
against-digest :
    (o : Option KnownRecord) (m : Map KnownRecord) (id : SourceIdentity) (digest at : String)
    (acq : Option AcquisitionInfo)
    → lookup (identity_key id) m ≡ o
    → digest_of (lookup (identity_key id) (against o m id digest at acq).1) ≡ some digest
unfolding against
against-digest none m id digest at acq q =
    ap digest_of (lookup-put (identity_key id) (acquired id digest at acq) m)
against-digest (some known) m id digest at acq q = elim (Bool-cases (str_eq known.digest digest)) [
  | inl e ↦ rw (e, q, (eq_iff known.digest digest).0 e)
  | inr e ↦ rw (e, lookup-put (identity_key id) (acquired id digest at acq) m)
]

-- Other keys keep their records.
pub against-other :
    (o : Option KnownRecord) (m : Map KnownRecord) (id : SourceIdentity) (digest at : String)
    (acq : Option AcquisitionInfo) (key : String)
    → str_eq (identity_key id) key ≡ false
    → lookup key (against o m id digest at acq).1 ≡ lookup key m
unfolding against
against-other none m id digest at acq key h =
    lookup-put_other (identity_key id) key (acquired id digest at acq) m h
against-other (some known) m id digest at acq key h =
    elim (Bool-cases (str_eq known.digest digest)) [
      | inl e ↦ rw e
      | inr e ↦ rw (e, lookup-put_other (identity_key id) key (acquired id digest at acq) m h)
    ]

-- After a record with a stable identity its key holds its digest.
here :
    (key : String) (x : Incoming) (m : Map KnownRecord)
    → str_eq (identity_key x.identity) key ≡ true
    → digest_of (
        lookup key
          (against (lookup (identity_key x.identity) m) m x.identity x.digest x.at x.acquisition).1)
      ≡ some x.digest
here key x m e =
    let same = (eq_iff (identity_key x.identity) key).0 e in
    subst
      (λ k.
        digest_of (
          lookup k
            (against (lookup (identity_key x.identity) m) m x.identity x.digest x.at
              x.acquisition).1)
        ≡ some x.digest)
      same
      (against-digest (lookup (identity_key x.identity) m) m x.identity x.digest x.at x.acquisition
        refl)

module _ (m : Map KnownRecord) (x : Incoming) where
  reconcile-unstable :
      is_unstable x.identity ≡ true → (reconcile m x.identity x.digest x.at x.acquisition).1 ≡ m
  unfolding reconcile
  reconcile-unstable u = rw u

  reconcile-stable :
      is_unstable x.identity ≡ false
      → (reconcile m x.identity x.digest x.at x.acquisition).1
        ≡ (against (lookup (identity_key x.identity) m) m x.identity x.digest x.at x.acquisition).1
  unfolding reconcile
  reconcile-stable u = rw u

-- The known records are a faithful summary of the history.
summary :
    (key : String) (xs : List Incoming) → digest_of (lookup key (after [] xs)) ≡ last_digest key xs
summary key [] = refl
summary key (x ∷ xs) = elim (Bool-cases (is_unstable x.identity)) [
  | inl u ↦
      ap (λ m. digest_of (lookup key m)) (reconcile-unstable (after [] xs) x u)
      ∙ summary key xs
      ∙ rw u refl
  | inr u ↦
      ap (λ m. digest_of (lookup key m)) (reconcile-stable (after [] xs) x u)
      ∙ elim (Bool-cases (str_eq (identity_key x.identity) key)) [
        | inl e ↦ here key x (after [] xs) e ∙ rw (u, e) refl
        | inr e ↦
            ap digest_of (
              against-other (lookup (identity_key x.identity) (after [] xs)) (after [] xs)
                x.identity x.digest x.at x.acquisition key e)
            ∙ summary key xs
            ∙ rw (u, e) refl
      ]
]

-- The finding that a record raises, as its previous and its current digest.
abbrev pub expected_finding : Option String → String → Option (String × String)
expected_finding none digest = none
expected_finding (some previous) digest =
    if str_eq previous digest then none else some (previous, digest)

abbrev pub digests : Option FindingInfo → Option (String × String)
digests none = none
digests (some f) = some (f.previous_digest, f.current_digest)

pub against-classify :
    (o : Option KnownRecord) (m : Map KnownRecord) (id : SourceIdentity) (digest at : String)
    (acq : Option AcquisitionInfo)
    → ((against o m id digest at acq).0.result ≡ classify (digest_of o) digest)
      × (digests (against o m id digest at acq).0.finding ≡ expected_finding (digest_of o) digest)
unfolding against changed_finding
against-classify none m id digest at acq = (refl, refl)
against-classify (some known) m id digest at acq = elim (Bool-cases (str_eq known.digest digest)) [
  | inl e ↦ (rw e, rw e)
  | inr e ↦ (rw e, rw e)
]

-- After any history of reconciliations that began with no known records, the next one calls a source
-- record unknown if its identity lacks the system or the record, and otherwise new, unchanged or changed
-- by the digest with which its key came last in the history. It raises a finding, which names the two
-- digests, exactly if it is changed.
pub reconcile-classify :
    (history : List Incoming) (x : Incoming)
    → let outcome = (reconcile (after [] history) x.identity x.digest x.at x.acquisition).0 in
      let previous =
        if is_unstable x.identity then none else last_digest (identity_key x.identity) history in
      (outcome.result ≡ (if is_unstable x.identity then unknown else classify previous x.digest))
      × (digests outcome.finding ≡ expected_finding previous x.digest)
unfolding reconcile
reconcile-classify history x = elim (Bool-cases (is_unstable x.identity)) [
  | inl u ↦ (rw u, rw u)
  | inr u ↦
      let m = after [] history in
      let (r, f) =
        against-classify (lookup (identity_key x.identity) m) m x.identity x.digest x.at
          x.acquisition in
      (
        rw (u, sym (summary (identity_key x.identity) history)) r,
        rw (u, sym (summary (identity_key x.identity) history)) f,
      )
]
