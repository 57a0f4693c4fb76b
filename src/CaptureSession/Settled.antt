-- ===== src/CaptureSession/Settled.antt =====
-- What bringing journal entries into the bundle leaves there (internal/proxy/capture.go).
use atb.Prelude.{
  suc, ◌+◌, ◌≡◌, refl, sym, ap, subst, ◌∙◌, String, false, not, List, [], ◌∷◌, ◌++◌, none, some,
  length, All, str_eq, eq_iff, same_iff, arith, inl, inr, Bool-cases, Option-cases, append_assoc',
  append-nil, length-append,
}
use atb.Prelude.Map.{Map, lookup, put}
use atb.Prelude.Result.{Result, ok, err, >>=-eq-ok, fail_if-then, ok_injective}
use atb.Canonicalize.{Platform}
use atb.Bundle.{Record, Error, Codec}
use atb.Acquisition.Import.Sourced.{IsReady, append-Added}
use atb.CaptureJournal.{Entry}
use atb.CaptureStatus.{digest_representation}
use atb.CaptureSession.{
  appended, different_digest, digest_mismatch, decoded, ObservationCodec, index_record, index_from,
  index_acquisition, live_acquisition, observation_options, append_materialised,
}
use atb.CaptureSession.Drain.{Drained, drain_entry, replay}

index_from-append :
    (m : Map String) (rs : List Record) (r : Record)
    → index_from m (rs ++ r ∷ []) ≡ index_record (index_from m rs) r.event.acquisition
index_from-append m [] r = refl
index_from-append m (s ∷ rs) r = index_from-append (index_record m s.event.acquisition) rs r

-- The bundle has a record of the observation with its digest, the last one with its identifier.
abbrev pub IsCommitted : List Record → Entry → Type 0
IsCommitted rs e = lookup e.observation_id (index_acquisition rs) ≡ some e.representation_digest

abbrev pub IsNamed : Entry → Type 0
IsNamed e = str_eq e.observation_id "" ≡ false

-- The index that the loop carries is that of its records.
abbrev pub IsIndexed : Drained → Type 0
IsIndexed s = (key : String) → lookup key s.index ≡ lookup key (index_acquisition s.records)

appended-ok : (m : Result Error (List Record)) {rs : List Record} → appended m ≡ ok rs → m ≡ ok rs
appended-ok (err e) p = cc
appended-ok (ok r) p = cc

-- The record that a materialised entry becomes.
pub record Materialised (pf : Platform) (stream : String) (rs rs' : List Record) (e : Entry)
    : Type 0 where
  pub made : Record
  pub grown : rs' ≡ rs ++ made ∷ []
  pub of_entry : made.event.acquisition ≡ some (live_acquisition stream e e.representation_digest)
  pub ready : IsReady pf rs'

-- How one or more rounds change the bundle and the count: records are only added.
pub record Grown (pf : Platform) (s t : Drained) : Type 0 where
  pub more : List Record
  pub grown : t.records ≡ s.records ++ more
  pub counted : t.appended ≡ s.appended + length more
  pub ready : IsReady pf t.records
  pub indexed : IsIndexed t
  pub kept :
      (key d : String)
      → lookup key (index_acquisition s.records) ≡ some d
      → lookup key (index_acquisition t.records) ≡ some d

pub Grown-refl : (pf : Platform) (s : Drained) → IsReady pf s.records → IsIndexed s → Grown pf s s
Grown-refl pf s ready indexed = record {
  more = [];
  grown = sym (append-nil s.records);
  counted = omega arith;
  ready = ready;
  indexed = indexed;
  kept = λ key d p. p;
}

pub Grown-trans : (pf : Platform) (s t u : Drained) → Grown pf s t → Grown pf t u → Grown pf s u
Grown-trans pf s t u g h = record {
  more = g.more ++ h.more;
  grown = h.grown ∙ ap (λ l. l ++ h.more) g.grown ∙ append_assoc' s.records g.more h.more;
  counted = omega (arith, g.counted, h.counted, length-append g.more h.more);
  ready = h.ready;
  indexed = h.indexed;
  kept = λ key d p. h.kept key d (g.kept key d p);
}

module _ (pf : Platform) (c : Codec) (oc : ObservationCodec) (stream : String) where
  append_materialised-Materialised :
      (rs rs' : List Record) (e : Entry)
      → IsReady pf rs
      → append_materialised pf c oc stream rs e ≡ ok rs'
      → Materialised pf stream rs rs' e
  unfolding append_materialised observation_options
  append_materialised-Materialised rs rs' e ready h = elim (Option-cases (decoded oc e.payload)) [
    | inl n ↦ absurd (ground arith)
    | inr (p, q) ↦ elim (Option-cases (digest_representation pf e)) [
      | inl n ↦ absurd (ground arith)
      | inr (digest, d) ↦
          let (same, h₁) =
            fail_if-then (not (str_eq digest e.representation_digest))
              (digest_mismatch e.observation_id) _ (rw (append_materialised, q, d) at h) in
          let added = append-Added pf c rs rs' _ _ _ ready (appended-ok _ h₁) in
          record {
            made = added.added;
            grown = added.extended;
            of_entry =
                added.its_acquisition
                ∙ ap (λ x. some (live_acquisition stream e x))
                    ((same_iff digest e.representation_digest).0 same);
            ready = added.ready;
          }
    ]
  ]

  -- The index behind a materialised entry.
  Materialised-index :
      (rs rs' : List Record) (e : Entry) (key : String)
      → IsNamed e
      → Materialised pf stream rs rs' e
      → lookup key (index_acquisition rs')
        ≡ lookup key (put e.observation_id e.representation_digest (index_acquisition rs))
  unfolding live_acquisition
  Materialised-index rs rs' e key named m =
      ap (λ l. lookup key (index_acquisition l)) m.grown
      ∙ ap (lookup key) (index_from-append [] rs m.made)
      ∙ ap (λ a. lookup key (index_record (index_acquisition rs) a)) m.of_entry
      ∙ rw named refl

  abbrev with_entry : Drained → List Record → Entry → Drained
  with_entry s longer e = record {
    records = longer;
    index = put e.observation_id e.representation_digest s.index;
    appended = suc s.appended;
  }

  module _ (s : Drained) (longer : List Record) (e : Entry) (named : IsNamed e)
      (indexed : IsIndexed s) (new : lookup e.observation_id s.index ≡ none)
      (m : Materialised pf stream s.records longer e) where
    with_entry-IsIndexed : IsIndexed (with_entry s longer e)
    with_entry-IsIndexed key = elim (Bool-cases (str_eq e.observation_id key)) [
      | inl q ↦ rw (q, Materialised-index s.records longer e key named m, q) refl
      | inr q ↦ rw (q, Materialised-index s.records longer e key named m, q) (indexed key)
    ]

    with_entry-kept :
        (key d : String)
        → lookup key (index_acquisition s.records) ≡ some d
        → lookup key (index_acquisition longer) ≡ some d
    with_entry-kept key d p = elim (Bool-cases (str_eq e.observation_id key)) [
      | inl q ↦
          let absent : lookup key s.index ≡ none =
            subst (λ k. lookup k s.index ≡ none) ((eq_iff e.observation_id key).0 q) new in
          cc (sym p ∙ sym (indexed key) ∙ absent)
      | inr q ↦ Materialised-index s.records longer e key named m ∙ rw q p
    ]

    with_entry-Grown : Grown pf s (with_entry s longer e) × IsCommitted longer e
    with_entry-Grown = (
      record {
        more = m.made ∷ [];
        grown = m.grown;
        counted = omega arith;
        ready = m.ready;
        indexed = with_entry-IsIndexed;
        kept = with_entry-kept;
      },
      Materialised-index s.records longer e e.observation_id named m
          ∙ rw ((eq_iff e.observation_id e.observation_id).1 refl) refl,
    )

  -- One round commits its entry.
  drain_entry-Grown :
      (s t : Drained) (e : Entry)
      → IsReady pf s.records
      → IsIndexed s
      → IsNamed e
      → drain_entry pf c oc stream s e ≡ ok t
      → Grown pf s t × IsCommitted t.records e
  unfolding drain_entry
  drain_entry-Grown s t e ready indexed named h =
      elim (Option-cases (lookup e.observation_id s.index)) [
        | inr (d, q) ↦
            let (same, h₁) =
              fail_if-then (not (str_eq d e.representation_digest))
                (different_digest e.observation_id) _ (rw (drain_entry, q) at h) in
            let s=t : s ≡ t = cc in
            (
              subst (Grown pf s) s=t (Grown-refl pf s ready indexed),
              subst (λ u. IsCommitted u.records e) s=t
                  (sym (indexed e.observation_id)
                    ∙ q
                    ∙ ap some ((same_iff d e.representation_digest).0 same)),
            )
        | inl q ↦
            let (longer, p, h₁) =
              >>=-eq-ok (append_materialised pf c oc stream s.records e) _
                (rw (drain_entry, q) at h) in
            let m = append_materialised-Materialised s.records longer e ready p in
            subst (λ u. Grown pf s u × IsCommitted u.records e) (ok_injective h₁)
              (with_entry-Grown s longer e named indexed q m)
      ]

  -- The loop commits all its entries.
  pub replay-Grown :
      (s t : Drained) (es : List Entry)
      → IsReady pf s.records
      → IsIndexed s
      → All IsNamed es
      → replay pf c oc stream s es ≡ ok t
      → Grown pf s t × All (IsCommitted t.records) es
  unfolding replay
  replay-Grown s t [] ready indexed named h =
      (subst (Grown pf s) (ok_injective h) (Grown-refl pf s ready indexed), tt)
  replay-Grown s t (e ∷ es) ready indexed (n, named) h =
      let (u, p, q) = >>=-eq-ok (drain_entry pf c oc stream s e) _ h in
      let (g, here) = drain_entry-Grown s u e ready indexed n p in
      let (g', rest) = replay-Grown u t es g.ready g.indexed named q in
      (Grown-trans pf s u t g g', (g'.kept _ _ here, rest))

  -- Entries that are committed already are passed over.
  pub replay-committed :
      (s : Drained) (es : List Entry)
      → IsIndexed s
      → All (IsCommitted s.records) es
      → replay pf c oc stream s es ≡ ok s
  unfolding replay drain_entry
  replay-committed s [] indexed all = refl
  replay-committed s (e ∷ es) indexed (here, all) =
      rw
        (
          replay,
          drain_entry,
          indexed e.observation_id,
          here,
          (eq_iff e.representation_digest e.representation_digest).1 refl,
        )
        (replay-committed s es indexed all)
