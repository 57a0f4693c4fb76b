-- ===== src/Acquisition/Import/Verified.antt =====
-- Stamping, applying and Verify (internal/acquisition/import_integration.go).
use atb.Prelude.{
  ℕ, ◌≡◌, ap, subst, String, not, List, [], ◌∷◌, none, length, str_eq, arith, inl, inr, Bool-cases,
  Option-cases,
}
use atb.Prelude.Result.{ok, ◌>>=◌, ◌>>◌, >>=-eq-ok, ok_injective, fail_if-then, fail_if}
use atb.Json.{Value}
use atb.Canonicalize.{Platform}
use atb.HashChain.{compute}
use atb.Bundle.{Record, Codec, manifest_event_type}
use atb.Bundle.Append.{NewOptions, new_with_options, manifest_payload, created_only}
use atb.Bundle.Append.Laws.{append-Appended, verify-append}
use atb.Bundle.Verify.{verify_bundle}
use atb.Bundle.Verify.Laws.{verify_bundle_iff}
use atb.Acquisition.Import.{ReconcileCounts, ReconcileAction}
use atb.Acquisition.Import.Write.{
  finding_not_appended, event_not_appended, append_acquisition_finding, append_finding,
  append_event, write_action, apply_from,
}
use atb.Acquisition.Import.Apply.{relabel-ok}
use atb.Acquisition.Import.Stamp.{
  ObjectCodec, stamp_manifest_provenance, stamped_data, rehashed, no_manifest_first, empty_key,
}
use atb.CaptureJournal.Space.{is_blank}

module _ (pf : Platform) (c : Codec) where
  append_finding-verify :
      (now : String) (rs rs' : List Record) (a : ReconcileAction)
      → verify_bundle pf rs ≡ none
      → append_finding pf c now rs a ≡ ok rs'
      → verify_bundle pf rs' ≡ none
  unfolding append_finding append_acquisition_finding
  append_finding-verify now rs rs' a v h = elim (Option-cases a.finding) [
    | inl e ↦ subst (λ l. verify_bundle pf l ≡ none) (ok_injective (rw (append_finding, e) at h)) v
    | inr (f, e) ↦ elim (Option-cases a.event.acquisition) [
      | inl n ↦ absurd (ground arith)
      | inr (acq, n) ↦
          verify-append pf c rs rs' _ _ _ v
            (relabel-ok finding_not_appended _ (rw (append_finding, e, n) at h))
    ]
  ]

  write_action-verify :
      (clock : ℕ → String) (rs rs' : List Record) (a : ReconcileAction)
      → verify_bundle pf rs ≡ none
      → write_action pf c clock rs a ≡ ok rs'
      → verify_bundle pf rs' ≡ none
  unfolding write_action append_event
  write_action-verify clock rs rs' a v h =
      let (found, p, q) = >>=-eq-ok (append_finding pf c (clock (length rs)) rs a) _ h in
      verify-append pf c found rs' _ _ _ (append_finding-verify _ rs found a v p)
        (relabel-ok event_not_appended _ q)

  -- Applying a plan keeps a bundle verifiable.
  pub apply_from-verify :
      (clock : ℕ → String) (rs rs' : List Record) (counts counts' : ReconcileCounts)
      (actions : List ReconcileAction)
      → verify_bundle pf rs ≡ none
      → apply_from pf c clock rs counts actions ≡ ok (counts', rs')
      → verify_bundle pf rs' ≡ none
  unfolding apply_from
  apply_from-verify clock rs rs' counts counts' [] v h =
      subst (λ l. verify_bundle pf l ≡ none) (ap (λ p. p.1) (ok_injective h)) v
  apply_from-verify clock rs rs' counts counts' (a ∷ rest) v h = elim (Bool-cases a.skip) [
    | inl s ↦ apply_from-verify clock rs rs' counts counts' rest v (rw (apply_from, s) at h)
    | inr s ↦
        let (longer, p, q) = >>=-eq-ok (write_action pf c clock rs a) _ (rw (apply_from, s) at h) in
        apply_from-verify clock longer rs' _ counts' rest
          (write_action-verify clock rs longer a v p) q
  ]

  -- A new bundle passes Verify and has one record.
  pub new_with_options-single :
      (o : NewOptions) (created_at bundle_id : String) (rs : List Record)
      → new_with_options pf c o created_at bundle_id ≡ ok rs
      → (verify_bundle pf rs ≡ none) × (r : Record) × (rs ≡ r ∷ [])
  unfolding new_with_options
  new_with_options-single o created_at bundle_id rs h =
      let (p, payload, appended) = >>=-eq-ok (manifest_payload c o created_at bundle_id) _ h in
      let a = append-Appended pf c [] manifest_event_type p (created_only created_at) rs appended in
      (
        verify-append pf c [] rs manifest_event_type p (created_only created_at)
            ((verify_bundle_iff pf []).1 tt) appended,
        _,
        a.extended,
      )

module _ (pf : Platform) (oc : ObjectCodec) where
  rehashed-verify :
      (r : Record) (data' : Value) (rs' : List Record)
      → verify_bundle pf (r ∷ []) ≡ none
      → rehashed pf r [] data' ≡ ok rs'
      → verify_bundle pf rs' ≡ none
  unfolding rehashed
  rehashed-verify r data' rs' v h =
      let e = record r.event { payload = data' } in
      let chain = (verify_bundle_iff pf (r ∷ [])).0 v in
      elim (Option-cases (compute pf e)) [
        | inl n ↦ absurd (ground arith)
        | inr (d, q) ↦
            subst (λ l. verify_bundle pf l ≡ none) (ok_injective (rw (rehashed, q) at h))
              ((verify_bundle_iff pf (record r { event = e; hash = d } ∷ [])).1
                (chain.0, chain.1, q, tt))
      ]

  -- A bundle of its manifest alone that passes Verify passes it with any provenance in that manifest.
  pub stamp_manifest_provenance-verify :
      (r : Record) (key value : String) (rs' : List Record)
      → verify_bundle pf (r ∷ []) ≡ none
      → stamp_manifest_provenance pf oc (r ∷ []) key value ≡ ok rs'
      → verify_bundle pf rs' ≡ none
  unfolding stamp_manifest_provenance
  stamp_manifest_provenance-verify r key value rs' v h =
      let stamped = stamped_data oc key value r.event.payload >>= rehashed pf r [] in
      let (_, h₁) =
        fail_if-then (not (str_eq r.event.type_id manifest_event_type)) no_manifest_first
          (fail_if (is_blank key) empty_key >> stamped) h in
      let (_, h₂) = fail_if-then (is_blank key) empty_key stamped h₁ in
      let (data', _, h₃) = >>=-eq-ok (stamped_data oc key value r.event.payload) _ h₂ in
      rehashed-verify r data' rs' v h₃
