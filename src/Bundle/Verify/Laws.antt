-- ===== src/Bundle/Verify/Laws.antt =====
-- What Bundle.Verify accepts (internal/bundle/bundle.go).
use atb.Prelude.{
  ℕ, suc, ◌+◌, ◌≡◌, ◌↔◌, refl, sym, ap, ◌∙◌, String, List, [], ◌∷◌, Option, none, some, length,
  arith, Bool-cases, inl, inr, if◌then◌else◌,
}
use atb.Prelude.Int.{pos}
use atb.Prelude.Result.{ok, err, Result-cases}
use atb.Canonicalize.{Platform}
use atb.HashChain.{VerifyError, verify_step, verify_from, zip, genesis_hash}
use atb.HashChain.Spec.{
  IsChain, verify_iff, verify_from-ok, verify_from-err, verify_from_sound, verify_from_complete,
}
use atb.Bundle.{Record, Error, pairs, has_manifest_record}
use atb.Bundle.Verify.{wrap, manifest_from, events, record_hashes, legacy, verify_bundle}

-- The sequence of the first record: 0 for a manifest, 1 in a bundle without one.
abbrev pub first_sequence : List Record → ℕ
first_sequence rs = if has_manifest_record rs then 0 else 1

abbrev wrapped : Option VerifyError → Option Error
wrapped none = none
wrapped (some x) = some (wrap x)

module _ (pf : Platform) (i : ℕ) (prev : String) (r : Record) (rs : List Record) where
  step_zero :
      verify_step pf i (pos (0 + i)) prev r.event r.hash
      ≡ verify_step pf i (pos i) prev r.event r.hash
  step_zero = ap (λ (n : ℕ). verify_step pf i (pos n) prev r.event r.hash) (omega arith)

  manifest_from-ok :
      (c : String)
      → verify_step pf i (pos i) prev r.event r.hash ≡ ok c
      → manifest_from pf i prev (r ∷ rs) ≡ manifest_from pf (suc i) c rs
  unfolding manifest_from
  manifest_from-ok c e = rw (e, manifest_from)

  manifest_from-err :
      (x : VerifyError)
      → verify_step pf i (pos i) prev r.event r.hash ≡ err x
      → manifest_from pf i prev (r ∷ rs) ≡ some (wrap x)
  unfolding manifest_from
  manifest_from-err x e = rw (e, manifest_from)

-- The loop over manifest bundles is that of hash.Verify with other sequences and errors.
manifest_from-eq :
    (pf : Platform) (i : ℕ) (prev : String) (rs : List Record)
    → manifest_from pf i prev rs ≡ wrapped (verify_from pf 0 i prev (pairs rs))
manifest_from-eq pf i prev [] = unfold manifest_from verify_from in refl
manifest_from-eq pf i prev (r ∷ rs) =
    elim (Result-cases (verify_step pf i (pos i) prev r.event r.hash)) [
      | inl (c, e) ↦
          manifest_from-ok pf i prev r rs c e
          ∙ manifest_from-eq pf (suc i) c rs
          ∙ ap wrapped (
              sym (
                verify_from-ok pf 0 i prev r.event r.hash (pairs rs) c
                  (step_zero pf i prev r rs ∙ e)))
      | inr (x, e) ↦
          manifest_from-err pf i prev r rs x e
          ∙ ap wrapped (
              sym (
                verify_from-err pf 0 i prev r.event r.hash (pairs rs) x
                  (step_zero pf i prev r rs ∙ e)))
    ]

wrapped-none : (o : Option VerifyError) → (wrapped o ≡ none) ↔ (o ≡ none)
wrapped-none none = (λ h. refl, λ h. refl)
wrapped-none (some x) = (λ h. cc, λ h. cc)

legacy-none : (o : Option VerifyError) → (legacy o ≡ none) ↔ (o ≡ none)
unfolding legacy
legacy-none none = (λ h. refl, λ h. refl)
legacy-none (some x) = (λ h. cc, λ h. cc)

zip-pairs : (rs : List Record) → zip (events rs) (record_hashes rs) ≡ pairs rs
zip-pairs [] = refl
zip-pairs (r ∷ rs) = ap (λ l. (r.event, r.hash) ∷ l) (zip-pairs rs)

length-events : (rs : List Record) → length (events rs) ≡ length (record_hashes rs)
length-events [] = refl
length-events (r ∷ rs) = ap suc (length-events rs)

-- Bundle.Verify passes exactly on records that are linked from the genesis hash on, each with its own
-- hash, with sequences from 0 where the first is a manifest and from 1 where it is not.
pub verify_bundle_iff :
    (pf : Platform) (rs : List Record)
    → (verify_bundle pf rs ≡ none) ↔ IsChain pf (first_sequence rs) genesis_hash (pairs rs)
unfolding verify_bundle
verify_bundle_iff pf rs = elim (Bool-cases (has_manifest_record rs)) [
  | inl m ↦ rw m (
    λ v.
        verify_from_sound pf 0 0 genesis_hash (pairs rs)
          ((wrapped-none _).0 (sym (manifest_from-eq pf 0 genesis_hash rs) ∙ v)),
    λ c.
        manifest_from-eq pf 0 genesis_hash rs
        ∙ (wrapped-none _).1 (verify_from_complete pf 0 0 genesis_hash (pairs rs) c),
  )
  | inr m ↦ rw m (
    λ v.
        rw zip-pairs at
          (((verify_iff pf (events rs) (record_hashes rs)).0 ((legacy-none _).0 v)).1),
    λ c.
        (legacy-none _).1
          ((verify_iff pf (events rs) (record_hashes rs)).1 (length-events rs, rw zip-pairs c)),
  )
]
