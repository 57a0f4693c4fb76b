-- ===== src/Bundle/Load/Verified.antt =====
-- What LoadVerified returns (internal/bundle/bundle.go).
use atb.Prelude.{
  ℕ, ◌≡◌, ◌↔◌, refl, sym, subst, Bool, true, false, not, List, [], ◌∷◌, Option, none, some, str_eq,
  if◌then◌else◌, arith,
}
use atb.Prelude.Result.{ok, err, >>=-eq-ok, ok_injective}
use atb.Canonicalize.{Platform}
use atb.HashChain.{genesis_hash}
use atb.HashChain.Spec.{IsChain}
use atb.Bundle.{Record, Codec, Error, pairs, has_manifest_record, manifest_event_type, not_a_bundle}
use atb.Bundle.Verify.{verify_bundle}
use atb.Bundle.Verify.Laws.{verify_bundle_iff, first_sequence}
use atb.Bundle.Load.{load_reader, load_verified, check_verified, default_limits}

-- A bundle that begins with a manifest record and is linked from sequence 0 on.
pub record IsVerified (pf : Platform) (rs : List Record) : Type 0 where
  pub manifest_first : has_manifest_record rs ≡ true
  pub linked : IsChain pf 0 genesis_hash (pairs rs)

manifest-zero : (rs : List Record) → has_manifest_record rs ≡ true → first_sequence rs ≡ 0
manifest-zero rs h = rw h

verdict :
    (b : Bool) (v : Option Error) (e : Error) (rs out : List Record)
    → (if not b then err e else elim v [ none ↦ ok rs | some x ↦ err x ]) ≡ ok out
    → (b ≡ true) × (v ≡ none) × (rs ≡ out)
verdict true none e rs out p = (refl, refl, ok_injective p)
verdict true (some x) e rs out p = cc
verdict false v e rs out p = cc

module _ (pf : Platform) where
  pub check_verified-ok :
      (rs out : List Record) → check_verified pf rs ≡ ok out → IsVerified pf rs × (rs ≡ out)
  unfolding check_verified
  check_verified-ok [] out p = cc
  check_verified-ok (r ∷ rs) out p =
      let (m, v, q) =
        verdict (str_eq r.event.type_id manifest_event_type) (verify_bundle pf (r ∷ rs))
          (not_a_bundle r.event.type_id) (r ∷ rs) out p in
      let chain =
        subst (λ n. IsChain pf n genesis_hash (pairs (r ∷ rs))) (manifest-zero (r ∷ rs) m)
          ((verify_bundle_iff pf (r ∷ rs)).0 v) in
      (record { manifest_first = m; linked = chain }, q)

  check_verified_complete : (rs : List Record) → IsVerified pf rs → check_verified pf rs ≡ ok rs
  unfolding check_verified
  check_verified_complete [] v = absurd (ground arith)
  check_verified_complete (r ∷ rs) v =
      let chain =
        subst (λ n. IsChain pf n genesis_hash (pairs (r ∷ rs)))
          (sym (manifest-zero (r ∷ rs) v.manifest_first)) v.linked in
      rw (v.manifest_first, (verify_bundle_iff pf (r ∷ rs)).1 chain)

-- LoadVerified returns a bundle exactly if the loader with the default limits reads it, its first record
-- is a manifest, and its records are linked with sequences from 0 on.
pub load_verified_iff :
    (sum : List ℕ → List ℕ) (pf : Platform) (c : Codec) (reads : ℕ → ℕ) (input : List ℕ)
    (rs : List Record)
    → (load_verified sum pf c reads input ≡ ok rs)
      ↔ ((load_reader sum c default_limits reads input ≡ ok rs) × IsVerified pf rs)
unfolding load_verified
load_verified_iff sum pf c reads input rs = (
  (λ p.
      let (found, l, q) =
        >>=-eq-ok (load_reader sum c default_limits reads input) (check_verified pf) p in
      let (v, e) = check_verified-ok pf found rs q in (rw (sym e) l, subst (IsVerified pf) e v)),
  λ h. rw (h.0, check_verified_complete pf rs h.1),
)
