-- ===== src/CaptureSession/Loaded.antt =====
-- From the bundle that is loaded to the one that is stored (internal/proxy/capture.go).
use atb.Prelude.{
  ℕ, ◌≡◌, ◌⊎◌, refl, ap, subst, ◌∙◌, String, Bool, true, List, [], ◌∷◌, Option, none, some, All,
  arith, inl, inr, Bool-cases,
}
use atb.Prelude.Int.{pos, ltb_ℤ}
use atb.Prelude.Result.{ok, >>=-eq-ok, ok_injective, Result-cases}
use atb.Canonicalize.{Platform}
use atb.Bundle.{Record, Codec, manifest_event_type, has_manifest_record}
use atb.Bundle.Append.{NewOptions, new_with_options, manifest_payload, created_only}
use atb.Bundle.Append.Laws.{append-Appended, new_event-links, verify-append}
use atb.Bundle.Verify.Laws.{verify_bundle_iff}
use atb.Acquisition.Import.Sourced.{IsReady}
use atb.Bundle.Load.{check_verified}
use atb.Bundle.Load.Verified.{check_verified-ok}
use atb.CaptureJournal.{Entry}
use atb.CaptureJournal.Append.{entries_from}
use atb.CaptureSession.{index_acquisition}
use atb.CaptureSession.Recover.{Outside, load_bundle_for_capture, created_bundle, checked_bundle}
use atb.CaptureSession.Settled.{IsCommitted, IsNamed}

-- The records of a file that may be missing.
abbrev pub stored : Option (List Record) → List Record
stored none = []
stored (some rs) = rs

module _ (pf : Platform) (c : Codec) (o : NewOptions) (created_at bundle_id : String)
    (rs : List Record) where
  -- A new bundle passes Verify and has no acquisition.
  pub new_with_options-IsReady :
      new_with_options pf c o created_at bundle_id ≡ ok rs
      → IsReady pf rs × (index_acquisition rs ≡ [])
  unfolding new_with_options created_only
  new_with_options-IsReady h =
      let (p, payload, appended) = >>=-eq-ok (manifest_payload c o created_at bundle_id) _ h in
      let a = append-Appended pf c [] manifest_event_type p (created_only created_at) rs appended in
      let (_, _, t, _, acq) = new_event-links [] manifest_event_type p (created_only created_at) in
      (
        record {
          verified =
              verify-append pf c [] rs manifest_event_type p (created_only created_at)
                ((verify_bundle_iff pf []).1 tt) appended;
          starts = ap has_manifest_record a.extended ∙ rw t refl;
        },
        ap index_acquisition a.extended ∙ rw acq refl,
      )

-- What loadBundleForCapture has found.
pub record Loaded (pf : Platform) (b : Option (List Record)) (rs : List Record) : Type 0 where
  pub ready : IsReady pf rs
  pub source : (b ≡ some rs) ⊎ ((b ≡ none) × (index_acquisition rs ≡ []))

-- A file, if there is one, is a bundle that starts with a manifest.
abbrev pub IsStored : Platform → Option (List Record) → Type 0
IsStored pf none = Unit
IsStored pf (some rs) = IsReady pf rs

pub load_bundle_for_capture-Loaded :
    (pf : Platform) (c : Codec) (o : Outside) (b : Option (List Record)) (rs : List Record)
    (created : Bool)
    → IsStored pf b
    → load_bundle_for_capture pf c o b ≡ ok (rs, created)
    → Loaded pf b rs
unfolding load_bundle_for_capture created_bundle checked_bundle
load_bundle_for_capture-Loaded pf c o (some old) rs created ready h =
    elim (Result-cases (check_verified pf old)) [
      | inr (e, q) ↦ absurd (ground arith)
      | inl (found, q) ↦
          let same : old ≡ rs =
            (check_verified-ok pf old found q).1
            ∙ ap (λ p. p.0) (ok_injective (rw (load_bundle_for_capture, q) at h)) in
          record { ready = subst (IsReady pf) same ready; source = inl (ap some same) }
    ]
load_bundle_for_capture-Loaded pf c o none rs created ready h =
    elim (Result-cases (
      new_with_options pf c (record { manifest_version = pos 3; capture_run_id = "" }) o.created_at
        o.bundle_id)) [
          | inr (e, q) ↦ absurd (ground arith)
          | inl (new, q) ↦
              let same : new ≡ rs =
                ap (λ p. p.0) (ok_injective (rw (load_bundle_for_capture, q) at h)) in
              let (r, i) = new_with_options-IsReady pf c _ o.created_at o.bundle_id new q in
              record {
                ready = subst (IsReady pf) same r;
                source = inr (refl, subst (λ l. index_acquisition l ≡ []) same i);
              }
        ]

-- What is committed in the file is so in what is loaded.
pub Loaded-committed :
    (pf : Platform) (b : Option (List Record)) (rs : List Record) (e : Entry)
    → Loaded pf b rs
    → IsCommitted (stored b) e
    → IsCommitted rs e
Loaded-committed pf b rs e l k = elim l.source [
  | inl q ↦ subst (λ x. IsCommitted (stored x) e) q k
  | inr (q, _) ↦ cc (subst (λ x. IsCommitted (stored x) e) q k)
]

-- Each entry is behind the position or committed.
abbrev pub AreCovered : List Record → ℕ → List Entry → Type 0
AreCovered rs p es = All (λ e. (ltb_ℤ (pos p) e.position ≡ true) ⊎ IsCommitted rs e) es

-- The pending entries and the covered ones are all.
pub all_committed :
    (rs rs' : List Record) (p : ℕ) (es : List Entry)
    → ((e : Entry) → IsCommitted rs e → IsCommitted rs' e)
    → AreCovered rs p es
    → All (IsCommitted rs') (entries_from (pos p) es)
    → All (IsCommitted rs') es
unfolding entries_from
all_committed rs rs' p [] keeps covered pending = tt
all_committed rs rs' p (e ∷ es) keeps (here, covered) pending =
    elim (Bool-cases (ltb_ℤ (pos p) e.position)) [
      | inl q ↦
          let (k, more) = rw (entries_from, q) at pending in
          (k, all_committed rs rs' p es keeps covered more)
      | inr q ↦
          let more = rw (entries_from, q) at pending in
          let known : IsCommitted rs e = elim here [ inl t ↦ absurd (ground arith) | inr k ↦ k ] in
          (keeps e known, all_committed rs rs' p es keeps covered more)
    ]

pub IsNamed-pending :
    (p : ℕ) (es : List Entry) → All IsNamed es → All IsNamed (entries_from (pos p) es)
unfolding entries_from
IsNamed-pending p [] all = tt
IsNamed-pending p (e ∷ es) (n, all) = elim (Bool-cases (ltb_ℤ (pos p) e.position)) [
  | inl q ↦ rw (entries_from, q) (n, IsNamed-pending p es all)
  | inr q ↦ rw (entries_from, q) (IsNamed-pending p es all)
]
