-- ===== src/Bundle/Append/Laws/New.antt =====
-- NewWithOptions makes a verifiable bundle of one record, whose manifest is read back as it was written
-- (internal/bundle/bundle.go).
use atb.Prelude.{
  zero, suc, ◌≡◌, ◌≢◌, ◌⊎◌, inl, inr, refl, sym, ap, ◌∙◌, String, List, [], ◌∷◌, none, some, length,
  eq_iff, arith, if◌then◌else◌,
}
use atb.Prelude.Int.{ℤ, pos, eqb_ℤ}
use atb.Prelude.Result.{Result, ok, >>=-eq-ok}
use atb.Json.{Value, str, obj}
use atb.Canonicalize.{Platform}
use atb.Event.{Event}
use atb.Bundle.{Record, no_prefix, ManifestData, Error, Codec, manifest_event_type}
use atb.Bundle.Manifest.{parse_manifest_data, manifest}
use atb.Bundle.Manifest.Structured.{parse-structured, parse-v1}
use atb.Bundle.Append.{
  NewOptions, structured_data, v1_payload, manifest_payload, created_only, new_with_options,
}
use atb.Bundle.Append.Laws.{append-Appended, new_event, new_event-links, verify-append}
use atb.Bundle.Verify.{verify_bundle}
use atb.Bundle.Verify.Laws.{verify_bundle_iff}

-- The version that NewWithOptions declares for `manifest_version`.
abbrev pub declared : ℤ → String
declared n = if eqb_ℤ n (pos 2) then "2" else if eqb_ℤ n (pos 3) then "3" else "1"

abbrev pub written : NewOptions → String → String → ManifestData
written o created_at bundle_id = record {
  version = declared o.manifest_version;
  created_at = created_at;
  bundle_id = bundle_id;
  capture_run_id = o.capture_run_id;
}

-- encoding/json reads a manifest back from its own JSON text.
pub record ReadsBack (c : Codec) (m : ManifestData) : Type 0 where
  pub version_back : c.decode_version (c.encode_manifest m) ≡ some (str m.version)
  pub manifest_back : c.decode_manifest (c.encode_manifest m) ≡ some m

manifest-parse :
    (c : Codec) (r : Record) (rs : List Record) (m : ManifestData)
    → r.event.type_id ≡ manifest_event_type
    → parse_manifest_data c r.event ≡ ok m
    → manifest c (r ∷ rs) ≡ some m
unfolding manifest
manifest-parse c r rs m t p = ground (arith, eq_iff r.event.type_id manifest_event_type)

module _ (c : Codec) (o : NewOptions) (created_at bundle_id : String) (has_time : created_at ≢ "")
    (has_id : bundle_id ≢ "") (back : ReadsBack c (written o created_at bundle_id)) where
  -- The v1 text, where 0 or 1 is asked for.
  v1_parses :
      (e : Event) (p : Value)
      → e.type_id ≡ manifest_event_type
      → e.payload ≡ p
      → declared o.manifest_version ≡ "1"
      → ok (v1_payload c o created_at bundle_id) ≡ (let r : Result Error Value = ok p in r)
      → parse_manifest_data c e ≡ ok (written o created_at bundle_id)
  unfolding v1_payload
  v1_parses e p t q one h =
      let m = written o created_at bundle_id in
      let same : v1_payload c o created_at bundle_id ≡ p = ground (arith, h) in
      parse-v1 c e t m one back.version_back back.manifest_back (
        q
        ∙ sym same
        ∙ ap
            (λ v. str (
              c.encode_manifest (record {
                version = v;
                created_at = created_at;
                bundle_id = bundle_id;
                capture_run_id = o.capture_run_id;
              })))
            (sym one))

  structured_parses :
      (e : Event) (p : Value) (v : String)
      → e.type_id ≡ manifest_event_type
      → e.payload ≡ p
      → (o.manifest_version ≡ pos 2) × (v ≡ "2") ⊎ (o.manifest_version ≡ pos 3) × (v ≡ "3")
      → declared o.manifest_version ≡ v
      → ok (obj (structured_data o.manifest_version created_at bundle_id o.capture_run_id))
        ≡ (let r : Result Error Value = ok p in r)
      → parse_manifest_data c e ≡ ok (written o created_at bundle_id)
  unfolding structured_data
  structured_parses e p v t q which name h =
      let same : obj (structured_data o.manifest_version created_at bundle_id o.capture_run_id)
          ≡ p =
        ground (arith, h) in
      rw name (
        parse-structured c e t o.manifest_version v created_at bundle_id o.capture_run_id _ which
          has_time has_id refl (q ∙ sym same))

  payload_parses :
      (e : Event) (p : Value)
      → e.type_id ≡ manifest_event_type
      → e.payload ≡ p
      → manifest_payload c o created_at bundle_id ≡ ok p
      → parse_manifest_data c e ≡ ok (written o created_at bundle_id)
  unfolding manifest_payload
  payload_parses e p t q h = go o.manifest_version refl
    where
      go :
          (n : ℤ)
          → o.manifest_version ≡ n
          → parse_manifest_data c e ≡ ok (written o created_at bundle_id)
      go (pos zero) n = v1_parses e p t q (ap declared n) (ground arith)
      go (pos (suc zero)) n = v1_parses e p t q (ap declared n) (ground arith)
      go (pos (suc (suc zero))) n =
          structured_parses e p "2" t q (inl (n, refl)) (ap declared n) (ground arith)
      go (pos (suc (suc (suc zero)))) n =
          structured_parses e p "3" t q (inr (n, refl)) (ap declared n) (ground arith)
      go _ n = absurd (ground arith)

  -- A new bundle passes Verify and holds one record, a manifest, from which Manifest reads the version
  -- that was asked for (1 for 0), the time, the identifier and the capture run. The time and the
  -- identifier are not empty, and encoding/json reads back the v1 manifest that it wrote.
  pub manifest-new :
      (pf : Platform) (rs : List Record)
      → new_with_options pf c o created_at bundle_id ≡ ok rs
      → (verify_bundle pf rs ≡ none)
        × (length rs ≡ 1)
        × (manifest c rs ≡ some (written o created_at bundle_id))
  unfolding new_with_options
  manifest-new pf rs h =
      let (p, payload, appended) = >>=-eq-ok (manifest_payload c o created_at bundle_id) _ h in
      let a = append-Appended pf c [] manifest_event_type p (created_only created_at) rs appended in
      let (_, _, t, q, _) = new_event-links [] manifest_event_type p (created_only created_at) in
      let r : Record = record {
        event = new_event [] manifest_event_type p (created_only created_at);
        hash = a.hash;
        prefix = no_prefix;
      } in
      (
        verify-append pf c [] rs manifest_event_type p (created_only created_at)
            ((verify_bundle_iff pf []).1 tt) appended,
        ap length a.extended,
        ap (manifest c) a.extended
            ∙ manifest-parse c r [] (written o created_at bundle_id) t
                (payload_parses r.event p t q payload),
      )
