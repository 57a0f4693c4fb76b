-- ===== src/Bundle/Manifest/Structured.antt =====
-- What parseManifestData makes of the data that NewWithOptions writes (internal/bundle/bundle.go).
use atb.Prelude.{
  ◌≡◌, ◌≢◌, ◌⊎◌, inl, inr, refl, ap, ◌∙◌, String, false, str_eq, eq_iff, arith, some, if◌then◌else◌,
}
use atb.Prelude.Int.{ℤ, pos}
use atb.Prelude.Result.{ok}
use atb.Json.{int, str, obj, Fields, end, field}
use atb.Event.{Event}
use atb.Bundle.{ManifestData, Codec, manifest_event_type}
use atb.Bundle.Manifest.{version_of_data, string_field, parse_v1, parse_manifest_data}
use atb.Bundle.Manifest.Scan.{scan_int}

version_of_data-one :
    (c : Codec) (s : String)
    → c.decode_version s ≡ some (str "1")
    → version_of_data c (str s) ≡ ok (pos 1)
unfolding version_of_data scan_int
version_of_data-one c s d = rw (d, version_of_data) refl

parse_v1-ok :
    (c : Codec) (s : String) (m : ManifestData)
    → m.version ≡ "1"
    → c.decode_manifest s ≡ some m
    → parse_v1 c s ≡ ok m
unfolding parse_v1
parse_v1-ok c s m one d =
    let other : str_eq m.version "2" ≡ false = ap (λ (v : String). str_eq v "2") one in
    rw (d, parse_v1) (rw other refl)

module _ (c : Codec) (e : Event) (named : e.type_id ≡ manifest_event_type) where
  pub parse-structured :
      (n : ℤ) (v created_at bundle_id run : String) (tail : Fields)
      → (n ≡ pos 2) × (v ≡ "2") ⊎ (n ≡ pos 3) × (v ≡ "3")
      → created_at ≢ ""
      → bundle_id ≢ ""
      → tail ≡ (if str_eq run "" then end else field "capture_run_id" (str run) end)
      → e.payload
        ≡ obj (
            field "version"
              (int n)
              (field "created_at" (str created_at) (field "bundle_id" (str bundle_id) tail)))
      → parse_manifest_data c e
        ≡ ok (record {
          version = v;
          created_at = created_at;
          bundle_id = bundle_id;
          capture_run_id = run;
        })
  unfolding parse_manifest_data string_field
  parse-structured n v created_at bundle_id run tail vs hc hb t p = elim vs [
    | inl (two, v2) ↦
        rw (named, p, t, two, v2)
          (ground (arith, eq_iff created_at "", eq_iff bundle_id "", eq_iff run ""))
    | inr (three, v3) ↦
        rw (named, p, t, three, v3)
          (ground (arith, eq_iff created_at "", eq_iff bundle_id "", eq_iff run ""))
  ]

  -- The v1 form, where encoding/json reads back what it wrote.
  pub parse-v1 :
      (m : ManifestData)
      → m.version ≡ "1"
      → c.decode_version (c.encode_manifest m) ≡ some (str m.version)
      → c.decode_manifest (c.encode_manifest m) ≡ some m
      → e.payload ≡ str (c.encode_manifest m)
      → parse_manifest_data c e ≡ ok m
  unfolding parse_manifest_data
  parse-v1 m one dv dm p =
      rw (named, p, version_of_data-one c (c.encode_manifest m) (dv ∙ ap (λ v. some (str v)) one))
        (parse_v1-ok c (c.encode_manifest m) m one dm)
