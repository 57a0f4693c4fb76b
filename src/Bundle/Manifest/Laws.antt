-- ===== src/Bundle/Manifest/Laws.antt =====
-- Which manifests are accepted, and that a new bundle's manifest is read back (internal/bundle/bundle.go).
use atb.Prelude.{Option, ◌≡◌, ◌≢◌, ◌⊎◌, String, true, some}
use atb.Prelude.Int.{ℤ, pos, leb_ℤ}
use atb.Prelude.Result.{ok}
use atb.Json.Float
use atb.Json.{Value, num, int, str, obj, Fields, get}
use atb.Event.{Event}
use atb.Bundle.{ManifestData, Codec}
use atb.Bundle.Manifest.{version_of_data, string_field}

-- The version that an object declares: the number 2 or 3, as a float64 or an int, or its text.
abbrev pub Declares : Option Value → String → Type 0
Declares (some (num f)) v = ((f ≡ Float.two) × (v ≡ "2")) ⊎ ((f ≡ Float.three) × (v ≡ "3"))
Declares (some (int n)) v = ((n ≡ pos 2) × (v ≡ "2")) ⊎ ((n ≡ pos 3) × (v ≡ "3"))
Declares (some (str s)) v = (s ≡ v) × ((s ≡ "2") ⊎ (s ≡ "3"))
Declares _ v = ⊥

-- What is known of an accepted manifest, by the form of its data: a JSON text declares at most
-- version 1, an object version 2 or 3 and both of the required fields.
abbrev pub IsAccepted : Codec → Value → ManifestData → Type 0
IsAccepted c (str s) m =
    (v : Value) × (n : ℤ) × (c.decode_version s ≡ some v)
    × (version_of_data c (str s) ≡ ok n)
    × (leb_ℤ n (pos 1) ≡ true)
    × (c.decode_manifest s ≡ some m)
    × (m.version ≢ "2")
IsAccepted c (obj fs) m =
    Declares (get "version" fs) m.version
    × (m.created_at ≢ "")
    × (m.bundle_id ≢ "")
    × (string_field "created_at" fs ≡ m.created_at)
    × (string_field "bundle_id" fs ≡ m.bundle_id)
IsAccepted c _ m = ⊥

-- What is read of an object beside the version that it declares.
abbrev IsStructured : String → Fields → ManifestData → Type 0
IsStructured v fs m =
    (v ≡ m.version)
    × ((m.version ≡ "2") ⊎ (m.version ≡ "3"))
    × (m.created_at ≢ "")
    × (m.bundle_id ≢ "")
    × (string_field "created_at" fs ≡ m.created_at)
    × (string_field "bundle_id" fs ≡ m.bundle_id)
