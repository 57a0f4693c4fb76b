-- ===== src/Canonicalize.antt =====
-- internal/canonicalize/canonicalize.go: the canonical JSON text (RFC 8785) over which hashes are taken.
-- A bytes.Buffer is the text written to it, as its runes.
pub mod Keys
pub mod Text
pub mod Sort
pub mod Order
use atb.Prelude.{
  ℕ, ◌≡◌, refl, String, Bool, true, false, ◌&&◌, ◌||◌, List, [], ◌∷◌, ◌++◌, Option, none, some, not,
  ltb, leb, ◌==◌, codes, if◌then◌else◌,
}
use atb.Prelude.Int.{pos}
use atb.Json.{Value, null, bool, num, int, str, arr, obj, Items, no_item, item, Fields, end, field}
use atb.Json.Float
use atb.Canonicalize.Text.{write_string}
use atb.Canonicalize.Sort.{Member, sort}

-- What the code takes from Go's standard library: strconv.FormatFloat(f, 'e', -1, 64) and
-- strconv.FormatFloat(f, 'f', -1, 64) as the runes that they print, and the hexadecimal SHA-256
-- of the UTF-8 form of a text.
pub record Platform : Type 0 where
  pub format_e : ℕ → List ℕ
  pub format_f : ℕ → List ℕ
  pub sha256_hex : List ℕ → String

-- serializeNumber
unfoldable pub serialize_number : Platform → ℕ → List ℕ
serialize_number pf f =
    let a = Float.abs f in
    if not (Float.is_finite f)
    then codes "null"
    else if not (a == 0) && (leb Float.one_e21 a || ltb a Float.one_e_minus6)
    then pf.format_e f
    else pf.format_f f

-- Members joined by commas, each "key":value.
unfoldable pub join_members : List Member → List ℕ
join_members [] = []
join_members ((k, text) ∷ []) = write_string k ++ 58 ∷ text
join_members ((k, text) ∷ m ∷ rest) = write_string k ++ 58 ∷ text ++ 44 ∷ join_members (m ∷ rest)

-- writeValue on the result of json.Unmarshal: a number there is always a float64, so an int stands
-- for the float64 that it is read back as. Each member's value is written before the members are
-- put in the order of their keys; writing has no other effect.
unfoldable mutual
  pub write_value : Platform → Value → List ℕ
  write_value pf null = codes "null"
  write_value pf (bool b) = if b then codes "true" else codes "false"
  write_value pf (num f) = serialize_number pf f
  write_value pf (int n) = serialize_number pf (Float.of_int n)
  write_value pf (str s) = write_string s
  write_value pf (arr xs) = 91 ∷ write_items pf xs ++ 93 ∷ []
  write_value pf (obj fs) = 123 ∷ join_members (sort (write_fields pf fs)) ++ 125 ∷ []

  pub write_items : Platform → Items → List ℕ
  write_items pf no_item = []
  write_items pf (item x xs) = write_value pf x ++ write_rest pf xs

  pub write_rest : Platform → Items → List ℕ
  write_rest pf no_item = []
  write_rest pf (item x xs) = 44 ∷ write_value pf x ++ write_rest pf xs

  pub write_fields : Platform → Fields → List Member
  write_fields pf end = []
  write_fields pf (field k v fs) = (k, write_value pf v) ∷ write_fields pf fs

-- json.Marshal refuses a value that holds an infinity or a NaN.
unfoldable mutual
  pub is_encodable : Value → Bool
  is_encodable null = true
  is_encodable (bool b) = true
  is_encodable (num f) = Float.is_finite f
  is_encodable (int n) = true
  is_encodable (str s) = true
  is_encodable (arr xs) = are_items_encodable xs
  is_encodable (obj fs) = are_fields_encodable fs

  pub are_items_encodable : Items → Bool
  are_items_encodable no_item = true
  are_items_encodable (item x xs) = is_encodable x && are_items_encodable xs

  pub are_fields_encodable : Fields → Bool
  are_fields_encodable end = true
  are_fields_encodable (field k v fs) = is_encodable v && are_fields_encodable fs

-- Marshal and canonicalizeRaw: json.Marshal, json.Unmarshal, then writeValue; `none` is its error.
unfoldable pub marshal : Platform → Value → Option (List ℕ)
marshal pf v = if is_encodable v then some (write_value pf v) else none
