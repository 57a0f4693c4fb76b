-- ===== src/Profiles/Fields.antt =====
-- The data of records, and the indexes over them (internal/profiles/evaluate.go).
use atb.Prelude.{
  String, Bool, true, false, not, List, [], ◌∷◌, ◌++◌, Option, none, some, str_eq, if◌then◌else◌,
}
use atb.Prelude.Int.{ℤ}
use atb.Prelude.Map.{Map, lookup, put}
use atb.Json.{Value, null, str, obj, Fields, get}
use atb.Bundle.{Record}
use atb.Profiles.{Library}
use atb.Profiles.Text.{trim_text}

abbrev pub data_map : Value → Option Fields
data_map (obj fs) = some fs
data_map _ = none

abbrev pub present_value : Option Value → Bool
present_value none = false
present_value (some (str s)) = not (str_eq s "")
present_value (some null) = false
present_value (some _) = true

abbrev pub has_field : Option Fields → String → Bool
has_field none key = false
has_field (some fs) key = present_value (get key fs)

unfoldable pub missing_fields : Option Fields → List String → List String
missing_fields fs [] = []
missing_fields fs (k ∷ ks) =
    let rest = missing_fields fs ks in if has_field fs k then rest else k ∷ rest

abbrev pub string_value : Option Value → String
string_value (some (str s)) = s
string_value _ = ""

abbrev pub string_in : Option Fields → String → String
string_in none field = ""
string_in (some fs) field = string_value (get field fs)

abbrev pub field_string : Record → String → String
field_string r field = string_in (data_map r.event.payload) field

abbrev pub or_no_records : Option (List Record) → List Record
or_no_records none = []
or_no_records (some rs) = rs

-- index[key], which is empty on a missing key.
abbrev pub at_key : Map (List Record) → String → List Record
at_key m k = or_no_records (lookup k m)

-- index[key] = append(index[key], record)
abbrev pub push : String → Record → Map (List Record) → Map (List Record)
push k r m = put k (at_key m k ++ r ∷ []) m

-- The loop of indexRecordsByType from an index on.
unfoldable pub index_types_from : Map (List Record) → List Record → Map (List Record)
index_types_from m [] = m
index_types_from m (r ∷ rs) = index_types_from (push r.event.type_id r m) rs

unfoldable pub index_records_by_type : List Record → Map (List Record)
unfolding index_types_from
index_records_by_type rs = index_types_from [] rs

-- The loop of indexByField from an index on.
unfoldable pub index_fields_from : String → Map (List Record) → List Record → Map (List Record)
index_fields_from field m [] = m
index_fields_from field m (r ∷ rs) =
    index_fields_from field
      (if str_eq (field_string r field) "" then m else push (field_string r field) r m) rs

unfoldable pub index_by_field : List Record → String → Map (List Record)
unfolding index_fields_from
index_by_field rs field = index_fields_from field [] rs

-- What parseEventTimestamp gives.
pub data Timestamp : Type 0 where
  no_timestamp : Timestamp
  invalid_timestamp : Timestamp
  at_time : ℤ → Timestamp

abbrev pub parsed_timestamp : Option ℤ → Timestamp
parsed_timestamp none = invalid_timestamp
parsed_timestamp (some t) = at_time t

unfoldable pub parse_event_timestamp : Library → Record → Timestamp
parse_event_timestamp lib r =
    if str_eq (trim_text r.event.timestamp) ""
    then no_timestamp
    else parsed_timestamp (lib.parse_time (trim_text r.event.timestamp))
