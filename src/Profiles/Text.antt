-- ===== src/Profiles/Text.antt =====
-- The texts of findings, and strings.TrimSpace (internal/profiles/evaluate.go).
use Prim.Native.Char.{code}
use atb.Prelude.{String, concat, Bool, ◌&&◌, List, [], ◌∷◌, str_eq, if◌then◌else◌}
use atb.CaptureJournal.Space.{is_space_rune, is_blank}
use atb.Profiles.{RelationRule, RelationPredicate, Library}

abbrev pub trim_left : String → String
trim_left String.[] = ""
trim_left (String.◌∷◌ c s) =
    let rest = trim_left s in if is_space_rune (code c) then rest else String.◌∷◌ c s

abbrev pub trim_right : String → String
trim_right String.[] = ""
trim_right (String.◌∷◌ c s) =
    let rest = trim_right s in
    if str_eq rest "" && is_space_rune (code c) then "" else String.◌∷◌ c rest

-- strings.TrimSpace
abbrev pub trim_text : String → String
trim_text s = trim_right (trim_left s)

-- The parts of a text, in order.
abbrev pub join : List String → String
join [] = ""
join (s ∷ rest) = concat s (join rest)

abbrev pub message_or_default : String → String → String
message_or_default message fallback = if is_blank message then fallback else message

abbrev pub missing_message : String → String
missing_message event_type = concat event_type " missing"

abbrev pub missing_fields_message : String → String
missing_fields_message event_type = concat event_type " missing required fields"

abbrev pub relation_default_message : RelationRule → String
relation_default_message rule =
    if is_blank rule.name
    then join (rule.from ∷ " " ∷ rule.to ∷ " must match on " ∷ rule.field ∷ [])
    else rule.name

abbrev pub required_event_id : String → String
required_event_id event_type = concat "required:" event_type

abbrev pub optional_event_id : String → String
optional_event_id event_type = concat "optional:" event_type

abbrev pub required_field_id : String → String → String
required_field_id event_type field = join ("required:" ∷ event_type ∷ ":field:" ∷ field ∷ [])

abbrev pub relation_id : RelationRule → String
relation_id rule =
    if str_eq (trim_text rule.name) ""
    then join ("relation:" ∷ rule.from ∷ ":" ∷ rule.to ∷ ":" ∷ rule.field ∷ [])
    else concat "relation:" (trim_text rule.name)

abbrev pub relation_predicate_id : RelationRule → RelationPredicate → String
relation_predicate_id rule p =
    join (relation_id rule ∷ ":predicate:" ∷ p.field ∷ ":" ∷ p.equals ∷ [])

abbrev pub relation_predicate_message : Library → RelationRule → RelationPredicate → String → String
relation_predicate_message lib rule p actual = join (
    relation_default_message rule
    ∷ ": predicate "
    ∷ p.side
    ∷ "."
    ∷ p.field
    ∷ " got "
    ∷ lib.quoted actual
    ∷ ", want "
    ∷ lib.quoted p.equals
    ∷ [])

abbrev pub required_when_id : String → String → String
required_when_id target_type condition_type =
    join ("required_when:" ∷ target_type ∷ ":when:" ∷ condition_type ∷ [])

abbrev unable : String → String → String → String → String
unable target_type condition_type whose how = join (
    "required_when: unable to enforce ordering between " ∷ target_type ∷ " and " ∷ condition_type
    ∷ " because " ∷ whose ∷ how ∷ [])

-- requiredWhenConditionTimestampWarning, whose flag says that the timestamp is there but invalid.
abbrev pub condition_timestamp_warning : String → String → Bool → String
condition_timestamp_warning target_type condition_type invalid =
    unable target_type condition_type condition_type
      (if invalid then " timestamp is invalid" else " timestamp is missing")

-- requiredWhenTargetTimestampWarning
abbrev pub target_timestamp_warning : String → String → String
target_timestamp_warning target_type condition_type =
    unable target_type condition_type target_type " timestamps are missing or invalid"

abbrev pub required_when_missing : String → String → String
required_when_missing target_type condition_type =
    join ("required_when: " ∷ target_type ∷ " required when " ∷ condition_type ∷ " present" ∷ [])

abbrev pub required_when_order : String → String → String
required_when_order target_type condition_type =
    join ("required_when: " ∷ target_type ∷ " must occur at or after " ∷ condition_type ∷ [])
