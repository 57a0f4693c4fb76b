-- ===== src/Examples/Canonical.antt =====
-- Canonical JSON of small values.
use atb.Prelude.{ℕ, ◌≡◌, ◌≢◌, refl, String, true, List, [], ◌∷◌, codes, eq_iff, arith}
use atb.Json.{Value, null, bool, arr, obj, no_item, item, end, field}
use atb.Canonicalize.{marshal, write_value, join_members}
use atb.Canonicalize.Keys.{utf16_less}
use atb.Canonicalize.Text.{write_string}
use atb.Canonicalize.Text.Unique.{write_string_unique}
use atb.Canonicalize.Order.{objs, swap, marshal-Same}
use atb.Canonicalize.Sort.{Member, sort}
use atb.Canonicalize.Sort.Laws.{IsAscending, IsRearranged, sort-IsAscending}
use atb.Examples.{platform}

abbrev ba : Value
ba = obj (field "b" (arr (item null no_item)) (field "a" (bool true) end))

abbrev ab : Value
ab = obj (field "a" (bool true) (field "b" (arr (item null no_item)) end))

marshal_ba : write_value platform ba ≡ codes "{\"a\":true,\"b\":[null]}"
unfolding write_value join_members utf16_less write_string sort
marshal_ba = refl

b_not_a : ◌≢◌ {A = String} "b" "a"
b_not_a = ground (arith, eq_iff "b" "a")

marshal-Same_example : marshal platform ba ≡ marshal platform ab
marshal-Same_example =
    marshal-Same platform ba ab
      (objs (swap "b" "a" (arr (item null no_item)) (bool true) end b_not_a))

write_string_unique_example :
    (◌≡◌ {A = String} "a\"" "a\"") × (◌≡◌ {A = List ℕ} (44 ∷ []) (44 ∷ []))
write_string_unique_example = write_string_unique "a\"" "a\"" (44 ∷ []) (44 ∷ []) refl

abbrev two_members : List Member
two_members = ("b", []) ∷ ("a", []) ∷ []

sort-IsAscending_example :
    IsAscending (sort two_members) × IsRearranged two_members (sort two_members)
sort-IsAscending_example =
    sort-IsAscending two_members (ground (arith, eq_iff "a" "b"), (ground arith, tt))
