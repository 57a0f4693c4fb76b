-- ===== src/Json.antt =====
-- The dynamic values that Go's encoding/json works on (`interface{}`), as internal/canonicalize and
-- internal/bundle take them apart. A float64 is its IEEE 754 bit pattern, a number below 2 ^ 64; a Go
-- int that a caller put into the value is an `int`; a map is its entries, in the order in which it is
-- walked.
pub mod Float
use atb.Prelude.{ℕ, String, Bool, List, [], ◌∷◌, Option, none, some, str_eq, if◌then◌else◌}
use atb.Prelude.Int.{ℤ}

mutual
  pub data Value : Type 0 where
    null : Value
    bool : Bool → Value
    num : ℕ → Value
    int : ℤ → Value
    str : String → Value
    arr : Items → Value
    obj : Fields → Value

  pub data Items : Type 0 where
    no_item : Items
    item : Value → Items → Items

  pub data Fields : Type 0 where
    end : Fields
    field : String → Value → Fields → Fields

-- data[key]; `none` where the key is absent. Keys of a Go map are distinct.
abbrev pub get : String → Fields → Option Value
get k end = none
get k (field j v fs) = if str_eq j k then some v else get k fs

-- Entries of a map, in the order given.
abbrev pub of_list : List (String × Value) → Fields
of_list [] = end
of_list ((k, v) ∷ r) = field k v (of_list r)

-- Entries of `fs`, then those of `gs`.
abbrev pub append : Fields → Fields → Fields
append end gs = gs
append (field k v fs) gs = field k v (append fs gs)
