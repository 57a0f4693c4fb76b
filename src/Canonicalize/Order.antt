-- ===== src/Canonicalize/Order.antt =====
-- Marshal gives one text for one value, in whatever order the maps in it are walked
-- (internal/canonicalize/canonicalize.go).
use atb.Prelude.{◌≡◌, ◌≢◌, refl, ap, ◌∙◌, String, Bool, ◌&&◌, arith, [], ◌∷◌, ◌++◌}
use mathlib.Core.Path.{ap₂}
use atb.Json.{Value, arr, obj, Items, no_item, item, Fields, end, field}
use atb.Canonicalize.{
  Platform, write_value, write_items, write_rest, write_fields, join_members, is_encodable,
  are_items_encodable, are_fields_encodable, marshal,
}
use atb.Canonicalize.Sort.{sort}
use atb.Canonicalize.Sort.Laws.{sort-swap, sort-cons}

-- Two values that differ in the order of the entries of the maps in them, at any depth.
mutual
  pub data Same : Value → Value → Type 0 where
    same : (v : Value) → Same v v
    arrs : {xs ys : Items} → SameItems xs ys → Same (arr xs) (arr ys)
    objs : {fs gs : Fields} → SameFields fs gs → Same (obj fs) (obj gs)

  pub data SameItems : Items → Items → Type 0 where
    no_items : SameItems no_item no_item
    items :
        {v w : Value} {xs ys : Items}
        → Same v w
        → SameItems xs ys
        → SameItems (item v xs) (item w ys)

  pub data SameFields : Fields → Fields → Type 0 where
    no_fields : SameFields end end
    fields :
        (k : String) {v w : Value} {fs gs : Fields}
        → Same v w
        → SameFields fs gs
        → SameFields (field k v fs) (field k w gs)
    swap :
        (j k : String) (v w : Value) (fs : Fields)
        → j ≢ k
        → SameFields (field j v (field k w fs)) (field k w (field j v fs))
    trans : {fs gs hs : Fields} → SameFields fs gs → SameFields gs hs → SameFields fs hs

and_exchange : (a b c : Bool) → (a && (b && c)) ≡ (b && (a && c))
and_exchange a b c = ground arith

mutual
  unfolding write_value

  write_value-Same : (pf : Platform) {v w : Value} → Same v w → write_value pf v ≡ write_value pf w
  write_value-Same pf (same v) = refl
  write_value-Same pf (arrs s) = ap (λ t. 91 ∷ t ++ 93 ∷ []) (write_items-Same pf s)
  write_value-Same pf (objs s) = ap (λ t. 123 ∷ join_members t ++ 125 ∷ []) (sort-Same pf s)

  write_items-Same :
      (pf : Platform) {xs ys : Items} → SameItems xs ys → write_items pf xs ≡ write_items pf ys
  write_items-Same pf no_items = refl
  write_items-Same pf (items s r) =
      ap₂ (λ a b. a ++ b) (write_value-Same pf s) (write_rest-Same pf r)

  write_rest-Same :
      (pf : Platform) {xs ys : Items} → SameItems xs ys → write_rest pf xs ≡ write_rest pf ys
  write_rest-Same pf no_items = refl
  write_rest-Same pf (items s r) =
      ap₂ (λ a b. 44 ∷ a ++ b) (write_value-Same pf s) (write_rest-Same pf r)

  sort-Same :
      (pf : Platform) {fs gs : Fields}
      → SameFields fs gs
      → sort (write_fields pf fs) ≡ sort (write_fields pf gs)
  sort-Same pf no_fields = refl
  sort-Same pf (fields k {v} {w} {fs} {gs} s r) =
      sort-cons (k, write_value pf v) (k, write_value pf w) (write_fields pf fs)
        (write_fields pf gs) (ap (λ t. (k, t)) (write_value-Same pf s)) (sort-Same pf r)
  sort-Same pf (swap j k v w fs h) =
      sort-swap (j, write_value pf v) (k, write_value pf w) (write_fields pf fs) h
  sort-Same pf (trans r s) = sort-Same pf r ∙ sort-Same pf s

mutual
  unfolding is_encodable

  is_encodable-Same : {v w : Value} → Same v w → is_encodable v ≡ is_encodable w
  is_encodable-Same (same v) = refl
  is_encodable-Same (arrs s) = items_encodable-Same s
  is_encodable-Same (objs s) = fields_encodable-Same s

  items_encodable-Same :
      {xs ys : Items} → SameItems xs ys → are_items_encodable xs ≡ are_items_encodable ys
  items_encodable-Same no_items = refl
  items_encodable-Same (items s r) =
      ap₂ (λ a b. a && b) (is_encodable-Same s) (items_encodable-Same r)

  fields_encodable-Same :
      {fs gs : Fields} → SameFields fs gs → are_fields_encodable fs ≡ are_fields_encodable gs
  fields_encodable-Same no_fields = refl
  fields_encodable-Same (fields k s r) =
      ap₂ (λ a b. a && b) (is_encodable-Same s) (fields_encodable-Same r)
  fields_encodable-Same (swap j k v w fs h) =
      and_exchange (is_encodable v) (is_encodable w) (are_fields_encodable fs)
  fields_encodable-Same (trans r s) = fields_encodable-Same r ∙ fields_encodable-Same s

-- Two values that differ only in the order in which the maps in them are walked, at any depth, are
-- refused alike, or have the same canonical text.
pub marshal-Same : (pf : Platform) (v w : Value) → Same v w → marshal pf v ≡ marshal pf w
unfolding marshal
marshal-Same pf v w s = cc (write_value-Same pf s, is_encodable-Same s)
