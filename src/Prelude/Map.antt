-- ===== src/Prelude/Map.antt =====
-- Go maps with string keys, as association lists in which the newest entry of a key counts.
use mathlib.Core.Path.{◌≡◌, refl}
use mathlib.Core.Bool.{false}
use mathlib.Core.List.{List, [], ◌∷◌}
use mathlib.Core.Option.{Option, none, some}
use Prim.Native.String.{String}
use text.Mathlib.Text.{◌==◌ as str_eq}
use text.Mathlib.TextPositions.{eq_refl}
use atb.Prelude.Tests.{if◌then◌else◌}

abbrev pub Map : Type 0 → Type 0
Map V = List (String × V)

module _ {V : Type 0} where
  -- m[k]
  abbrev pub lookup : String → Map V → Option V
  lookup k [] = none
  lookup k ((j, v) ∷ m) = if str_eq j k then some v else lookup k m

  -- m[k] = v
  abbrev pub put : String → V → Map V → Map V
  put k v m = (k, v) ∷ m

  pub lookup-put : (k : String) (v : V) (m : Map V) → lookup k (put k v m) ≡ some v
  lookup-put k v m = rw (eq_refl k) refl

  pub lookup-put_other :
      (j k : String) (v : V) (m : Map V) → str_eq j k ≡ false → lookup k (put j v m) ≡ lookup k m
  lookup-put_other j k v m h = rw h refl
