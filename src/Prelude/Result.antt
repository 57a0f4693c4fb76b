-- ===== src/Prelude/Result.antt =====
-- A Go function's (value, error) pair in which one of the two is meant.
use mathlib.Core.Path.{◌≡◌, refl}
use mathlib.Core.Logic.{◌⊎◌, inl, inr}
use mathlib.Core.Bool.{Bool, true, false}

pub data Result {ℓ κ} (E : Type κ) (A : Type ℓ) : Type (ℓ ⊔ κ) where
  err : E → Result E A
  ok : A → Result E A

infixl 10 ◌>>=◌
abbrev pub ◌>>=◌ : {E A B : Type 0} → Result E A → (A → Result E B) → Result E B
err problem >>= next = err problem
ok x >>= next = next x

-- An early return of `e` where the test holds.
infixl 10 ◌>>◌
abbrev pub ◌>>◌ : {E B : Type 0} → Result E (Unit {0}) → Result E B → Result E B
m >> k = m >>= λ _. k

abbrev pub fail_if : {E : Type 0} → Bool → E → Result E (Unit {0})
fail_if true e = err e
fail_if false e = ok tt

abbrev pub is_ok : {E A : Type 0} → Result E A → Bool
is_ok (ok a) = true
is_ok (err e) = false

pub Result-cases :
    {E A : Type 0} (r : Result E A) → ((a : A) × (r ≡ ok a)) ⊎ ((e : E) × (r ≡ err e))
Result-cases (ok a) = inl (a, refl)
Result-cases (err e) = inr (e, refl)

-- A first step that has succeeded, and what the rest of the chain made of it.
pub >>=-eq-ok :
    {E A B : Type 0} (first : Result E A) (next : A → Result E B) {y : B}
    → (first >>= next) ≡ ok y
    → (x : A) × (first ≡ ok x) × (next x ≡ ok y)
>>=-eq-ok (err problem) next p = cc
>>=-eq-ok (ok x) next p = (x, refl, p)

pub fail_if-ok : {E : Type 0} (b : Bool) (e : E) {u : Unit {0}} → fail_if b e ≡ ok u → b ≡ false
fail_if-ok true e h = cc
fail_if-ok false e h = refl

-- A guard that was passed, and what came behind it.
pub fail_if-then :
    {E B : Type 0} (b : Bool) (e : E) (k : Result E B) {y : B}
    → (fail_if b e >> k) ≡ ok y
    → (b ≡ false) × (k ≡ ok y)
fail_if-then true e k p = cc
fail_if-then false e k p = (refl, p)

-- What came behind a step that has succeeded.
pub >>-then :
    {E B : Type 0} (first : Result E (Unit {0})) (k : Result E B) {y : B}
    → (first >> k) ≡ ok y
    → k ≡ ok y
>>-then (err e) k p = cc
>>-then (ok u) k p = p

pub ok_injective : {E A : Type 0} {a b : A} → ◌≡◌ {A = Result E A} (ok a) (ok b) → a ≡ b
ok_injective p = cc
