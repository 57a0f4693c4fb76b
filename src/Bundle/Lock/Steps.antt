-- ===== src/Bundle/Lock/Steps.antt =====
-- AcquireWithRetry as a step relation (internal/bundle/lock.go): rounds that wait, and one that ends.
use atb.Prelude.{
  ℕ, zero, suc, ◌+◌, ◌-◌, ◌≤◌, ◌<◌, Option, none, some, ◌≡◌, refl, ap, subst, ◌↔◌, ◌⊎◌, inl, inr,
  arith,
}
use atb.Prelude.Int.{ℤ, pos, negsuc}
use atb.Prelude.Result.{Result, err, ok}
use atb.Bundle.Lock.{
  LockError, bundle_locked, other_error, Rounds, tried, retry_from, acquire_with_retry,
}

-- Round `k` has found the bundle locked, has time left, and its timer fires.
unfoldable pub IsWaiting : {E R : Type 0} → Rounds E R → (deadline k : ℕ) → Type 0
IsWaiting c deadline k =
    (c.lock_path k ≡ err bundle_locked) × (c.now k < deadline) × (c.context_done k ≡ none)

-- Round `k` ends the loop with the result: it has the lock, it finds the bundle locked at the
-- deadline, or another error of lockPath or of the context, the latter before the deadline.
unfoldable pub IsLast :
    {E R : Type 0} → Rounds E R → (deadline k : ℕ) → Result (LockError E) R → Type 0
IsLast c deadline k (ok release) = c.lock_path k ≡ ok release
IsLast c deadline k (err bundle_locked) = (c.lock_path k ≡ err bundle_locked) × (deadline ≤ c.now k)
IsLast c deadline k (err (other_error e)) =
    (c.lock_path k ≡ err (other_error e))
    ⊎ ((c.lock_path k ≡ err bundle_locked) × (c.now k < deadline) × (c.context_done k ≡ some e))

-- The loop from round `k` on.
pub data Retries {E R : Type 0} (c : Rounds E R) (deadline : ℕ)
    : ℕ → Result (LockError E) R → Type 0 where
  last : {k : ℕ} {r : Result (LockError E) R} → IsLast c deadline k r → Retries c deadline k r
  waits :
      {k : ℕ} {r : Result (LockError E) R}
      → IsWaiting c deadline k
      → Retries c deadline (suc k) r
      → Retries c deadline k r

some_injective : {A : Type 0} {p q : A} → ◌≡◌ {A = Option A} (some p) (some q) → p ≡ q
some_injective e = cc

tried-Retries :
    {E R : Type 0} (c : Rounds E R) (deadline k : ℕ) (rest : Option (Result (LockError E) R))
    (attempt : Result (LockError E) R) (left : ℕ) (stopped : Option E) (r : Result (LockError E) R)
    → c.lock_path k ≡ attempt
    → deadline - c.now k ≡ left
    → c.context_done k ≡ stopped
    → (rest ≡ some r → Retries c deadline (suc k) r)
    → tried attempt left stopped rest ≡ some r
    → Retries c deadline k r
unfolding tried IsLast IsWaiting
tried-Retries c d k rest (ok a) left stopped r p q s next h =
    subst (Retries c d k) (some_injective h) (last p)
tried-Retries c d k rest (err (other_error e)) left stopped r p q s next h =
    subst (Retries c d k) (some_injective h) (last (inl p))
tried-Retries c d k rest (err bundle_locked) zero stopped r p q s next h =
    subst (Retries c d k) (some_injective h) (last (p, omega arith))
tried-Retries c d k rest (err bundle_locked) (suc left) (some e) r p q s next h =
    subst (Retries c d k) (some_injective h) (last (inr (p, omega arith, s)))
tried-Retries c d k rest (err bundle_locked) (suc left) none r p q s next h =
    waits (p, omega arith, s) (next h)

retry_from-Retries :
    {E R : Type 0} (c : Rounds E R) (deadline fuel k : ℕ) (r : Result (LockError E) R)
    → retry_from c deadline fuel k ≡ some r
    → Retries c deadline k r
unfolding retry_from
retry_from-Retries c deadline zero k r h = cc
retry_from-Retries c deadline (suc fuel) k r h =
    tried-Retries c deadline k (retry_from c deadline fuel (suc k)) (c.lock_path k)
      (deadline - c.now k) (c.context_done k) r refl refl refl
      (retry_from-Retries c deadline fuel (suc k) r) h

left-suc : (now deadline : ℕ) → now < deadline → deadline - now ≡ suc (deadline - suc now)
left-suc now deadline before = omega arith

IsLast-tried :
    {E R : Type 0} (c : Rounds E R) (deadline k : ℕ) (r : Result (LockError E) R)
    (rest : Option (Result (LockError E) R))
    → IsLast c deadline k r
    → tried (c.lock_path k) (deadline - c.now k) (c.context_done k) rest ≡ some r
unfolding tried IsLast
IsLast-tried c deadline k (ok release) rest h = rw (h)
IsLast-tried c deadline k (err bundle_locked) rest h =
    let over : deadline - c.now k ≡ 0 = omega arith in rw (h.0, over)
IsLast-tried c deadline k (err (other_error e)) rest (inl h) = rw (h)
IsLast-tried c deadline k (err (other_error e)) rest (inr h) =
    rw (h.0, left-suc (c.now k) deadline h.1, h.2)

IsWaiting-tried :
    {E R : Type 0} (c : Rounds E R) (deadline k : ℕ) (r : Result (LockError E) R)
    {rest : Option (Result (LockError E) R)}
    → IsWaiting c deadline k
    → rest ≡ some r
    → tried (c.lock_path k) (deadline - c.now k) (c.context_done k) rest ≡ some r
unfolding tried IsWaiting
IsWaiting-tried c deadline k r w q = rw (w.0, left-suc (c.now k) deadline w.1, w.2, q)

-- The rounds of the relation are those that the loop makes, with fuel for as many.
Retries-retry_from :
    {E R : Type 0} (c : Rounds E R) (deadline k : ℕ) (r : Result (LockError E) R)
    → Retries c deadline k r
    → (fuel : ℕ) × (retry_from c deadline fuel k ≡ some r)
unfolding retry_from
Retries-retry_from c deadline k r (last h) = (1, IsLast-tried c deadline k r none h)
Retries-retry_from c deadline k r (waits w more) =
    let later = Retries-retry_from c deadline (suc k) r more in
    (suc later.0, IsWaiting-tried c deadline k r w later.1)

-- What AcquireWithRetry promises: at a timeout of 0 or less the single attempt's result.
unfoldable pub IsAcquired : {E R : Type 0} → Rounds E R → ℤ → Result (LockError E) R → Type 0
IsAcquired c (pos (suc n)) r = Retries c (c.start + suc n) 0 r
IsAcquired c (pos zero) r = c.lock_path 0 ≡ r
IsAcquired c (negsuc n) r = c.lock_path 0 ≡ r

-- AcquireWithRetry, with enough fuel, gives exactly the result of its step relation: rounds that find
-- the bundle locked before the deadline with the context not done, and then one that has the lock,
-- finds the bundle locked at the deadline, or meets another error of lockPath or of the context. At
-- a timeout of 0 or less it is the result of the single attempt.
pub acquire_with_retry-IsAcquired :
    {E R : Type 0} (c : Rounds E R) (timeout : ℤ) (r : Result (LockError E) R)
    → ((fuel : ℕ) × (acquire_with_retry c timeout fuel ≡ some r)) ↔ IsAcquired c timeout r
unfolding acquire_with_retry IsAcquired
acquire_with_retry-IsAcquired c (pos (suc n)) r = (
  λ h. retry_from-Retries c (c.start + suc n) h.0 0 r h.1,
  Retries-retry_from c (c.start + suc n) 0 r,
)
acquire_with_retry-IsAcquired c (pos zero) r = (λ h. some_injective h.1, λ h. (0, ap some h))
acquire_with_retry-IsAcquired c (negsuc n) r = (λ h. some_injective h.1, λ h. (0, ap some h))
