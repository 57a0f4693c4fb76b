-- ===== src/Bundle/Lock/Laws.antt =====
-- The clock and the rounds of AcquireWithRetry (internal/bundle/lock.go).
use atb.Prelude.{
  ◌⊎◌, inl, inr, ℕ, zero, suc, ◌+◌, ◌-◌, ◌*◌, ◌/◌, ◌≤◌, ◌<◌, Option, none, some, ◌≡◌, refl, subst,
  arith,
}
use native.Mathlib.Nat.{div-add-mod', mod-lt}
use atb.Prelude.Int.{ℤ, pos, negsuc}
use atb.Prelude.Result.{Result, err, ok}
use atb.Bundle.Lock.{
  LockError, bundle_locked, other_error, Rounds, retry_interval, sleep_for, tried, retry_from,
  acquire_with_retry, IsTimed,
}

-- A round sleeps the interval, or what is left.
sleep_for-cases :
    (interval left : ℕ) → (sleep_for interval left ≡ left) ⊎ (sleep_for interval left ≡ interval)
unfolding sleep_for
sleep_for-cases interval left = ground arith

-- A round that has time left begins after `k` intervals.
now-least :
    {E R : Type 0} (c : Rounds E R) (deadline interval : ℕ) (timed : IsTimed c deadline interval)
    (k : ℕ)
    → c.now k < deadline
    → c.start + k * interval ≤ c.now k
unfolding IsTimed
now-least c deadline interval timed zero before = omega arith
now-least c deadline interval timed (suc k) before =
    let slept : c.now k + sleep_for interval (deadline - c.now k) ≤ c.now (suc k) = timed.1 k in
    let earlier : c.now k < deadline = omega arith in
    let induction = now-least c deadline interval timed k earlier in
    elim (sleep_for-cases interval (deadline - c.now k)) [
      | inl all ↦ absurd (omega arith)
      | inr some_of ↦ omega arith
    ]

-- A round gives a result when the rounds behind it do, which it needs where time is left.
tried-returns :
    {E R : Type 0} (attempt : Result (LockError E) R) (left : ℕ) (stopped : Option E)
    (rest : Option (Result (LockError E) R))
    → (0 < left → (later : Result (LockError E) R) × (rest ≡ some later))
    → (result : Result (LockError E) R) × (tried attempt left stopped rest ≡ some result)
unfolding tried
tried-returns (ok release) left stopped rest next = (ok release, refl)
tried-returns (err (other_error e)) left stopped rest next = (err (other_error e), refl)
tried-returns (err bundle_locked) zero stopped rest next = (err bundle_locked, refl)
tried-returns (err bundle_locked) (suc left) (some e) rest next = (err (other_error e), refl)
tried-returns (err bundle_locked) (suc left) none rest next = next (omega arith)

-- The loop from round `k` on gives a result when the rounds reach the deadline.
retry_from-returns :
    {E R : Type 0} (c : Rounds E R) (deadline interval : ℕ) (timed : IsTimed c deadline interval)
    (fuel k : ℕ)
    → deadline ≤ c.start + (k + fuel) * interval
    → (result : Result (LockError E) R) × (retry_from c deadline (suc fuel) k ≡ some result)
unfolding retry_from
retry_from-returns c deadline interval timed zero k reached =
    tried-returns (c.lock_path k) (deadline - c.now k) (c.context_done k) none
      λ left. let late = now-least c deadline interval timed k (omega arith) in absurd (omega arith)
retry_from-returns c deadline interval timed (suc fuel) k reached =
    tried-returns (c.lock_path k) (deadline - c.now k) (c.context_done k)
      (retry_from c deadline (suc fuel) (suc k))
      λ left.
        retry_from-returns c deadline interval timed fuel (suc k)
          (subst (λ n. deadline ≤ c.start + n * interval) (omega arith) reached)

retry_interval-positive : (interval : ℤ) → 0 < retry_interval interval
unfolding retry_interval
retry_interval-positive (pos (suc n)) = omega arith
retry_interval-positive (pos zero) = omega arith
retry_interval-positive (negsuc n) = omega arith

divided-reaches : (n d : ℕ) → 0 < d → n ≤ suc (n / d) * d
divided-reaches n d positive =
    let parts = div-add-mod' n d in let small = mod-lt n positive in omega arith

-- The nanoseconds of a timeout; 0 stands for those at or below 0, which give no second attempt.
abbrev nanoseconds : ℤ → ℕ
nanoseconds (pos n) = n
nanoseconds (negsuc n) = 0

-- AcquireWithRetry gives a result within timeout / interval + 2 rounds, whatever the attempts and the
-- context give, if each timer takes the clock on by its sleep at least.
pub acquire_with_retry-returns :
    {E R : Type 0} (c : Rounds E R) (timeout interval : ℤ)
    → IsTimed c (c.start + nanoseconds timeout) (retry_interval interval)
    → (result : Result (LockError E) R) × (acquire_with_retry c timeout
          (suc (suc (nanoseconds timeout / retry_interval interval)))
        ≡ some result)
unfolding acquire_with_retry
acquire_with_retry-returns c (pos (suc n)) interval timed =
    retry_from-returns c (c.start + suc n) (retry_interval interval) timed
      (suc (suc n / retry_interval interval)) 0
      (let reach =
          divided-reaches (suc n) (retry_interval interval) (retry_interval-positive interval) in
        omega arith)
acquire_with_retry-returns c (pos zero) interval timed = (c.lock_path 0, refl)
acquire_with_retry-returns c (negsuc n) interval timed = (c.lock_path 0, refl)
