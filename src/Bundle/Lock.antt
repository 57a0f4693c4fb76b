-- ===== src/Bundle/Lock.antt =====
-- withBundleLock and AcquireWithRetry (internal/bundle/lock.go). Durations and times are in nanoseconds.
-- lockPath, the clock and the context are arguments: what they give in each round of the loop.
pub mod Laws
pub mod Steps
use atb.Prelude.{ℕ, zero, suc, ◌+◌, ◌-◌, ◌*◌, ◌≤◌, Option, none, some, leb, if◌then◌else◌}
use atb.Prelude.Int.{ℤ, pos, negsuc}
use atb.Prelude.Result.{Result, err, ok}

-- ErrBundleLocked, and the other errors of lockPath and of the context.
pub data LockError (E : Type 0) : Type 0 where
  bundle_locked : LockError E
  other_error : E → LockError E

-- What the loop meets: lockPath's result in each round (`R` is the function that releases the lock),
-- the time of the first deadline computation, the time at the check of each round, and the context's
-- error where it is done before the timer of that round fires.
pub record Rounds (E R : Type 0) : Type 0 where
  pub lock_path : ℕ → Result (LockError E) R
  pub start : ℕ
  pub now : ℕ → ℕ
  pub context_done : ℕ → Option E

-- DefaultLockRetryInterval
abbrev pub default_lock_retry_interval : ℕ
default_lock_retry_interval = 200 * 1_000_000

unfoldable pub retry_interval : ℤ → ℕ
retry_interval (pos (suc n)) = suc n
retry_interval (pos zero) = default_lock_retry_interval
retry_interval (negsuc n) = default_lock_retry_interval

-- The sleep of a round: what is left of the timeout, the interval at most.
unfoldable pub sleep_for : ℕ → ℕ → ℕ
sleep_for interval left = if leb left interval then left else interval

-- A round: the attempt, what is left of the timeout, the context, and the rounds behind this one.
unfoldable pub tried :
    {E R : Type 0}
    → Result (LockError E) R
    → ℕ
    → Option E
    → Option (Result (LockError E) R)
    → Option (Result (LockError E) R)
tried (ok release) left stopped rest = some (ok release)
tried (err (other_error e)) left stopped rest = some (err (other_error e))
tried (err bundle_locked) zero stopped rest = some (err bundle_locked)
tried (err bundle_locked) (suc left) (some e) rest = some (err (other_error e))
tried (err bundle_locked) (suc left) none rest = rest

-- The loop from round `k` on; `none` is the fuel used up.
unfoldable pub retry_from :
    {E R : Type 0} → Rounds E R → (deadline fuel k : ℕ) → Option (Result (LockError E) R)
unfolding tried
retry_from c deadline zero k = none
retry_from c deadline (suc fuel) k =
    tried (c.lock_path k) (deadline - c.now k) (c.context_done k)
      (retry_from c deadline fuel (suc k))

unfoldable pub acquire_with_retry :
    {E R : Type 0} → Rounds E R → (timeout : ℤ) (fuel : ℕ) → Option (Result (LockError E) R)
unfolding retry_from
acquire_with_retry c (pos (suc n)) fuel = retry_from c (c.start + suc n) fuel 0
acquire_with_retry c (pos zero) fuel = some (c.lock_path 0)
acquire_with_retry c (negsuc n) fuel = some (c.lock_path 0)

-- The error of the function run under the lock comes before the error of the release.
unfoldable pub first_error : {E : Type 0} → Option E → Option E → Option E
first_error (some e) released = some e
first_error none released = released

-- The function and the release are steps on a state; the result is the new state and the error.
unfoldable pub with_bundle_lock :
    {E R S : Type 0} → Result E R → (S → S × Option E) → (R → S → S × Option E) → S → S × Option E
unfolding first_error
with_bundle_lock (err e) fn release s = (s, some e)
with_bundle_lock (ok r) fn release s =
    let during = fn s in let after = release r during.0 in (after.0, first_error during.1 after.1)

-- The clock goes on by the sleep of each round at least (time.NewTimer, time.Until).
unfoldable pub IsTimed : {E R : Type 0} → Rounds E R → (deadline interval : ℕ) → Type 0
unfolding sleep_for
IsTimed c deadline interval =
    (c.start ≤ c.now 0)
    × ((k : ℕ) → c.now k + sleep_for interval (deadline - c.now k) ≤ c.now (suc k))
