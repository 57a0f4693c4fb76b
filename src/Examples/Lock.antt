-- ===== src/Examples/Lock.antt =====
-- The theorems on AcquireWithRetry, at a lock that is free in the third round.
use atb.Prelude.{
  ℕ, suc, ◌+◌, ◌*◌, ◌/◌, ◌≡◌, ◌↔◌, refl, String, none, some, arith, ltb, if◌then◌else◌,
}
use atb.Prelude.Int.{pos}
use atb.Prelude.Result.{Result, err, ok}
use atb.Bundle.Lock.{
  LockError, bundle_locked, Rounds, retry_interval, sleep_for, acquire_with_retry, retry_from,
  tried, IsTimed,
}
use atb.Bundle.Lock.Laws.{acquire_with_retry-returns}
use atb.Bundle.Lock.Steps.{IsAcquired, acquire_with_retry-IsAcquired}

-- A clock that the timer of 10 ns takes on by 10, from 1 on.
abbrev freed : Rounds String ℕ
freed = record {
  lock_path = λ k. if ltb k 2 then err bundle_locked else ok k;
  start = 1;
  now = λ k. 1 + k * 10;
  context_done = λ k. none;
}

is_timed : IsTimed freed 36 10
unfolding IsTimed sleep_for
is_timed = (omega arith, λ k. ground arith)

acquire_with_retry-returns_example :
    (result : Result (LockError String) ℕ) × (acquire_with_retry freed
        (pos 35)
        (suc (suc (35 / 10)))
      ≡ some result)
unfolding retry_interval
acquire_with_retry-returns_example = acquire_with_retry-returns freed (pos 35) (pos 10) is_timed

acquire_with_retry-IsAcquired_example :
    ((fuel : ℕ) × (acquire_with_retry freed (pos 35) fuel ≡ some (ok 2)))
    ↔ IsAcquired freed (pos 35) (ok 2)
acquire_with_retry-IsAcquired_example = acquire_with_retry-IsAcquired freed (pos 35) (ok 2)

acquired : acquire_with_retry freed (pos 35) 3 ≡ some (ok 2)
unfolding acquire_with_retry retry_from tried
acquired = refl

is_acquired : IsAcquired freed (pos 35) (ok 2)
is_acquired = acquire_with_retry-IsAcquired_example.0 (3, acquired)
