-- ===== src/Crawler/Deduplication/Nearest.antt =====
-- The bucket of a budget is the multiple of a thousand that is nearest to it.
use Prim.Native.Nat.{◌^◌}
use native.Mathlib.Nat.{one-le-pow, div-mul-le_self, lt-div-mul-add}
use tender_phase.Prelude.{ℕ, ◌+◌, ◌*◌, ◌≤◌, ◌<◌, arith}
use tender_phase.Crawler.Deduplication.Budgets.{Amount, bucket_steps}

nearest :
    (x d q : ℕ)
    → q * (2 * (1000 * d)) ≤ 2 * x + 1000 * d
    → 2 * x + 1000 * d < q * (2 * (1000 * d)) + 2 * (1000 * d)
    → (2 * x ≤ 2 * (q * 1000 * d) + 1000 * d) × (2 * (q * 1000 * d) ≤ 2 * x + 1000 * d)
nearest x d q h g = grind arith

-- Whatever the unit and the number of decimals: the bucket, in thousands, differs from the amount by
-- half a thousand at most, both being scaled to the last decimal.
pub bucket_steps-nearest :
    (multiplier : ℕ) (a : Amount)
    → (2 * (a.digits * multiplier)
        ≤ 2 * (bucket_steps multiplier a * 1000 * 10 ^ a.scale) + 1000 * 10 ^ a.scale)
      × (2 * (bucket_steps multiplier a * 1000 * 10 ^ a.scale)
          ≤ 2 * (a.digits * multiplier) + 1000 * 10 ^ a.scale)
unfolding bucket_steps
bucket_steps-nearest multiplier a =
    let d : ℕ = 10 ^ a.scale in
    let x : ℕ = a.digits * multiplier in
    let positive : 1 ≤ d = one-le-pow a.scale 10 (omega arith) in
    nearest x d (bucket_steps multiplier a) (div-mul-le_self (2 * x + 1000 * d) (2 * (1000 * d)))
      (lt-div-mul-add (omega arith))
