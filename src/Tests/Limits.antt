-- ===== src/Tests/Limits.antt =====
-- The theorems on the limited writer at concrete limits.
use fsyncer.Base.{ℕ, Outcome, ok, err, other, ◌+◌, ◌*◌, ◌-◌, ◌/◌, ◌≤◌, List, [], ◌∷◌, length, arith}
use fsyncer.IoLimit.{new, refill, write, pass_on}
use fsyncer.IoLimit.Throughput.{Attempt, last, written, written-bound}

abbrev takes_all : ℕ → Outcome ℕ
takes_all n = ok n

abbrev fails : ℕ → Outcome ℕ
fails n = err other

abbrev two_calls : List Attempt
two_calls =
    record { len = 5000; now = 10; woke = 1500; accepts = takes_all }
    ∷ record { len = 10; now = 1600; woke = 1650; accepts = fails }
    ∷ []

written-bound_example :
    written (new 2000 0) two_calls
    ≤ 2000
      + ((last (new 2000 0) two_calls).last_updated - 0) * (2000 / 1000)
      + length two_calls * (2000 / 1000)
unfolding new refill write pass_on
written-bound_example = written-bound 2000 0 two_calls (ground arith) (
  omega arith,
  omega arith,
  (λ n. omega arith),
  (omega arith, omega arith, (λ n. omega arith), tt),
)
