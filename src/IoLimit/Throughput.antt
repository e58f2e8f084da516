-- ===== src/IoLimit/Throughput.antt =====
-- What a limited writer of iolimit/src/lib.rs passes on over many writes.
use native.Mathlib.Nat.{add-mul}
use mathlib.Core.Path.{subst}
use fsyncer.Base.{
  ℕ, suc, ◌+◌, ◌-◌, ◌*◌, ◌/◌, ◌≤◌, ◌≡◌, ◌≢◌, sym, ap, ◌∙◌, List, [], ◌∷◌, length, arith, Outcome,
}
use fsyncer.IoLimit.{LimitWriter, rate, refill, wait_for, write, new}
use fsyncer.IoLimit.Quota.{taken, write-IsWithin}

-- A call of `write`, with the clock's times in it and what the writer inside answers.
pub record Attempt : Type 0 where
  pub len : ℕ
  pub now : ℕ
  pub woke : ℕ
  pub accepts : ℕ → Outcome ℕ

-- The limiter after the call.
abbrev pub next : LimitWriter → Attempt → LimitWriter
next w a = (write a.accepts w a.len a.now a.woke).0

abbrev pub last : LimitWriter → List Attempt → LimitWriter
last w [] = w
last w (a ∷ calls) = last (next w a) calls

-- The bytes of all calls.
abbrev pub written : LimitWriter → List Attempt → ℕ
written w [] = 0
written w (a ∷ calls) = taken (write a.accepts w a.len a.now a.woke).1 + written (next w a) calls

-- The clock does not go back, no sleep is too short, and the inner writer takes no more than it is
-- given.
abbrev pub IsTimely : LimitWriter → List Attempt → Type 0
IsTimely w [] = Unit {0}
IsTimely w (a ∷ calls) =
    (w.last_updated ≤ a.now)
    × (a.now + wait_for (refill w a.len a.now) a.len ≤ a.woke)
    × ((n : ℕ) → taken (a.accepts n) ≤ n)
    × IsTimely (next w a) calls

pub record IsLimited (w : LimitWriter) (calls : List Attempt) : Type 0 where
  pub bound :
      written w calls + (last w calls).bytes_left
      ≤ w.bytes_left
        + ((last w calls).last_updated - w.last_updated) * rate w
        + length calls * rate w
  pub later : w.last_updated ≤ (last w calls).last_updated

spans : (a b c r : ℕ) → a ≤ b → b ≤ c → (b - a) * r + (c - b) * r ≡ (c - a) * r
spans a b c r h k = sym (add-mul (b - a) (c - b) r) ∙ ap (λ n. n * r) (omega (arith, h, k))

suc_times : (n r : ℕ) → suc n * r ≡ n * r + r
suc_times n r = ap (λ m. m * r) (omega arith) ∙ add-mul n 1 r ∙ omega arith

writes-IsLimited :
    (calls : List Attempt) (w : LimitWriter) → w.bps ≢ 0 → IsTimely w calls → IsLimited w calls
writes-IsLimited [] w limited timely = record { bound = omega arith; later = omega arith }
writes-IsLimited (a ∷ calls) w limited (h, slept, no_more, timely) =
    let first = write-IsWithin a.accepts no_more w a.len a.now a.woke limited h slept in
    let same : rate (next w a) ≡ rate w = ap (λ n. n / 1000) first.same_bps in
    let rest =
      writes-IsLimited calls (next w a) (λ zero_bps. limited (sym first.same_bps ∙ zero_bps))
        timely in
    record {
      bound = omega (
        arith,
        first.bound,
        subst
            (λ r.
              written (next w a) calls + (last w (a ∷ calls)).bytes_left
              ≤ (next w a).bytes_left
                + ((last w (a ∷ calls)).last_updated - (next w a).last_updated) * r
                + length calls * r)
            same rest.bound,
        spans w.last_updated (next w a).last_updated (last w (a ∷ calls)).last_updated (rate w)
            first.later rest.later,
        suc_times (length calls) (rate w),
      );
      later = omega (arith, first.later, rest.later);
    }

-- Over any number of writes to a fresh writer with a limit: no more bytes are passed on than the
-- limit of a second, what the clock gave since, at a thousandth of the limit for a millisecond,
-- and one millisecond's bytes for each write. The clock does not go back, a sleep is as long as
-- asked for, and the inner writer, which may answer each
-- call as it likes or fail, takes no more than it is given.
pub written-bound :
    (bps start : ℕ) (calls : List Attempt)
    → bps ≢ 0
    → IsTimely (new bps start) calls
    → written (new bps start) calls
      ≤ bps
        + ((last (new bps start) calls).last_updated - start) * (bps / 1000)
        + length calls * (bps / 1000)
unfolding new
written-bound bps start calls limited timely =
    omega (arith, (writes-IsLimited calls (new bps start) limited timely).bound)
