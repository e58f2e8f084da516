-- ===== src/IoLimit.antt =====
-- iolimit/src/lib.rs: the writer that keeps to a number of bytes per second.
--
-- Only the lengths of buffers count. Time is in milliseconds; `now` is what the clock says when
-- `write` looks at it and `woke` what `sleep_until` returns. `accepts` is the writer inside in this call:
-- how many bytes of a buffer it takes, or its error. Sizes and times stay below what their machine types hold.
pub mod Quota
pub mod Throughput
pub mod Slow
use fsyncer.Base.{
  ℕ, ◌+◌, ◌-◌, ◌*◌, ◌/◌, min, max, Bool, true, false, not, ◌&&◌, Outcome, ok, err, panic,
  would_block, leb, ◌==◌, if◌then◌else◌,
}

pub record LimitWriter : Type 0 where
  pub bytes_left : ℕ
  pub bps : ℕ
  pub last_updated : ℕ
  pub blocking : Bool
  pub partial_writes : Bool

unfoldable pub new : ℕ → ℕ → LimitWriter
new bps now = record {
  bytes_left = bps;
  bps = bps;
  last_updated = now;
  blocking = true;
  partial_writes = false;
}

-- The bytes that a millisecond gives.
abbrev pub rate : LimitWriter → ℕ
rate w = w.bps / 1000

-- The quota after the time since the last update.
unfoldable pub refill : LimitWriter → ℕ → ℕ → LimitWriter
refill w len now = record w {
  bytes_left =
      w.bytes_left + min ((now - w.last_updated) * rate w) (max (len - w.bytes_left) w.bps);
  last_updated = now;
}

-- How long a blocking write sleeps.
abbrev pub wait_for : LimitWriter → ℕ → ℕ
wait_for w len = (len - w.bytes_left) / rate w

-- What is left after the inner writer's result.
abbrev pub passed : LimitWriter → Outcome ℕ → LimitWriter × Outcome ℕ
passed w (ok written) =
    (record w { bytes_left = w.bytes_left - min written w.bytes_left }, ok written)
passed w (err kind) = (w, err kind)
passed w panic = (w, panic)

module _ (accepts : ℕ → Outcome ℕ) where
  -- What follows the loop.
  unfoldable pub pass_on : LimitWriter → ℕ → LimitWriter × Outcome ℕ
  pass_on w len = passed w (accepts len)

  abbrev over_quota : LimitWriter → ℕ → ℕ → LimitWriter × Outcome ℕ
  over_quota w len woke =
      if w.blocking
      then (if rate w == 0 then (w, panic) else pass_on (record w { last_updated = woke }) len)
      else (w, err would_block)

  abbrev refilled : LimitWriter → ℕ → ℕ → LimitWriter × Outcome ℕ
  refilled w len woke = if leb len w.bytes_left then pass_on w len else over_quota w len woke

  -- `write` of `len` bytes.
  unfoldable pub write : LimitWriter → ℕ → ℕ → ℕ → LimitWriter × Outcome ℕ
  write w len now woke =
      if w.bps == 0
      then pass_on w len
      else if leb len w.bytes_left
      then pass_on w len
      else if w.partial_writes && not (w.bytes_left == 0)
      then pass_on w (min w.bytes_left len)
      else refilled (refill w len now) len woke
