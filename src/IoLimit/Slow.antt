-- ===== src/IoLimit/Slow.antt =====
-- Limits of less than a byte for each millisecond in iolimit/src/lib.rs.
use fsyncer.Base.{
  ℕ, Outcome, ◌+◌, ◌-◌, ◌*◌, ◌/◌, ◌<◌, ◌≡◌, refl, min, max, true, false, panic, leb, ==_ne, arith,
}
use fsyncer.IoLimit.{write, refill}

-- A blocking writer without partial writes, as `new` makes it, whose limit is less than 1000 bytes a
-- second and not zero, divides by zero on a write of more than what is left: it panics.
write-slow :
    (accepts : ℕ → Outcome ℕ) (bytes_left bps last_updated len now woke : ℕ)
    → 0 < bps
    → bps < 1000
    → bytes_left < len
    → (write accepts
        (record {
          bytes_left = bytes_left;
          bps = bps;
          last_updated = last_updated;
          blocking = true;
          partial_writes = false;
        })
        len
        now
        woke).1
      ≡ panic
unfolding write refill
write-slow accepts bytes_left bps last_updated len now woke some_limit slow over =
    rw (==_ne bps 0 (ground (arith, some_limit))) (
      rw (leb_over len bytes_left over) (
        rw no_rate (
          rw
            (leb_over len (bytes_left + min ((now - last_updated) * 0) (max (len - bytes_left) bps))
              (omega (arith, over)))
            refl)))
  where
    leb_over : (m n : ℕ) → n < m → leb m n ≡ false
    leb_over m n h = ground (arith, h)

    no_rate : bps / 1000 ≡ 0
    no_rate = omega (arith, slow)
