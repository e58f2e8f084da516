-- ===== src/IoLimit/Quota.antt =====
-- The bound that `write` of iolimit/src/lib.rs keeps.
use native.Mathlib.Nat.{mod-add-div', mod-lt, add-mul, mul-le-mul_right}
use fsyncer.Base.{
  ℕ, ap, ◌∙◌, ◌+◌, ◌-◌, ◌*◌, ◌/◌, ◌≤◌, ◌<◌, ◌≡◌, ◌≢◌, refl, min, max, true, false, not, ◌&&◌,
  Outcome, ok, err, panic, would_block, leb, ◌==◌, if-cases, ==_iff, arith,
}
use fsyncer.IoLimit.{passed, LimitWriter, rate, pass_on, refill, wait_for, write, over_quota}

abbrev pub taken : Outcome ℕ → ℕ
taken (ok n) = n
taken _ = 0

-- What was written and what is left come out of what was left before, what the time gave, and one
-- millisecond's bytes.
pub record IsWithin (w : LimitWriter) (r : LimitWriter × Outcome ℕ) : Type 0 where
  pub bound :
      taken r.1 + r.0.bytes_left
      ≤ w.bytes_left + (r.0.last_updated - w.last_updated) * rate w + rate w
  pub later : w.last_updated ≤ r.0.last_updated
  pub same_bps : r.0.bps ≡ w.bps

module _ (accepts : ℕ → Outcome ℕ) (no_more : (n : ℕ) → taken (accepts n) ≤ n) where
  pass_on-max :
      (w : LimitWriter) (len : ℕ)
      → taken (pass_on accepts w len).1 + (pass_on accepts w len).0.bytes_left
        ≤ max len w.bytes_left
  unfolding pass_on
  pass_on-max w len = by_result (accepts len) (no_more len)
    where
      by_result :
          (r : Outcome ℕ)
          → taken r ≤ len
          → (let p = passed w r in taken p.1 + p.0.bytes_left ≤ max len w.bytes_left)
      by_result (ok n) h = omega (arith, h)
      by_result (err kind) h = omega arith
      by_result panic h = omega arith

  pass_on-same :
      (w : LimitWriter) (len : ℕ)
      → ((pass_on accepts w len).0.last_updated ≡ w.last_updated)
        × ((pass_on accepts w len).0.bps ≡ w.bps)
  unfolding pass_on
  pass_on-same w len = by_result (accepts len)
    where
      by_result :
          (r : Outcome ℕ)
          → ((passed w r).0.last_updated ≡ w.last_updated) × ((passed w r).0.bps ≡ w.bps)
      by_result (ok n) = (refl, refl)
      by_result (err kind) = (refl, refl)
      by_result panic = (refl, refl)

  -- A write of the limiter `v`, which came out of `w` with time.
  pass_on-IsWithin :
      (w v : LimitWriter) (len : ℕ)
      → max len v.bytes_left ≤ w.bytes_left + (v.last_updated - w.last_updated) * rate w + rate w
      → w.last_updated ≤ v.last_updated
      → v.bps ≡ w.bps
      → IsWithin w (pass_on accepts v len)
  pass_on-IsWithin w v len h later same = record {
    bound = omega (
      arith,
      h,
      pass_on-max v len,
      ap (λ t. (t - w.last_updated) * rate w) (pass_on-same v len).0,
    );
    later = omega (arith, later, (pass_on-same v len).0);
    same_bps = (pass_on-same v len).1 ∙ same;
  }

refill-bound :
    (w : LimitWriter) (len now : ℕ)
    → (refill w len now).bytes_left ≤ w.bytes_left + (now - w.last_updated) * rate w
unfolding refill
refill-bound w len now = omega arith

-- The bytes of the sleep and one millisecond cover what was missing.
missing-bound : (a r : ℕ) → 0 < r → a ≤ a / r * r + r
missing-bound a r h = omega (arith, mod-add-div' a r, mod-lt a h)

slept-bound :
    (t0 now woke wait r : ℕ)
    → t0 ≤ now
    → now + wait ≤ woke
    → (now - t0) * r + wait * r ≤ (woke - t0) * r
slept-bound t0 now woke wait r h slept = omega (
  arith,
  add-mul (now - t0) wait r,
  mul-le-mul_right {m = now - t0 + wait} {n = woke - t0} r (omega (arith, h, slept)),
)

module _ (accepts : ℕ → Outcome ℕ) (no_more : (n : ℕ) → taken (accepts n) ≤ n) where
  write-refused :
      (w v : LimitWriter) (kind : Outcome ℕ)
      → taken kind ≡ 0
      → v.bytes_left ≤ w.bytes_left + (v.last_updated - w.last_updated) * rate w
      → w.last_updated ≤ v.last_updated
      → v.bps ≡ w.bps
      → IsWithin w (v, kind)
  write-refused w v kind none_taken h later same = record {
    bound = omega (arith, none_taken, h);
    later = later;
    same_bps = same;
  }

  woke-IsWithin :
      (w : LimitWriter) (len now woke : ℕ)
      → w.last_updated ≤ now
      → 0 < rate w
      → now + wait_for (refill w len now) len ≤ woke
      → IsWithin w (pass_on accepts (record (refill w len now) { last_updated = woke }) len)
  unfolding refill
  woke-IsWithin w len now woke h fast slept =
      pass_on-IsWithin accepts no_more w (record (refill w len now) { last_updated = woke }) len
        (omega (
          arith,
          refill-bound w len now,
          missing-bound (len - (refill w len now).bytes_left) (rate w) fast,
          slept-bound w.last_updated now woke (wait_for (refill w len now) len) (rate w) h slept,
        ))
        (omega (arith, h, slept)) (unfold refill in refl)

  over_quota-IsWithin :
      (w : LimitWriter) (len now woke : ℕ)
      → w.last_updated ≤ now
      → now + wait_for (refill w len now) len ≤ woke
      → IsWithin w (over_quota accepts (refill w len now) len woke)
  over_quota-IsWithin w len now woke h slept =
      if-cases (λ r. IsWithin w r) (refill w len now).blocking
        (λ waits.
          if-cases (λ r. IsWithin w r) (rate (refill w len now) == 0) (λ slow. refused panic refl)
            (λ fast. woke-IsWithin w len now woke h (positive fast) slept))
        (λ returns. refused (err would_block) refl)
    where
      refused : (kind : Outcome ℕ) → taken kind ≡ 0 → IsWithin w (refill w len now, kind)
      refused kind none_taken =
          unfold refill in
          (write-refused w (refill w len now) kind none_taken (unfold refill in (omega arith)) h
            refl)

      positive : (rate (refill w len now) == 0) ≡ false → 0 < rate w
      positive fast = unfold refill in (ground (arith, fast))

  -- One write, of any length, to a limited writer: what is written and what is left come out of what
  -- was left, `rate` bytes for each millisecond of the clock, and one millisecond's bytes more. The
  -- clock does not go back, a sleep is as long as asked for, and the inner writer takes no more than
  -- it is given.
  pub write-IsWithin :
      (w : LimitWriter) (len now woke : ℕ)
      → w.bps ≢ 0
      → w.last_updated ≤ now
      → now + wait_for (refill w len now) len ≤ woke
      → IsWithin w (write accepts w len now woke)
  unfolding write
  write-IsWithin w len now woke limited h slept =
      if-cases (λ r. IsWithin w r) (w.bps == 0)
        (λ unlimited. absurd (limited ((==_iff w.bps 0).0 unlimited)))
        (λ is_limited.
          if-cases (λ r. IsWithin w r) (leb len w.bytes_left)
            (λ fits.
              pass_on-IsWithin accepts no_more w w len (ground (arith, fits)) (omega arith) refl)
            (λ over.
              if-cases (λ r. IsWithin w r) (w.partial_writes && not (w.bytes_left == 0))
                (λ partly.
                  pass_on-IsWithin accepts no_more w w (min w.bytes_left len) (omega arith)
                    (omega arith) refl)
                (λ whole.
                  if-cases (λ r. IsWithin w r) (leb len (refill w len now).bytes_left)
                    (λ fits.
                      pass_on-IsWithin accepts no_more w (refill w len now) len
                        (unfold refill in refilled_fits fits) (unfold refill in h)
                        (unfold refill in refl))
                    (λ short. over_quota-IsWithin w len now woke h slept))))
    where
      leb→le : (m n : ℕ) → leb m n ≡ true → m ≤ n
      leb→le m n h = ground (arith, h)

      refilled_fits :
          leb len (refill w len now).bytes_left ≡ true
          → max len (refill w len now).bytes_left
            ≤ w.bytes_left + (now - w.last_updated) * rate w + rate w
      refilled_fits fits =
          omega (arith, leb→le len (refill w len now).bytes_left fits, refill-bound w len now)
