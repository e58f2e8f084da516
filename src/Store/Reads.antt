-- ===== src/Store/Reads.antt =====
-- Reads and writes of the ring of fsyncd/src/journal/store.rs at offsets of the file.
use fsyncer.Base.{
  ℕ, ==_ne, zero, suc, ◌+◌, ◌≤◌, ◌<◌, ◌≡◌, refl, ap, false, List, [], ◌∷◌, length, take, drop, ok,
  le→leb, arith,
}
use fsyncer.Common.Words.{le_bytes}
use fsyncer.Common.Buffers.{read_exact_at}
use fsyncer.Common.Files.{pwrite, slice}
use fsyncer.Store.{Journal, block_size, file_off, entry_bytes}
use fsyncer.Store.Forward.{read_at, is_zero}

pub take-take : (m n : ℕ) (xs : List ℕ) → m ≤ n → take m (take n xs) ≡ take m xs
take-take zero n xs h = refl
take-take (suc m) zero xs h = absurd (omega (arith, h))
take-take (suc m) (suc n) [] h = refl
take-take (suc m) (suc n) (x ∷ xs) h = ap (λ l. x ∷ l) (take-take m n xs (omega (arith, h)))

-- A write leaves the bytes before it and behind it alone.
pub slice-pwrite_before :
    (cs : List ℕ) (at : ℕ) (buf : List ℕ) (off len : ℕ)
    → off + len ≤ at
    → at ≤ length cs
    → slice (pwrite cs at buf) off len ≡ slice cs off len
unfolding pwrite
slice-pwrite_before cs at buf off zero h fits = refl
slice-pwrite_before [] zero buf off (suc len) h fits = absurd (omega (arith, h))
slice-pwrite_before [] (suc at) buf off (suc len) h fits = absurd (omega (arith, fits))
slice-pwrite_before (c ∷ cs) zero buf off (suc len) h fits = absurd (omega (arith, h))
slice-pwrite_before (c ∷ cs) (suc at) buf zero (suc len) h fits =
    ap (λ l. c ∷ l)
      (slice-pwrite_before cs at buf zero len (omega (arith, h)) (omega (arith, fits)))
slice-pwrite_before (c ∷ cs) (suc at) buf (suc off) (suc len) h fits =
    slice-pwrite_before cs at buf off (suc len) (omega (arith, h)) (omega (arith, fits))

pub slice-pwrite_behind :
    (cs : List ℕ) (at : ℕ) (buf : List ℕ) (off len : ℕ)
    → at + length buf ≤ off
    → at + length buf ≤ length cs
    → slice (pwrite cs at buf) off len ≡ slice cs off len
unfolding pwrite
slice-pwrite_behind [] zero [] off len h fits = refl
slice-pwrite_behind [] zero (b ∷ bs) off len h fits = absurd (omega (arith, fits))
slice-pwrite_behind [] (suc at) buf off len h fits = absurd (omega (arith, fits))
slice-pwrite_behind (c ∷ cs) zero [] off len h fits = refl
slice-pwrite_behind (c ∷ cs) zero (b ∷ bs) zero len h fits = absurd (omega (arith, h))
slice-pwrite_behind (c ∷ cs) zero (b ∷ bs) (suc off) len h fits =
    slice-pwrite_behind cs zero bs off len (omega (arith, h)) (omega (arith, fits))
slice-pwrite_behind (c ∷ cs) (suc at) buf zero len h fits = absurd (omega (arith, h))
slice-pwrite_behind (c ∷ cs) (suc at) buf (suc off) len h fits =
    slice-pwrite_behind cs at buf off len (omega (arith, h)) (omega (arith, fits))

pub read_at-ok :
    (j : Journal) (off len : ℕ)
    → 0 < j.size
    → file_off j off + len ≤ length j.ring
    → read_at j off len ≡ ok (slice j.ring (file_off j off) len)
unfolding read_exact_at
read_at-ok j off len some_bytes h =
    rw (==_ne j.size 0 (omega (arith, some_bytes)))
      (rw (le→leb (file_off j off + len) (length j.ring) h) refl)

pub is_zero-size : (n : ℕ) → 0 < n → n < block_size → is_zero (le_bytes 4 n) ≡ false
unfolding is_zero le_bytes
is_zero-size n h fits = ground (arith, h, fits)

pub entry_bytes-size :
    (crc32 : List ℕ → ℕ) (trans_id : ℕ) (content : List ℕ)
    → take 4 (entry_bytes crc32 trans_id content) ≡ le_bytes 4 (length content + 12)
unfolding entry_bytes le_bytes
entry_bytes-size crc32 trans_id content = refl

pub entry_bytes-number :
    (crc32 : List ℕ → ℕ) (trans_id : ℕ) (content : List ℕ)
    → take 4 (drop 4 (entry_bytes crc32 trans_id content)) ≡ le_bytes 4 trans_id
unfolding entry_bytes le_bytes
entry_bytes-number crc32 trans_id content = refl
