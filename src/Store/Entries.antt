-- ===== src/Store/Entries.antt =====
-- What the forward iterator of fsyncd/src/journal/store.rs gives of a ring that holds some entries.
use fsyncer.Base.{
  ℕ, zero, suc, ◌+◌, ◌<◌, ◌≡◌, refl, List, length, Option, none, some, ok, ==_ne, ==_iff, arith,
}
use fsyncer.Common.Words.{le_value-le_bytes_4}
use fsyncer.Store.{Journal}
use fsyncer.Store.Forward.{next, read_all}
use fsyncer.Store.Queue.{IsEntry, Holds, ended, entry, start-bound}

module _ {Entry : Type 0} (deserialize : List ℕ → Option Entry) (crc32 : List ℕ → ℕ) where
  next-IsEntry :
      (j : Journal) (head start esize : ℕ) (e : Entry)
      → IsEntry deserialize crc32 j head start esize e
      → next deserialize j head j.header.tail ≡ ok (some (e, start + esize))
  unfolding next
  next-IsEntry j head start esize e i =
      rw (==_ne head j.header.tail (ground (arith, i.least, i.below, start-bound head start i.at)))
        (rw i.skips (
          rw i.size (
            rw (le_value-le_bytes_4 esize (omega (arith, i.short)))
              (rw i.bytes (rw i.parses refl)))))

  next-ended :
      (j : Journal) (head : ℕ)
      → head ≡ j.header.tail
      → next deserialize j head j.header.tail ≡ ok none
  unfolding next
  next-ended j head at_tail = rw ((==_iff head j.header.tail).1 at_tail) refl

  pub read_all-Holds :
      (j : Journal) (fuel : ℕ) {head : ℕ} {es : List Entry}
      → length es < fuel
      → Holds deserialize crc32 j head es
      → read_all deserialize fuel j head ≡ some (ok es)
  unfolding read_all
  read_all-Holds j zero h holds = absurd (omega (arith, h))
  read_all-Holds j (suc fuel) h (ended at_tail) = rw (next-ended j _ at_tail) refl
  read_all-Holds j (suc fuel) h (entry {head} {start} {esize} {e} {es} i rest) =
      rw (next-IsEntry j head start esize e i)
        (rw (read_all-Holds j fuel (omega (arith, h)) rest) refl)
