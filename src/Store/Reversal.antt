-- ===== src/Store/Reversal.antt =====
-- The two iterators of fsyncd/src/journal/store.rs give the same entries, in opposite orders.
use mathlib.Core.Path.{subst}
use mathlib.Core.List.{reverse_aux}
use fsyncer.Base.{
  ℕ, zero, suc, ◌+◌, ◌-◌, ◌%◌, ◌≤◌, ◌<◌, ◌≡◌, ◌≢◌, refl, sym, ap, ◌∙◌, List, [], ◌∷◌, ◌++◌, Option,
  none, some, Outcome, ◌>>=◌, ok, err, panic, true, false, ltb, ltb_past, lt→ltb, arith, Bool-cases,
  inl, inr, ◌⊎◌, if◌then◌else◌,
}
use fsyncer.Common.Words.{le_value-le_bytes_4}
use fsyncer.Store.{Journal, block_size, align_up_always}
use fsyncer.Store.Forward.{read_at, is_zero, skip_end}
use fsyncer.Store.Reads.{is_zero-size}
use fsyncer.Store.Queue.{IsEntry, Holds, ended, entry, Holds-start, align_up-eq}
use fsyncer.Store.Backward.{decode_entry, decode_block}

module _ {Entry : Type 0} (deserialize : List ℕ → Option Entry) (crc32 : List ℕ → ℕ)
    (j : Journal) where
  -- The loop of a block reads the entry that stands at its offset.
  decode_entry-at :
      (limit head esize : ℕ) (e : Entry)
      → IsEntry deserialize crc32 j head head esize e
      → head + esize ≤ limit
      → decode_entry deserialize crc32 j limit head ≡ ok (some (e, esize))
  unfolding decode_entry
  decode_entry-at limit head esize e i within = rw (ltb_past limit head (omega (arith, within))) (
      rw (ltb_past (limit - head) 4 (omega (arith, within, i.least))) (
        rw i.size (
          rw (is_zero-size esize (omega (arith, i.least)) i.short) (
            rw (le_value-le_bytes_4 esize (omega (arith, i.short))) (
              rw
                (ltb_past (align_up_always head block_size - head) esize
                  (omega (arith, i.one_block)))
                (rw i.bytes (rw i.sums (rw i.parses refl))))))))

  -- It ends where the limit is,
  decode_entry-limit : (limit : ℕ) → decode_entry deserialize crc32 j limit limit ≡ ok none
  unfolding decode_entry
  decode_entry-limit limit =
      rw (ltb_past limit limit (omega arith)) (rw (lt→ltb (limit - limit) 4 (omega arith)) refl)

  end_mark :
      (head limit : ℕ)
      → head < limit
      → (read_at j head 4 >>= λ buf. ok (if is_zero buf then limit else head)) ≡ ok limit
      → (buf : List ℕ) × (read_at j head 4 ≡ ok buf) × (is_zero buf ≡ true)
  end_mark head limit before h = marked (read_at j head 4) h
    where
      marked :
          (r : Outcome (List ℕ))
          → (r >>= λ buf. ok (if is_zero buf then limit else head)) ≡ ok limit
          → (buf : List ℕ) × (r ≡ ok buf) × (is_zero buf ≡ true)
      marked (ok buf) h = (buf, refl, ground (arith, h, before))
      marked (err kind) h = absurd (cc)
      marked panic h = absurd (cc)

  -- and where the forward iterator goes on to the next block.
  decode_entry-end :
      (head : ℕ)
      → head < align_up_always head block_size
      → skip_end j head ≡ ok (align_up_always head block_size)
      → decode_entry deserialize crc32 j (align_up_always head block_size) head ≡ ok none
  unfolding decode_entry skip_end
  decode_entry-end head before skipped =
      rw (ltb_past (align_up_always head block_size) head (omega (arith, before)))
        (elim (Bool-cases (ltb (align_up_always head block_size - head) 4)) [
          | inl ends ↦ rw ends refl
          | inr more ↦
              let (buf, reads, zeroes) =
                end_mark head (align_up_always head block_size) before (jumped more) in
              rw more (rw reads (rw zeroes refl))
        ])
    where
      jumped :
          ltb (align_up_always head block_size - head) 4 ≡ false
          → (read_at j head 4 >>= λ buf.
              ok (if is_zero buf then align_up_always head block_size else head))
            ≡ ok (align_up_always head block_size)
      jumped more = rw more at skipped

  -- What the loop of a block makes of the entries from `head` on: those in front of `limit` are
  -- pushed to the buffer.
  pub record IsDecoded (rounds limit head : ℕ) (buffer es : List Entry) : Type 0 where
    pub here : List Entry
    pub later : List Entry
    pub splits : es ≡ here ++ later
    pub decoded :
        decode_block deserialize crc32 rounds j limit head buffer
        ≡ some (ok (reverse_aux here buffer))
    pub remain : Holds deserialize crc32 j limit later
    pub some_here : head % block_size ≡ 0 → head < limit → here ≢ []

  stop_here :
      (rounds limit : ℕ) (buffer es : List Entry)
      → 0 < rounds
      → Holds deserialize crc32 j limit es
      → IsDecoded rounds limit limit buffer es
  unfolding decode_block
  stop_here zero limit buffer es h holds = absurd (omega (arith, h))
  stop_here (suc rounds) limit buffer es h holds = record {
    here = [];
    later = es;
    splits = refl;
    decoded = rw (decode_entry-limit limit) refl;
    remain = holds;
    some_here = λ aligned before. absurd (omega (arith, before));
  }

  stop_at_mark :
      (rounds edge head start esize : ℕ) (e : Entry) (buffer es : List Entry)
      → 0 < rounds
      → head < edge
      → edge ≡ align_up_always head block_size
      → start ≡ edge
      → head % block_size ≢ 0
      → IsEntry deserialize crc32 j head start esize e
      → Holds deserialize crc32 j (start + esize) es
      → IsDecoded rounds edge head buffer (e ∷ es)
  unfolding decode_block
  stop_at_mark zero edge head start esize e buffer es h before up next inside i rest =
      absurd (omega (arith, h))
  stop_at_mark (suc rounds) edge head start esize e buffer es h before up next inside i rest =
      record {
        here = [];
        later = e ∷ es;
        splits = refl;
        decoded = rw up (
            rw (decode_entry-end head (omega (arith, before, up)) (i.skips ∙ ap ok (next ∙ up)))
              refl);
        remain =
            subst (λ h. Holds deserialize crc32 j h (e ∷ es)) next
              (Holds-start deserialize crc32 i rest);
        some_here = λ aligned. absurd (inside aligned);
      }

  go_on :
      (rounds limit head start esize : ℕ) (e : Entry) (buffer es : List Entry)
      → start ≡ head
      → start + esize ≤ limit
      → IsEntry deserialize crc32 j head start esize e
      → IsDecoded rounds limit (start + esize) (e ∷ buffer) es
      → IsDecoded (suc rounds) limit head buffer (e ∷ es)
  unfolding decode_block
  go_on rounds limit head start esize e buffer es same within i d = record {
    here = e ∷ d.here;
    later = d.later;
    splits = ap (λ l. e ∷ l) d.splits;
    decoded =
        rw
          (decode_entry-at limit head esize e
            (subst (λ s. IsEntry deserialize crc32 j head s esize e) same i)
            (omega (arith, same, within)))
          (ap (λ s. decode_block deserialize crc32 rounds j limit (s + esize) (e ∷ buffer))
              (sym same)
            ∙ d.decoded);
    remain = d.remain;
    some_here = λ aligned before. cc;
  }

  -- The loop from `head` to a limit in the same block: the block's end, or the tail.
  pub decode_block-IsDecoded :
      (rounds limit edge : ℕ) {head : ℕ} {es : List Entry} (buffer : List Entry)
      → head ≤ limit
      → limit ≤ edge
      → (limit < edge → limit ≡ j.header.tail)
      → limit ≤ j.header.tail
      → edge % block_size ≡ 0
      → edge ≤ head + block_size
      → limit < head + rounds
      → Holds deserialize crc32 j head es
      → IsDecoded rounds limit head buffer es
  decode_block-IsDecoded rounds limit edge {head} buffer low high last in_window aligned near fuel
        (ended at_tail) =
      subst (λ h. IsDecoded rounds limit h buffer []) (omega (arith, at_tail, low, in_window))
        (stop_here rounds limit buffer [] (omega (arith, fuel, low))
          (ended (omega (arith, at_tail, low, in_window))))
  decode_block-IsDecoded zero limit edge buffer low high last in_window aligned near fuel
        (entry i rest) =
      absurd (omega (arith, fuel, low))
  decode_block-IsDecoded (suc rounds) limit edge {head} buffer low high last in_window aligned near
        fuel (entry {start} {esize} {e} {es} i rest) =
      elim (le-cases head limit low) [
        | inl before ↦ elim i.at [
          | inl same ↦ go_on rounds limit head start esize e buffer es same (within same before) i (
              decode_block-IsDecoded rounds limit edge (e ∷ buffer) (within same before) high last
                in_window aligned (omega (arith, same, near)) (omega (arith, same, i.least, fuel))
                rest)
          | inr (next, inside) ↦
              subst (λ l. IsDecoded (suc rounds) l head buffer (e ∷ es)) (sym (at_edge next before))
                (stop_at_mark (suc rounds) edge head start esize e buffer es (omega arith)
                  (omega (arith, before, high)) (sym (up before)) (next ∙ up before) inside i rest)
        ]
        | inr stop ↦
            subst (λ h. IsDecoded (suc rounds) limit h buffer (e ∷ es)) (sym stop)
              (stop_here (suc rounds) limit buffer (e ∷ es) (omega arith)
                (subst (λ h. Holds deserialize crc32 j h (e ∷ es)) stop (entry i rest)))
      ]
    where
      le-cases : (m n : ℕ) → m ≤ n → (m < n) ⊎ (m ≡ n)
      le-cases m n h = ground (arith, h)

      up : head < limit → align_up_always head block_size ≡ edge
      up before = align_up-eq head edge (omega (arith, before, high)) aligned near

      at_edge : start ≡ align_up_always head block_size → head < limit → limit ≡ edge
      at_edge next before = elim (le-cases limit edge high) [
        | inl short ↦ absurd (omega (arith, last short, short, next, up before, i.below, i.least))
        | inr same ↦ same
      ]

      within : start ≡ head → head < limit → start + esize ≤ limit
      within same before = elim (le-cases limit edge high) [
        | inl short ↦ omega (arith, last short, i.below)
        | inr at_end ↦
            omega
              (arith, at_end, i.one_block, ap (λ s. align_up_always s block_size) same, up before)
      ]
