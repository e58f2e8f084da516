-- ===== src/Store/Queue.antt =====
-- The ring of fsyncd/src/journal/store.rs as a queue of entries.
use mathlib.Core.Path.{subst}
use fsyncer.Base.{
  ℕ, ◌+◌, ◌-◌, ◌%◌, ◌≤◌, ◌<◌, ◌≡◌, ◌≢◌, refl, sym, ap, ◌∙◌, List, [], ◌∷◌, ◌++◌, Option, some, ok,
  true, ltb, ltb_past, arith, Bool-cases, inl, inr, ◌⊎◌,
}
use fsyncer.Common.Words.{le_bytes}
use fsyncer.Store.{Journal, block_size, align_up_always}
use fsyncer.Store.Geometry.{align_up-bounds}
use fsyncer.Store.Forward.{read_at, skip_end}
use fsyncer.Store.Backward.{checked}
use fsyncer.Store.Reads.{is_zero-size}
use fsyncer.Store.Window.{Keeps}

-- The entry at the offset, or after the end of its block at the next.
abbrev pub Follows : ℕ → ℕ → Type 0
Follows head start =
    (start ≡ head) ⊎ ((start ≡ align_up_always head block_size) × (head % block_size ≢ 0))

pub align_up-eq :
    (off block : ℕ)
    → off < block
    → block % block_size ≡ 0
    → block ≤ off + block_size
    → align_up_always off block_size ≡ block
unfolding align_up_always
align_up-eq off block before aligned near = omega (arith, before, aligned, near)

pub start-bound : (head start : ℕ) → Follows head start → head ≤ start
start-bound head start (inl here) = omega arith
start-bound head start (inr (next, inside)) = omega (arith, next, (align_up-bounds head).0)

module _ {Entry : Type 0} (deserialize : List ℕ → Option Entry) (crc32 : List ℕ → ℕ) where
  -- A reader at `head` finds an entry of `esize` bytes at `start`.
  pub record IsEntry (j : Journal) (head start esize : ℕ) (e : Entry) : Type 0 where
    pub skips : skip_end j head ≡ ok start
    pub at : Follows head start
    pub least : 4 ≤ esize
    pub short : esize < block_size
    pub size : read_at j start 4 ≡ ok (le_bytes 4 esize)
    pub buf : List ℕ
    pub bytes : read_at j start esize ≡ ok buf
    pub sums : checked crc32 buf ≡ ok true
    pub parses : deserialize buf ≡ some e
    pub one_block : start + esize ≤ align_up_always start block_size
    pub below : start + esize ≤ j.header.tail

  -- The entries from `head` to the tail.
  pub data Holds (j : Journal) : ℕ → List Entry → Type 0 where
    ended : {head : ℕ} → head ≡ j.header.tail → Holds j head []
    entry :
        {head start esize : ℕ} {e : Entry} {es : List Entry}
        → IsEntry j head start esize e
        → Holds j (start + esize) es
        → Holds j head (e ∷ es)

  skip_end-Keeps :
      (j j' : Journal) (low head start esize : ℕ) (e : Entry)
      → Keeps j j' low
      → low ≤ head
      → IsEntry j head start esize e
      → skip_end j' head ≡ skip_end j head
  unfolding skip_end
  skip_end-Keeps j j' low head start esize e keeps above i =
      elim (Bool-cases (ltb (align_up_always head block_size - head) 4)) [
        | inl ends ↦ rw ends refl
        | inr more ↦ rw more (
            rw (keeps head 4 above (below i.at (ground (arith, more))) (ground (arith, more))) refl)
      ]
    where
      below :
          Follows head start → head + 4 ≤ align_up_always head block_size → head + 4 ≤ j.header.tail
      below (inl here) h = omega (arith, here, i.least, i.below)
      below (inr (next, inside)) h = omega (arith, next, h, i.below)

  IsEntry-Keeps :
      (j j' : Journal) (low head start esize : ℕ) (e : Entry)
      → Keeps j j' low
      → low ≤ head
      → j.header.tail ≤ j'.header.tail
      → IsEntry j head start esize e
      → IsEntry j' head start esize e
  IsEntry-Keeps j j' low head start esize e keeps above grows i =
      let behind = start-bound head start i.at in
      record {
        skips = skip_end-Keeps j j' low head start esize e keeps above i ∙ i.skips;
        at = i.at;
        least = i.least;
        short = i.short;
        size =
            keeps start 4 (omega (arith, above, behind)) (omega (arith, i.least, i.below))
              (omega (arith, i.least, i.one_block))
            ∙ i.size;
        buf = i.buf;
        bytes = keeps start esize (omega (arith, above, behind)) i.below i.one_block ∙ i.bytes;
        sums = i.sums;
        parses = i.parses;
        one_block = i.one_block;
        below = omega (arith, i.below, grows);
      }

  -- The entries of the window, with the new one at the end.
  pub Holds-Keeps :
      {j j' : Journal} {low head : ℕ} {es : List Entry} (start esize : ℕ) (e : Entry)
      → Keeps j j' low
      → low ≤ head
      → j.header.tail ≤ j'.header.tail
      → IsEntry j' j.header.tail start esize e
      → start + esize ≡ j'.header.tail
      → Holds j head es
      → Holds j' head (es ++ e ∷ [])
  Holds-Keeps {j} {j'} start esize e keeps above grows i ends (ended at_tail) =
      entry (subst (λ h. IsEntry j' h start esize e) (sym at_tail) i) (ended ends)
  Holds-Keeps {j} {j'} {low} {head} start esize e keeps above grows i ends
        (entry {start = start'} {esize = esize'} {e = e'} i' rest) =
      entry (IsEntry-Keeps j j' low head start' esize' e' keeps above grows i') (
        Holds-Keeps start esize e keeps (omega (arith, above, start-bound head start' i'.at)) grows
          i ends rest)

  skip_end-at :
      (j : Journal) (start esize : ℕ)
      → 4 ≤ esize
      → esize < block_size
      → start + esize ≤ align_up_always start block_size
      → read_at j start 4 ≡ ok (le_bytes 4 esize)
      → skip_end j start ≡ ok start
  unfolding skip_end
  skip_end-at j start esize least short one_block size =
      rw (ltb_past (align_up_always start block_size - start) 4 (omega (arith, least, one_block)))
        (rw size (rw (is_zero-size esize (omega (arith, least)) short) refl))

  -- What a reader finds behind the end of a block, it also finds at the start of the next.
  pub Holds-start :
      {j : Journal} {head start esize : ℕ} {e : Entry} {es : List Entry}
      → IsEntry j head start esize e
      → Holds j (start + esize) es
      → Holds j start (e ∷ es)
  Holds-start {j} {start = start} {esize} i rest =
      entry
        (record {
          skips = skip_end-at j start esize i.least i.short i.one_block i.size;
          at = inl refl;
          least = i.least;
          short = i.short;
          size = i.size;
          buf = i.buf;
          bytes = i.bytes;
          sums = i.sums;
          parses = i.parses;
          one_block = i.one_block;
          below = i.below;
        })
        rest

  -- Without the entries of a block, what is left starts at the next block.
  pub Holds-next_block :
      (j : Journal) (block head : ℕ) {es : List Entry}
      → head ≤ block
      → block % block_size ≡ 0
      → block ≤ head + block_size
      → block ≤ j.header.tail
      → Holds j head es
      → (dropped : List Entry) × (kept : List Entry) × (es ≡ dropped ++ kept) × Holds j block kept
  Holds-next_block j block head below aligned near in_window (ended at_tail) =
      ([], [], refl, ended (omega (arith, at_tail, below, in_window)))
  Holds-next_block j block head below aligned near in_window
        (entry {start} {esize} {e} {es = es'} i rest) =
      elim (le-cases head block below) [
        | inl before ↦ elim i.at [
          | inl here ↦
              let (dropped, kept, splits, holds) =
                Holds-next_block j block (start + esize)
                  (omega
                    (arith, i.one_block, ap (λ s. align_up_always s block_size) here, up before))
                  aligned (omega (arith, here, near)) in_window rest in
              (e ∷ dropped, kept, ap (λ l. e ∷ l) splits, holds)
          | inr (next, inside) ↦ (
            [],
            e ∷ es',
            refl,
            subst (λ h. Holds j h (e ∷ es')) (start-eq next before) (Holds-start i rest),
          )
        ]
        | inr at_block ↦
            ([], e ∷ es', refl, subst (λ h. Holds j h (e ∷ es')) at_block (entry i rest))
      ]
    where
      le-cases : (m n : ℕ) → m ≤ n → (m < n) ⊎ (m ≡ n)
      le-cases m n h = ground (arith, h)

      up : head < block → align_up_always head block_size ≡ block
      up before = align_up-eq head block before aligned near

      start-eq : start ≡ align_up_always head block_size → head < block → start ≡ block
      start-eq next before = next ∙ up before
