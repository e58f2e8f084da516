-- ===== src/Store/Ledger.antt =====
-- Writing to the ring of fsyncd/src/journal/store.rs as appending to a queue that forgets its oldest
-- block, and reading it from the head to the tail.
use mathlib.Core.Path.{subst}
use mathlib.Core.List.{append_assoc, append-nil, map}
use fsyncer.Base.{
  ℕ, suc, ◌+◌, ◌%◌, ◌^◌, ◌≤◌, ◌<◌, ◌≡◌, ◌≢◌, refl, sym, ap, ◌∙◌, List, [], ◌∷◌, ◌++◌, length,
  Option, some, ok, ltb, arith, Bool-cases, inl, inr, ◌⊎◌, ltb→lt, ◌==◌,
}
use fsyncer.Store.{Journal, block_size, make_room, write_inner, append, entry_bytes, space_in_block}
use fsyncer.Store.Geometry.{IsWellFormed, align_up-bounds}
use fsyncer.Store.Appends.{IsPlaced, IsRoomier, write_inner-ok, make_room-IsRoomier}
use fsyncer.Store.ReadBack.{read_at-size, read_at-entry, placed, skip_end-after}
use fsyncer.Store.Runs.{Writes, stop, write, IsNotFull}
use fsyncer.Store.Window.{append-Keeps, make_room-tail}
use fsyncer.Store.Forward.{read_all}
use fsyncer.Store.Entries.{read_all-Holds}
use fsyncer.Store.Heads.{make_room-head, inside_block, entry_bytes-sums}
use fsyncer.Store.Queue.{Follows, IsEntry, Holds, Holds-Keeps, Holds-next_block}

-- The payloads of entries, and how bincode writes them and reads entries back.
module _ {Payload Entry : Type 0} (serialize : Payload → List ℕ)
    (deserialize : List ℕ → Option Entry) (crc32 : List ℕ → ℕ) (make : ℕ → Payload → Entry)
    (bounded : (bytes : List ℕ) → crc32 bytes < 2 ^ 32)
    (parses : (id : ℕ) (x : Payload)
      → deserialize (entry_bytes crc32 id (serialize x)) ≡ some (make id x)) where
  -- The new journal holds what is kept of the old entries, all of them unless its head has moved to
  -- the next block, and the new one behind them.
  pub record IsAppended (j j' : Journal) (x : Payload) (es : List Entry) : Type 0 where
    pub dropped : List Entry
    pub kept : List Entry
    pub splits : es ≡ dropped ++ kept
    pub oldest :
        ((j'.header.head ≡ j.header.head) × (dropped ≡ []))
        ⊎ (j'.header.head ≡ j.header.head + block_size)
    pub holds : Holds deserialize crc32 j' j'.header.head (kept ++ make j.header.trans_ctr x ∷ [])
    pub next_id : j'.header.trans_ctr ≡ (j.header.trans_ctr + 1) % 2 ^ 32
    pub same_size : j'.size ≡ j.size
    pub keeps : j'.header.tail ≢ j'.header.head + j'.size → IsWellFormed j'

  module _ (x : Payload) (short : length (serialize x) + 12 < block_size) (j : Journal)
      (w : IsWellFormed j) (two : 2 ≤ w.blocks) where
    abbrev content : List ℕ
    content = serialize x

    abbrev r : Journal
    r = make_room j (length content + 12)

    abbrev j' : Journal
    j' = append crc32 r (length content + 12) content

    p : IsPlaced crc32 content j j' r.header.tail
    p = placed crc32 content short j w two

    start-cases : Follows j.header.tail r.header.tail
    start-cases = elim (Bool-cases (ltb (space_in_block j) (length content + 12))) [
      | inl full ↦ inr (
        make_room-tail j (length content + 12) full,
        inside_block j (length content + 12) short
            (ltb→lt (space_in_block j) (length content + 12) full),
      )
      | inr enough ↦ inl (unfold make_room in rw enough refl)
    ]

    room : IsRoomier j r
    room = make_room-IsRoomier j (length content + 12)

    append-IsEntry :
        IsEntry deserialize crc32 j' j.header.tail r.header.tail
          (length content + 12)
          (make j.header.trans_ctr x)
    append-IsEntry = record {
      skips = skip_end-after crc32 content short j w two;
      at = start-cases;
      least = omega arith;
      short = short;
      size = read_at-size deserialize crc32 content short j j' r.header.tail p;
      buf = entry_bytes crc32 j.header.trans_ctr content;
      bytes = read_at-entry deserialize crc32 content short j j' r.header.tail p;
      sums = entry_bytes-sums crc32 bounded j.header.trans_ctr content;
      parses = parses j.header.trans_ctr x;
      one_block = omega (arith, p.one_block, p.ends);
      below = omega (arith, p.ends);
    }

    extended :
        (low : ℕ) (es : List Entry)
        → j'.header.head ≤ low
        → Holds deserialize crc32 j low es
        → Holds deserialize crc32 j' low (es ++ make j.header.trans_ctr x ∷ [])
    extended low es above h =
        Holds-Keeps deserialize crc32 r.header.tail (length content + 12)
          (make j.header.trans_ctr x)
          (append-Keeps crc32 content j low w short (omega (arith, p.window, above, room.size)))
          (omega arith) (omega (arith, room.after)) append-IsEntry refl h

    append-IsAppended :
        (es : List Entry) → Holds deserialize crc32 j j.header.head es → IsAppended j j' x es
    append-IsAppended es h = elim (make_room-head j (length content + 12)) [
      | inl same ↦ record {
        dropped = [];
        kept = es;
        splits = refl;
        oldest = inl (same, refl);
        holds =
            extended r.header.head es (omega arith)
              (subst (λ a. Holds deserialize crc32 j a es) (sym same) h);
        next_id = p.next_id;
        same_size = room.size;
        keeps = p.keeps;
      }
      | inr (moved, full, tail) ↦
          let (dropped, kept, splits, holds) =
            Holds-next_block deserialize crc32 j (j.header.head + block_size) j.header.head
              (omega arith) (omega (arith, w.aligned)) (omega arith)
              (omega (arith, full, w.size, two, (align_up-bounds j.header.tail).1)) h in
          record {
            dropped = dropped;
            kept = kept;
            splits = splits;
            oldest = inr moved;
            holds =
                extended r.header.head kept (omega arith)
                  (subst (λ a. Holds deserialize crc32 j a kept) (sym moved) holds);
            next_id = p.next_id;
            same_size = room.size;
            keeps = p.keeps;
          }
    ]

  -- A ring of two blocks or more, not filled to its end, with entries from its head to its tail:
  -- an entry of less than a block is written behind them. The oldest ones go only where the head
  -- moves on by a block, and the rest is read back as it was.
  pub write_inner-IsAppended :
      (x : Payload) (j : Journal) (es : List Entry) (w : IsWellFormed j)
      → 2 ≤ w.blocks
      → length (serialize x) + 12 < block_size
      → Holds deserialize crc32 j j.header.head es
      → (j' : Journal) × (write_inner crc32 j (serialize x) ≡ ok j') × IsAppended j j' x es
  write_inner-IsAppended x j es w two short h = (
    append crc32 (make_room j (length (serialize x) + 12)) (length (serialize x) + 12)
        (serialize x),
    write_inner-ok crc32 j (serialize x) short (omega (arith, w.size, w.some_blocks)),
    append-IsAppended x short j w two es h,
  )

  -- The entries of some payloads, numbered from `id` on.
  abbrev pub numbered : ℕ → List Payload → List Entry
  numbered id [] = []
  numbered id (x ∷ rest) = make id x ∷ numbered ((id + 1) % 2 ^ 32) rest

  -- All but some at the front stand between the head and the tail, and none is missing where the
  -- head is at `low` as before.
  record IsKept (low : ℕ) (j : Journal) (es : List Entry) : Type 0 where
    dropped : List Entry
    kept : List Entry
    splits : es ≡ dropped ++ kept
    holds : Holds deserialize crc32 j j.header.head kept
    grows : low ≤ j.header.head
    none_dropped : j.header.head ≡ low → dropped ≡ []

  regroup :
      (es : List Entry) (e : Entry) (later dropped kept dropped' kept' : List Entry)
      → es ≡ dropped ++ kept
      → (kept ++ e ∷ []) ++ later ≡ dropped' ++ kept'
      → es ++ e ∷ later ≡ (dropped ++ dropped') ++ kept'
  regroup es e later dropped kept dropped' kept' p q =
      rw p
        (simp (append_assoc) (ap (λ l. dropped ++ l) (sym (append_assoc kept (e ∷ []) later) ∙ q)))

  kept-oldest :
      {j next : Journal} {x : Payload} {es : List Entry} (last : ℕ) (dropped : List Entry)
      (a : IsAppended j next x es)
      → next.header.head ≤ last
      → (last ≡ next.header.head → dropped ≡ [])
      → (j.header.head ≤ last) × (last ≡ j.header.head → a.dropped ++ dropped ≡ [])
  kept-oldest last dropped a grows none_dropped = elim a.oldest [
    | inl (same, nothing) ↦
        (omega (arith, grows, same), λ here. rw nothing (none_dropped (here ∙ sym same)))
    | inr moved ↦ (omega (arith, grows, moved), λ here. absurd (omega (arith, grows, moved, here)))
  ]

  kept-write :
      {j next j' : Journal} {x : Payload} (xs : List Payload) (es : List Entry)
      (a : IsAppended j next x es)
      → IsKept next.header.head j'
          ((a.kept ++ make j.header.trans_ctr x ∷ []) ++ numbered next.header.trans_ctr xs)
      → IsKept j.header.head j' (es ++ numbered j.header.trans_ctr (x ∷ xs))
  kept-write {j} {next} {j'} {x = x} xs es a k =
      let (grows, none_dropped) = kept-oldest j'.header.head k.dropped a k.grows k.none_dropped in
      record {
        dropped = a.dropped ++ k.dropped;
        kept = k.kept;
        splits =
            regroup es (make j.header.trans_ctr x) (numbered ((j.header.trans_ctr + 1) % 2 ^ 32) xs)
              a.dropped a.kept k.dropped k.kept a.splits
              (ap (λ id. (a.kept ++ make j.header.trans_ctr x ∷ []) ++ numbered id xs)
                  (sym a.next_id)
                ∙ k.splits);
        holds = k.holds;
        grows = grows;
        none_dropped = none_dropped;
      }

  step-IsAppended :
      (x : Payload) (content : List ℕ) (j next : Journal) (es : List Entry) (w : IsWellFormed j)
      → 2 ≤ w.blocks
      → content ≡ serialize x
      → length content + 12 < block_size
      → write_inner crc32 j content ≡ ok next
      → Holds deserialize crc32 j j.header.head es
      → IsAppended j next x es
  step-IsAppended x content j next es w two written short wrote h =
      let short' : length (serialize x) + 12 < block_size =
        subst (λ c. length c + 12 < block_size) written short in
      let (j1, wrote1, a) = write_inner-IsAppended x j es w two short' h in
      let wrote' : write_inner crc32 j (serialize x) ≡ ok next =
        subst (λ c. write_inner crc32 j c ≡ ok next) written wrote in
      let same : j1 ≡ next = cc in subst (λ k. IsAppended j k x es) same a

  Holds-Writes :
      {j j' : Journal} {contents : List (List ℕ)} (xs : List Payload) (es : List Entry)
      (w : IsWellFormed j)
      → 2 ≤ w.blocks
      → contents ≡ map serialize xs
      → Holds deserialize crc32 j j.header.head es
      → Writes crc32 IsNotFull j contents j'
      → IsKept j.header.head j' (es ++ numbered j.header.trans_ctr xs)
  Holds-Writes [] es w two written h (stop same) = record {
    dropped = [];
    kept = es;
    splits = append-nil es;
    holds = subst (λ k. Holds deserialize crc32 k k.header.head es) same h;
    grows = omega (arith, ap (λ k. k.header.head) same);
    none_dropped = λ here. refl;
  }
  Holds-Writes (x ∷ xs) es w two written h (stop same) = absurd (cc)
  Holds-Writes [] es w two written h (write wrote short free rest) = absurd (cc)
  Holds-Writes {j} (x ∷ xs) es w two written h
        (write {next} {content} {contents} wrote short free rest) =
      let first : content ≡ serialize x = cc in
      let later : contents ≡ map serialize xs = cc in
      let a = step-IsAppended x content j next es w two first short wrote h in
      kept-write xs es a (
        Holds-Writes xs (a.kept ++ make j.header.trans_ctr x ∷ []) (a.keeps free)
          (omega (arith, two, w.size, (a.keeps free).size, a.same_size)) later a.holds rest)

  -- Payloads that take less than a block each, written one after the other to a ring of two blocks or
  -- more with entries from its head to its tail, none of them filling the ring to its end: reading
  -- forward from the head to the tail then gives what was there and what was written, in that
  -- order and numbered on, less a number of the oldest, which is none unless the head has moved on.
  pub read_all-Writes :
      (j j' : Journal) (xs : List Payload) (es : List Entry) (w : IsWellFormed j)
      → 2 ≤ w.blocks
      → Holds deserialize crc32 j j.header.head es
      → Writes crc32 IsNotFull j (map serialize xs) j'
      → (dropped : List Entry) × (kept : List Entry) × (es ++ numbered j.header.trans_ctr xs
          ≡ dropped ++ kept)
        × ((dropped ≡ []) ⊎ (j.header.head < j'.header.head))
        × (read_all deserialize (suc (length kept)) j' j'.header.head ≡ some (ok kept))
  read_all-Writes j j' xs es w two h writes =
      let k = Holds-Writes xs es w two refl h writes in
      (
        k.dropped,
        k.kept,
        k.splits,
        elim (Bool-cases (j'.header.head == j.header.head)) [
          | inl same ↦ inl (k.none_dropped (ground (arith, same)))
          | inr moved ↦ inr (ground (arith, moved, k.grows))
        ],
        read_all-Holds deserialize crc32 j' (suc (length k.kept)) (omega arith) k.holds,
      )

  -- Where the head has not moved, nothing is missing.
  pub read_all-Writes_whole :
      (j j' : Journal) (xs : List Payload) (es : List Entry) (w : IsWellFormed j)
      → 2 ≤ w.blocks
      → Holds deserialize crc32 j j.header.head es
      → Writes crc32 IsNotFull j (map serialize xs) j'
      → j'.header.head ≡ j.header.head
      → (fuel : ℕ) → length (es ++ numbered j.header.trans_ctr xs) < fuel
      → read_all deserialize fuel j' j'.header.head
        ≡ some (ok (es ++ numbered j.header.trans_ctr xs))
  read_all-Writes_whole j j' xs es w two h writes here fuel enough =
      let k = Holds-Writes xs es w two refl h writes in
      let whole : es ++ numbered j.header.trans_ctr xs ≡ k.kept =
        k.splits ∙ ap (λ l. l ++ k.kept) (k.none_dropped here) in
      read_all-Holds deserialize crc32 j' fuel enough
        (subst (λ l. Holds deserialize crc32 j' j'.header.head l) (sym whole) k.holds)
