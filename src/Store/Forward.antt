-- ===== src/Store/Forward.antt =====
-- The forward iterator of fsyncd/src/journal/store.rs. `deserialize` of bincode is a parameter; the
-- size that it gives of an entry is the one at the front of the entry's bytes.
use fsyncer.Base.{
  ℕ, ◌+◌, ◌-◌, Bool, true, ◌&&◌, List, [], ◌∷◌, Option, none, some, Outcome, ok, err, panic, other,
  ◌>>=◌, zero, suc, ltb, ◌==◌, if◌then◌else◌,
}
use fsyncer.Common.Words.{le_value}
use fsyncer.Common.Buffers.{read_exact_at}
use fsyncer.Store.{Journal, block_size, align_up_always, file_off}

-- `read_exact_at` of the file at a logical offset: `file_off` divides by the size.
abbrev pub read_at : Journal → ℕ → ℕ → Outcome (List ℕ)
read_at j off len = if j.size == 0 then panic else read_exact_at j.ring len (file_off j off)

-- `buf == [0; 4]`.
unfoldable pub is_zero : List ℕ → Bool
is_zero [] = true
is_zero (b ∷ bs) = b == 0 && is_zero bs

-- The head, moved to the next block where the entries of its block have ended.
unfoldable pub skip_end : Journal → ℕ → Outcome ℕ
skip_end j head =
    if ltb (align_up_always head block_size - head) 4
    then ok (align_up_always head block_size)
    else (do
      buf ← read_at j head 4
      ok (if is_zero buf then align_up_always head block_size else head))

abbrev pub in_front :
    {Entry : Type 0} → Entry → Option (Outcome (List Entry)) → Option (Outcome (List Entry))
in_front entry none = none
in_front entry (some rest) = some (rest >>= λ entries. ok (entry ∷ entries))

module _ {Entry : Type 0} (deserialize : List ℕ → Option Entry) where
  abbrev parsed : Option Entry → ℕ → Outcome (Option (Entry × ℕ))
  parsed none head = err other
  parsed (some entry) head = ok (some (entry, head))

  -- `next` of `JournalIterator<Forward>` at the head `head`: the entry, and the head after it.
  unfoldable pub next : Journal → ℕ → ℕ → Outcome (Option (Entry × ℕ))
  next j head tail = if head == tail then ok none else (do
    head' ← skip_end j head
    size ← read_at j head' 4
    buf ← read_at j head' (le_value size)
    parsed (deserialize buf) (head' + le_value size))

  abbrev with_next :
      (ℕ → Option (Outcome (List Entry)))
      → Outcome (Option (Entry × ℕ))
      → Option (Outcome (List Entry))
  with_next rest (ok none) = some (ok [])
  with_next rest (ok (some (entry, head))) = in_front entry (rest head)
  with_next rest (err kind) = some panic
  with_next rest panic = some panic

  -- A loop over `read_forward` to its end, in which each entry is expected to be read; none when
  -- the fuel is out.
  unfoldable pub read_all : ℕ → Journal → ℕ → Option (Outcome (List Entry))
  read_all zero j head = none
  read_all (suc fuel) j head = with_next (read_all fuel j) (next j head j.header.tail)
