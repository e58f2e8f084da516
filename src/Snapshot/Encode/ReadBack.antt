-- ===== src/Snapshot/Encode/ReadBack.antt =====
-- What `encode_write` of fsyncd/src/snapshot/forward.rs has written can be read.
use Prim.Native.Nat.{compare}
use fsyncer.Base.{
  ℕ, ◌+◌, ◌-◌, ◌&&◌, ◌≤◌, ◌≡◌, subst, true, List, [], ◌∷◌, length, get_or, All, some, ok, ltb, leb,
  ◌==◌, if-cases, arith,
}
use fsyncer.Snapshot.{Block}
use fsyncer.Snapshot.Ordered.{get}
use fsyncer.Snapshot.Encode.{
  Encoded, write_all_at, encode, encode_with, encode_single, encode_general, without_first,
  without_last, extend_by, extend, overlaps_of,
}
use fsyncer.Snapshot.Encode.Overlaps.{
  SortedFrom, IsIn, overlaps_of-IsIn, overlaps_of-Reaches, Reaches,
}
use fsyncer.Snapshot.Encode.Written.{IsWritten, written-at, get-insert, IfOk, allocate-size}
use fsyncer.Snapshot.Encode.Defragments.{IfOk-then, encode_overlaps-IsWritten}

encode_general-IsWritten :
    (e : Encoded) (overlaps : List (ℕ × Block)) (offset : ℕ) (buf : List ℕ)
    → IfOk (IsWritten offset buf) (encode_general e overlaps offset buf)
encode_general-IsWritten e overlaps offset buf =
    encode_overlaps-IsWritten e (without_last (offset + length buf) (without_first offset overlaps))
      offset buf

extend-IsWritten :
    (e : Encoded) (o : ℕ) (b : Block) (offset : ℕ) (buf : List ℕ)
    → o ≤ offset
    → offset ≤ o + b.size
    → o + b.size ≤ offset + length buf
    → IfOk (IsWritten offset buf) (extend e o b offset buf)
unfolding extend
extend-IsWritten e o b offset buf starts reaches ends =
    IfOk-then _ (IsWritten offset buf) _ (extend_by e o b offset buf)
      (allocate-size e.free (length buf - (o + b.size - offset)) (some (b.location + b.size)))
      (λ found size.
        if-cases (IfOk (IsWritten offset buf)) (found.0.location == b.location + b.size)
          (λ next. record {
            start = o;
            block = record { location = b.location; size = b.size + found.0.size };
            there =
                get-insert o (record { location = b.location; size = b.size + found.0.size })
                  e.blocks;
            before = starts;
            behind = omega (arith, size, starts, reaches, ends);
            bytes = λ i h.
                subst
                  (λ n.
                    write_all_at e.bytes buf (found.0.location - (o + b.size - offset)) n
                    ≡ get_or buf i 0)
                  (ground arith)
                  (written-at e.bytes buf (found.0.location - (o + b.size - offset)) i h);
          })
          (λ apart. encode_general-IsWritten _ ((o, b) ∷ []) offset buf))

encode_single-IsWritten :
    (e : Encoded) (o : ℕ) (b : Block) (offset : ℕ) (buf : List ℕ)
    → get compare o e.blocks ≡ some b
    → leb offset (o + b.size) ≡ true
    → IfOk (IsWritten offset buf) (encode_single e o b offset buf)
encode_single-IsWritten e o b offset buf there reaches =
    if-cases (IfOk (IsWritten offset buf)) (leb o offset && leb (offset + length buf) (o + b.size))
      (λ fits. record {
        start = o;
        block = b;
        there = there;
        before = ground arith;
        behind = ground arith;
        bytes = λ i h. written-at e.bytes buf (b.location + (offset - o)) i h;
      })
      (λ longer.
        if-cases (IfOk (IsWritten offset buf)) (ltb o offset)
          (λ starts. extend-IsWritten e o b offset buf (ground arith) (ground arith) (ground arith))
          (λ behind. encode_general-IsWritten e ((o, b) ∷ []) offset buf))

encode_with-IsWritten :
    (e : Encoded) (overlaps : List (ℕ × Block)) (offset : ℕ) (buf : List ℕ)
    → All (IsIn e.blocks) overlaps
    → All (Reaches offset) overlaps
    → IfOk (IsWritten offset buf) (encode_with e overlaps offset buf)
encode_with-IsWritten e [] offset buf there reaches = encode_general-IsWritten e [] offset buf
encode_with-IsWritten e ((o, b) ∷ []) offset buf (there, h) (reaches, h') =
    encode_single-IsWritten e o b offset buf there reaches
encode_with-IsWritten e (x ∷ y ∷ overlaps) offset buf there reaches =
    encode_general-IsWritten e (x ∷ y ∷ overlaps) offset buf

-- A write into a file whose blocks are in order, wherever it is put: into a block, behind one, into
-- a new block, or with what it overlaps in a new one. Where it returns, one block of the file holds
-- all of the write, and its bytes there are the buffer's.
pub encode-IsWritten :
    (low : ℕ) (e e' : Encoded) (offset : ℕ) (buf : List ℕ)
    → SortedFrom low e.blocks
    → encode e offset buf ≡ ok e'
    → IsWritten offset buf e'
unfolding encode
encode-IsWritten low e e' offset buf sorted h = subst (IfOk (IsWritten offset buf)) h (
    encode_with-IsWritten e (overlaps_of e.blocks offset (length buf)) offset buf
      (overlaps_of-IsIn low e.blocks offset (length buf) sorted)
      (overlaps_of-Reaches e.blocks offset (length buf)))
