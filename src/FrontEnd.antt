-- ===== src/FrontEnd.antt =====
-- `do_write` of fsyncd/src/fuse_hl/write_unix.rs up to `pre_op`: the call that is sent for a write,
-- and the buffer that is then written to the backing store. With diff writes the buffer of the
-- caller is XORed in place.
pub mod Zeroes
pub mod Diff
pub mod Requests
use fsyncer.Base.{
  ℕ, zero, suc, ◌+◌, ◌-◌, ◌%◌, Bool, true, false, List, [], ◌∷◌, ◌++◌, length, take, drop, Option,
  none, some, Outcome, ok, panic, ◌>>=◌, ltb, ◌==◌, if◌then◌else◌,
}
use fsyncer.Common.{VfsCall}
use fsyncer.Common.Paths.{FilePath}
use fsyncer.Common.Words.{two_64}
use fsyncer.Common.Buffers.{xor_prefix}

-- `iter().take_while(|i| **i == 0).count()`.
unfoldable pub leading_zeroes : List ℕ → ℕ
leading_zeroes [] = 0
leading_zeroes (b ∷ bs) = let rest = leading_zeroes bs in if b == 0 then suc rest else 0

-- `iter().rev().take_while(|i| **i == 0).count()`.
unfoldable pub trailing_zeroes : List ℕ → ℕ
trailing_zeroes [] = 0
trailing_zeroes (b ∷ bs) =
    let rest = trailing_zeroes bs in
    if rest == length bs then (if b == 0 then suc rest else rest) else rest

-- `&buf[from..to]`.
abbrev pub range : List ℕ → ℕ → ℕ → Outcome (List ℕ)
range buf from to =
    if ltb to from
    then panic
    else (if ltb (length buf) to then panic else ok (take (to - from) (drop from buf)))

abbrev pub diff_call : FilePath → ℕ → List ℕ → ℕ → ℕ → Outcome VfsCall
diff_call path offset new_buf leading trailing =
    range new_buf leading (length new_buf - trailing) >>= λ buf.
    ok (VfsCall.diff_write path ((offset + leading) % two_64) buf)

-- The call and the buffer, where `read_at` read `old_buf`.
abbrev diff_write_call : FilePath → ℕ → List ℕ → List ℕ → Outcome (VfsCall × List ℕ)
diff_write_call path offset buf old_buf =
    let new_buf = xor_prefix buf old_buf in
    let trailing = if length old_buf == length new_buf then trailing_zeroes new_buf else 0 in
    diff_call path offset new_buf (leading_zeroes new_buf) trailing >>= λ call. ok (call, new_buf)

-- `old` is what `read_at` gives of the file, if it does not fail; no byte where there is no overlap.
unfoldable pub write_call :
    Bool → FilePath → ℕ → List ℕ → Option (List ℕ) → Outcome (VfsCall × List ℕ)
write_call true path offset buf (some (b ∷ bs)) = diff_write_call path offset buf (b ∷ bs)
write_call _ path offset buf _ = ok (VfsCall.write path offset buf, buf)
