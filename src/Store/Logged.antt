-- ===== src/Store/Logged.antt =====
-- The entries of fsyncd/src/journal/store.rs that stand behind the tail of the header on disk.
use mathlib.Core.Path.{subst}
use fsyncer.Base.{ℕ, ◌+◌, ◌%◌, ◌^◌, ◌≤◌, ◌<◌, ◌≡◌, refl, sym, ap, ◌∙◌, ok, arith}
use fsyncer.Common.Words.{le_bytes}
use fsyncer.Store.{Journal, write_header, block_size, align_up_always}
use fsyncer.Store.Forward.{read_at}
use fsyncer.Store.Window.{Keeps}

-- An entry of `esize` bytes with the number `id`.
pub record IsLogged (j : Journal) (off esize id : ℕ) : Type 0 where
  pub least : 12 ≤ esize
  pub short : esize < block_size
  pub one_block : off + esize ≤ align_up_always off block_size
  pub below : off + esize ≤ j.header.tail
  pub size : read_at j off 4 ≡ ok (le_bytes 4 esize)
  pub number : read_at j (off + 4) 4 ≡ ok (le_bytes 4 id)

pub data Logged (j : Journal) : ℕ → ℕ → Type 0 where
  ended : {off id : ℕ} → off ≡ j.header.tail → id ≡ j.header.trans_ctr → Logged j off id
  entry :
      {off id esize : ℕ}
      → IsLogged j off esize id
      → Logged j (off + esize) ((id + 1) % 2 ^ 32)
      → Logged j off id

pub record IsSaved (j : Journal) : Type 0 where
  pub head : j.disk_header.head ≡ j.header.head
  pub behind : j.header.head ≤ j.disk_header.tail
  pub same_block :
      align_up_always j.header.tail block_size ≡ align_up_always j.disk_header.tail block_size
  pub logged : Logged j j.disk_header.tail j.disk_header.trans_ctr
  pub counted : j.disk_header.trans_ctr < 2 ^ 32

pub Logged-counted :
    {j : Journal} {off id : ℕ} → id < 2 ^ 32 → Logged j off id → j.header.trans_ctr < 2 ^ 32
Logged-counted h (ended at_tail same) = omega (arith, h, same)
Logged-counted h (entry l rest) = Logged-counted (omega arith) rest

pub write_header-IsSaved :
    (j : Journal)
    → j.header.head ≤ j.header.tail
    → j.header.trans_ctr < 2 ^ 32
    → IsSaved (write_header j)
unfolding write_header
write_header-IsSaved j ordered counted = record {
  head = refl;
  behind = ordered;
  same_block = refl;
  logged = ended refl refl;
  counted = counted;
}

inside-align_up :
    (off k n : ℕ)
    → off + k + n ≤ align_up_always off block_size
    → 0 < n
    → align_up_always (off + k) block_size ≡ align_up_always off block_size
unfolding align_up_always
inside-align_up off k n h pos = omega (arith, h, pos)

IsLogged-Keeps :
    (j j' : Journal) (low off esize id : ℕ)
    → Keeps j j' low
    → low ≤ off
    → j.header.tail ≤ j'.header.tail
    → IsLogged j off esize id
    → IsLogged j' off esize id
IsLogged-Keeps j j' low off esize id keeps above grows l = record {
  least = l.least;
  short = l.short;
  one_block = l.one_block;
  below = omega (arith, l.below, grows);
  size =
      keeps off 4 above (omega (arith, l.below, l.least)) (omega (arith, l.one_block, l.least))
      ∙ l.size;
  number =
      keeps (off + 4) 4 (omega (arith, above)) (omega (arith, l.below, l.least)) (
        omega (
          arith,
          l.one_block,
          l.least,
          inside-align_up off 4 4 (omega (arith, l.one_block, l.least)) (omega arith),
        ))
      ∙ l.number;
}

pub Logged-Keeps :
    {j j' : Journal} {low off id : ℕ} (esize : ℕ)
    → Keeps j j' low
    → low ≤ off
    → j.header.tail + esize ≡ j'.header.tail
    → (j.header.trans_ctr + 1) % 2 ^ 32 ≡ j'.header.trans_ctr
    → IsLogged j' j.header.tail esize j.header.trans_ctr
    → Logged j off id
    → Logged j' off id
Logged-Keeps {j} {j'} esize keeps above ends counted l (ended {off} {id} at_tail same) =
    entry
      (subst (λ o. IsLogged j' o esize id) (sym at_tail)
        (subst (λ i. IsLogged j' j.header.tail esize i) (sym same) l))
      (ended (omega (arith, at_tail, ends)) (ap (λ i. (i + 1) % 2 ^ 32) same ∙ counted))
Logged-Keeps {j} {j'} {low} {off} {id} esize keeps above ends counted l
      (entry {esize = esize'} l' rest) =
    entry (IsLogged-Keeps j j' low off esize' id keeps above (omega (arith, ends)) l')
      (Logged-Keeps esize keeps (omega (arith, above)) ends counted l rest)
