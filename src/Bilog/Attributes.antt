-- ===== src/Bilog/Attributes.antt =====
-- Entries for changes of permissions, ownership and times, applied to the state that the call leaves
-- and to the one that it reaches.
use fsyncer.Base.{ℕ, List, ok, bit_xor_cancel, bit_xor_cancel_left, ◌≡◌, refl}
use fsyncer.Common.{VfsCall, Times, Timespec, unix, xor_timespec}
use fsyncer.Common.Paths.{FilePath}
use fsyncer.Host.{Host, Stat, translate_and_stat}
use fsyncer.Bilog.{try_from, apply, replay}
use fsyncer.Bilog.Digest.{check_redo, check_undo}
use fsyncer.Bilog.Chmod
use fsyncer.Bilog.Chown
use fsyncer.Bilog.Utimens
use fsyncer.Bilog.Utimens.{stat_times, zero_timespec, xor_times}

-- `translate_and_stat` finds `st` at `path`.
abbrev pub FindsStat : Host → FilePath → FilePath → Stat → Type 0
FindsStat host fspath path st = translate_and_stat path fspath host ≡ ok st

xor_timespec_cancel : (a b : Timespec) → xor_timespec (xor_timespec a b) b ≡ a
unfolding xor_timespec
xor_timespec_cancel a b = rw (bit_xor_cancel a.high b.high, bit_xor_cancel a.low b.low)

xor_timespec_cancel_left : (a b : Timespec) → xor_timespec (xor_timespec a b) a ≡ b
unfolding xor_timespec
xor_timespec_cancel_left a b =
    rw (bit_xor_cancel_left a.high b.high, bit_xor_cancel_left a.low b.low)

xor_times_cancel : (a b : Times) → xor_times (xor_times a b) b ≡ a
unfolding xor_times
xor_times_cancel a b = simp xor_timespec_cancel

xor_times_cancel_left : (a b : Times) → xor_times (xor_times a b) a ≡ b
unfolding xor_times
xor_times_cancel_left a b = simp xor_timespec_cancel_left

module _ (crc : List ℕ → ℕ) (fspath path : FilePath) (before after : Host) (st st' : Stat)
    (was : FindsStat before fspath path st) (is : FindsStat after fspath path st') where
  -- A chmod entry made where the file has the mode `st.st_mode` gives the call back in that state. In a
  -- state where the file has the mode of the call it gives the chmod to the old mode.
  replay-chmod :
      (mode : ℕ)
      → st'.st_mode ≡ mode
      → (replay crc (VfsCall.chmod path mode) fspath before before ≡ ok (VfsCall.chmod path mode))
        × (replay crc (VfsCall.chmod path mode) fspath before after
            ≡ ok (VfsCall.chmod path st.st_mode))
  unfolding try_from apply Chmod.new Chmod.old Chmod.xor Chmod.apply
  replay-chmod mode e = (
    rw was (rw (was, Chmod.old) (rw (bit_xor_cancel mode st.st_mode) (check_redo _ _ _))),
    rw was
        (rw (is, Chmod.old) (rw e (rw (bit_xor_cancel_left mode st.st_mode) (check_undo _ _ _)))),
  )

  -- A chown entry gives the call back in the state it was made in. In a state where the file has the
  -- owner and group of the call it gives the chown to the old owner and group.
  replay-chown :
      (uid gid : ℕ)
      → st'.st_uid ≡ uid
      → st'.st_gid ≡ gid
      → let call = VfsCall.security path (unix uid gid) in
        (replay crc call fspath before before ≡ ok call)
        × (replay crc call fspath before after
            ≡ ok (VfsCall.security path (unix st.st_uid st.st_gid)))
  unfolding try_from apply Chown.new Chown.old Chown.xor Chown.apply
  replay-chown uid gid e e' = (
    rw was (
        rw (was, Chown.old)
          (rw (bit_xor_cancel uid st.st_uid, bit_xor_cancel gid st.st_gid) (check_redo _ _ _))),
    rw was (
        rw (is, Chown.old)
          (rw (e, e', bit_xor_cancel_left uid st.st_uid, bit_xor_cancel_left gid st.st_gid)
            (check_undo _ _ _))),
  )

  -- A utimens entry gives the call back in the state it was made in. In a state where the file has the
  -- times of the call, whose third time is zero, it gives the utimens to the old times.
  replay-utimens :
      (times : Times)
      → stat_times st' ≡ times
      → let call = VfsCall.utimens path times in
        (replay crc call fspath before before ≡ ok call)
        × (replay crc call fspath before after ≡ ok (VfsCall.utimens path (stat_times st)))
  unfolding try_from apply Utimens.new Utimens.old Utimens.xor Utimens.apply
  replay-utimens times e = (
    rw was (rw (was, Utimens.old) (rw (xor_times_cancel times (stat_times st)) (check_redo _ _ _))),
    rw (← e) (
        rw was (
          rw (is, Utimens.old)
            (rw (xor_times_cancel_left (stat_times st') (stat_times st)) (check_undo _ _ _)))),
  )

  -- The entries for the chmod, the chown and the utimens that take a file from `st` to the mode, the
  -- owner and group, and the times of `st'` give the call back in the state they were made in. In a
  -- state where the file has what the call sets, they give the call that sets the old mode, the old
  -- owner and group, and the old times.
  pub replay-attributes :
      (let call = VfsCall.chmod path st'.st_mode in
        (replay crc call fspath before before ≡ ok call)
        × (replay crc call fspath before after ≡ ok (VfsCall.chmod path st.st_mode)))
      × ((let call = VfsCall.security path (unix st'.st_uid st'.st_gid) in
            (replay crc call fspath before before ≡ ok call)
            × (replay crc call fspath before after
                ≡ ok (VfsCall.security path (unix st.st_uid st.st_gid))))
          × (let call = VfsCall.utimens path (stat_times st') in
              (replay crc call fspath before before ≡ ok call)
              × (replay crc call fspath before after ≡ ok (VfsCall.utimens path (stat_times st)))))
  replay-attributes = (
    replay-chmod st'.st_mode refl,
    (replay-chown st'.st_uid st'.st_gid refl refl, replay-utimens (stat_times st') refl),
  )
