-- ===== src/Tests/Replay.antt =====
-- The theorems on entries of the bidirectional journal at concrete states of the backing store.
use fsyncer.Base.{ℕ, List, [], ◌∷◌, ok, err, unexpected_eof, other, ◌≡◌, refl, arith}
use fsyncer.Common.{VfsCall, unix}
use fsyncer.Common.Words.{le_bytes}
use fsyncer.Common.Paths.{translate_path}
use fsyncer.Host.{Host, Stat, translate_and_stat, find_hardlink}
use fsyncer.Bilog.{replay}
use fsyncer.Bilog.Attributes.{replay-attributes}
use fsyncer.Bilog.Utimens.{stat_times}
use fsyncer.Bilog.Names.{replay-Made, replay-rmdir, replay-removed, IsMade, IsRemade}
use fsyncer.Bilog.Sizes.{HoldsFile, replay-shrink}
use fsyncer.Bilog.Writes.{replay-write}
use fsyncer.Bilog.Values.{replay-xattr, IsChanged}
use fsyncer.Tests.Hosts.{
  digest, root, a_file, a_target, stat_of, host_of, old_stat, new_stat, four_bytes, old_host,
  new_host, empty_host,
}

abbrev dir_stat : Stat
dir_stat = stat_of 0o040755 0 2 4096

abbrev dir_host : Host
dir_host = host_of (ok dir_stat) []

replay-rmdir_example :
    (replay digest (VfsCall.rmdir a_file) root dir_host dir_host ≡ ok (VfsCall.rmdir a_file))
    × (replay digest (VfsCall.rmdir a_file) root dir_host empty_host
        ≡ ok (VfsCall.mkdir a_file (unix 0 7) 0o040755))
unfolding translate_and_stat
replay-rmdir_example = replay-rmdir digest root a_file dir_host empty_host dir_stat refl refl

abbrev twice_stat : Stat
twice_stat = stat_of 0o100644 0 2 4

abbrev twice_host : Host
twice_host = host_of (ok twice_stat) four_bytes

abbrev empty_file : Stat
empty_file = stat_of 0o100644 3 1 0

abbrev two_bytes : List ℕ
two_bytes = 1 ∷ 2 ∷ []

old_HoldsFile : HoldsFile old_host root a_file four_bytes old_stat
unfolding translate_and_stat
old_HoldsFile = record { found = refl; opens = refl; size = refl; fits = omega arith }

abbrev short_stat : Stat
short_stat = stat_of 0o100644 1000 1 2

abbrev short_host : Host
short_host = host_of (ok short_stat) two_bytes

short_HoldsFile : HoldsFile short_host root a_file two_bytes short_stat
unfolding translate_and_stat
short_HoldsFile = record { found = refl; opens = refl; size = refl; fits = omega arith }

replay-shrink_example :
    (replay digest (VfsCall.truncate a_file 2) root old_host old_host
      ≡ ok (VfsCall.truncate a_file 2))
    × (replay digest (VfsCall.truncate a_file 2) root old_host short_host ≡ err unexpected_eof)
replay-shrink_example = replay-shrink digest old_HoldsFile short_HoldsFile 2 (omega arith) refl

replay-write_example :
    replay digest (VfsCall.write a_file 2 two_bytes) root old_host old_host ≡ err other
unfolding le_bytes
replay-write_example =
    replay-write digest root a_file old_host four_bytes 2 two_bytes refl (omega arith) (omega arith)

abbrev written_host : Host
written_host = host_of (ok old_stat) (1 ∷ 2 ∷ 1 ∷ 2 ∷ [])

abbrev a_name : List ℕ
a_name = b'n' ∷ []

abbrev other_bytes : List ℕ
other_bytes = 9 ∷ 8 ∷ []

abbrev changed_host : Host
changed_host = host_of (ok short_stat) other_bytes

replay-attributes_example :
    (let call = VfsCall.chmod a_file new_stat.st_mode in
      (replay digest call root old_host old_host ≡ ok call)
      × (replay digest call root old_host new_host ≡ ok (VfsCall.chmod a_file 0o100644)))
    × ((let call = VfsCall.security a_file (unix new_stat.st_uid new_stat.st_gid) in
          (replay digest call root old_host old_host ≡ ok call)
          × (replay digest call root old_host new_host
              ≡ ok (VfsCall.security a_file (unix 1000 7))))
        × (let call = VfsCall.utimens a_file (stat_times new_stat) in
            (replay digest call root old_host old_host ≡ ok call)
            × (replay digest call root old_host new_host
                ≡ ok (VfsCall.utimens a_file (stat_times old_stat)))))
unfolding translate_and_stat
replay-attributes_example =
    replay-attributes digest root a_file old_host new_host old_stat new_stat refl refl

-- A file with two links, of which the walk finds the one at the path that is asked for.
abbrev twice_walked : Host
twice_walked = record twice_host {
  read_link = λ p. err other;
  walk_dir = λ p. ok (record { ino = 11; path = translate_path a_file root }) ∷ [];
}

replay-Made_example :
    (replay digest (VfsCall.link a_target a_file (unix 1 2)) root empty_host empty_host
      ≡ ok (VfsCall.link a_target a_file (unix 1 2)))
    × (replay digest (VfsCall.link a_target a_file (unix 1 2)) root empty_host twice_walked
        ≡ ok (VfsCall.unlink a_file))
unfolding translate_and_stat find_hardlink
replay-Made_example =
    replay-Made digest root a_file twice_walked empty_host twice_stat refl refl empty_host
      (VfsCall.link a_target a_file (unix 1 2)) (VfsCall.link a_target a_file (unix 1 2))
      (VfsCall.unlink a_file) (IsMade.link 1 2 a_target (translate_path a_file root) refl)

-- The link that the entry gives is from the removed path itself, with the store's path in front.
replay-removed_example :
    (replay digest (VfsCall.unlink a_file) root twice_walked empty_host
      ≡ ok (VfsCall.link (translate_path a_file root) a_file (unix 0 7)))
    × (replay digest (VfsCall.unlink a_file) root twice_walked twice_walked
        ≡ ok (VfsCall.unlink a_file))
unfolding translate_and_stat find_hardlink
replay-removed_example =
    replay-removed digest root a_file twice_walked empty_host twice_stat refl refl
      (VfsCall.link (translate_path a_file root) a_file (unix 0 7))
      (IsRemade.link (translate_path a_file root) refl (omega arith) refl)

replay-xattr_example :
    (replay digest (VfsCall.setxattr a_file a_name other_bytes 1) root short_host short_host
      ≡ ok (VfsCall.setxattr a_file a_name other_bytes 0))
    × (replay digest (VfsCall.setxattr a_file a_name other_bytes 1) root short_host changed_host
        ≡ ok (VfsCall.setxattr a_file a_name two_bytes 0))
replay-xattr_example =
    replay-xattr digest root a_file a_name short_host changed_host
      (VfsCall.setxattr a_file a_name other_bytes 1) (VfsCall.setxattr a_file a_name other_bytes 0)
      (VfsCall.setxattr a_file a_name two_bytes 0)
      (IsChanged.changed two_bytes other_bytes 1 refl refl refl)
