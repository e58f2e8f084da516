-- ===== src/Tests/Hosts.antt =====
-- States of the backing store for the tests.
use fsyncer.Base.{
  ℕ, ◌+◌, ◌*◌, ◌%◌, ◌^◌, true, false, List, [], ◌∷◌, Outcome, ok, err, not_found, no_data,
}
use fsyncer.Common.Paths.{FilePath}
use fsyncer.Host.{Host, Stat, DirEntry}

-- A stand-in for the digest.
abbrev pub digest : List ℕ → ℕ
digest [] = 1
digest (b ∷ bs) = (b + 31 * digest bs) % 2 ^ 32

abbrev pub root : FilePath
root = record { is_absolute = true; components = (b's' ∷ []) ∷ [] }

abbrev pub a_file : FilePath
a_file = record { is_absolute = true; components = (b'f' ∷ []) ∷ [] }

abbrev pub a_target : FilePath
a_target = record { is_absolute = false; components = (b't' ∷ []) ∷ [] }

abbrev pub stat_of : ℕ → ℕ → ℕ → ℕ → Stat
stat_of mode uid nlink size = record {
  st_mode = mode;
  st_uid = uid;
  st_gid = 7;
  st_rdev = 5;
  st_size = size;
  st_nlink = nlink;
  st_ino = 11;
  st_atime = 100 + uid;
  st_atime_nsec = 1;
  st_mtime = 200;
  st_mtime_nsec = 2;
}

abbrev pub the_entry : DirEntry
the_entry = record { ino = 11; path = a_target }

-- A store that answers alike at each path.
abbrev pub host_of : Outcome Stat → List ℕ → Host
host_of st contents = record {
  lstat = λ p. st;
  read_link = λ p. ok a_target;
  open_file = λ p. ok contents;
  lgetxattr = λ p name. ok contents;
  walk_dir = λ p. ok the_entry ∷ [];
}

abbrev pub old_stat : Stat
old_stat = stat_of 0o100644 1000 1 4

abbrev pub new_stat : Stat
new_stat = stat_of 0o100600 1001 1 4

abbrev pub four_bytes : List ℕ
four_bytes = 1 ∷ 2 ∷ 3 ∷ 4 ∷ []

abbrev pub old_host : Host
old_host = host_of (ok old_stat) four_bytes

abbrev pub new_host : Host
new_host = host_of (ok new_stat) four_bytes

abbrev pub empty_host : Host
empty_host = record (host_of (err not_found) []) { lgetxattr = λ p name. err no_data }
