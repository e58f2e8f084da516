-- ===== src/Viewer.antt =====
-- fsyncd/src/journal/viewer.rs: the entries of a journal, filtered by the paths that they affect and
-- replayed on a backing store; and the entries of a forward journal, fsyncd/src/journal/forward.rs.
--
-- A regular expression is a parameter, with a panic where a path is no text. The entries are those
-- that the iterators give; what is printed is left out.
pub mod Paths
pub mod Replays
pub mod Journals
use fsyncer.Base.{
  ℕ, Bool, true, false, not, ◌&&◌, ◌||◌, List, [], ◌∷◌, Option, none, some, Outcome, ok, err, panic,
  ◌>>=◌, if◌then◌else◌,
}
use fsyncer.Common.{VfsCall}
use fsyncer.Common.Paths.{FilePath}
use fsyncer.Host.{Host, JournalType}
use fsyncer.Kernel.{Program}
use fsyncer.Kernel.Running.{Answers, run}
use fsyncer.Dispatch.{dispatch, is_negative}
use fsyncer.Bilog
use fsyncer.Bilog.{BilogEntry}

pub data EntryContent (T : Type 0) : Type 0 where
  payload : T → EntryContent T
  time : ℕ → EntryContent T

-- The trait, where `apply` asks the backing store as it is then.
pub record JournalEntry (T : Type 0) : Type 0 where
  pub affected_paths : T → List FilePath
  pub apply : T → FilePath → Host → Outcome VfsCall

-- The paths of a call, the entry of a forward journal.
unfoldable pub call_paths : VfsCall → List FilePath
call_paths (VfsCall.chmod path mode) = path ∷ []
call_paths (VfsCall.security path security) = path ∷ []
call_paths (VfsCall.utimens path timespec) = path ∷ []
call_paths (VfsCall.rename from to flags) = from ∷ to ∷ []
call_paths (VfsCall.mkdir path security mode) = path ∷ []
call_paths (VfsCall.rmdir path) = path ∷ []
call_paths (VfsCall.symlink from to security) = to ∷ []
call_paths (VfsCall.link from to security) = to ∷ []
call_paths (VfsCall.mknod path mode rdev security) = path ∷ []
call_paths (VfsCall.unlink path) = path ∷ []
call_paths (VfsCall.create path flags security mode) = path ∷ []
call_paths (VfsCall.truncate path size) = path ∷ []
call_paths (VfsCall.write path offset buf) = path ∷ []
call_paths (VfsCall.diff_write path offset buf) = path ∷ []
call_paths (VfsCall.fallocate path mode offset length) = path ∷ []
call_paths (VfsCall.setxattr path name value flags) = path ∷ []
call_paths (VfsCall.removexattr path name) = path ∷ []
call_paths (VfsCall.fsync path isdatasync) = path ∷ []
call_paths (VfsCall.truncating_write path offset buf length) = path ∷ []

abbrev pub forward_entry : JournalEntry VfsCall
forward_entry = record { affected_paths = call_paths; apply = λ call fspath host. ok call }

abbrev pub bilog_entry : (List ℕ → ℕ) → JournalEntry BilogEntry
bilog_entry crc = record { affected_paths = Bilog.affected_paths; apply = Bilog.apply crc }

-- `iter().any(..)`, which stops at the first match.
abbrev pub any : (FilePath → Outcome Bool) → List FilePath → Outcome Bool
any is_match [] = ok false
any is_match (p ∷ ps) = is_match p >>= λ found. if found then ok true else any is_match ps

abbrev pub accepts : Bool → Bool → Bool
accepts has_match inverse = (not has_match && inverse) || (has_match && not inverse)

-- Whether `filter_journal` lets an entry through.
unfoldable pub lets_through :
    {T : Type 0}
    → JournalEntry T
    → Option (FilePath → Outcome Bool)
    → Bool
    → EntryContent T
    → Outcome Bool
lets_through entry none inverse content = ok true
lets_through entry (some is_match) inverse (EntryContent.payload e) = do
  has_match ← any is_match (entry.affected_paths e)
  ok (accepts has_match inverse)
lets_through entry (some is_match) inverse (EntryContent.time t) = ok true

-- An operating system, and what it answers about the backing store.
module _ {St T : Type 0} (entry : JournalEntry T) (answer : Answers St) (look : St → Host)
    (path : FilePath) where
  -- The result of `dispatch`: a negative one panics.
  abbrev pub checked_result : Outcome ℕ × St → Outcome (Unit {0}) × St
  checked_result (ok res, st) = ((if is_negative res then panic else ok tt), st)
  checked_result (err kind, st) = (panic, st)
  checked_result (panic, st) = (panic, st)

  abbrev pub dispatched : Outcome VfsCall → St → Outcome (Unit {0}) × St
  dispatched (ok call) st = checked_result (run answer (dispatch call path) st)
  dispatched (err kind) st = (panic, st)
  dispatched panic st = (panic, st)

  -- The body of the loop of `replay`.
  unfoldable pub replay_entry : EntryContent T → St → Outcome (Unit {0}) × St
  replay_entry (EntryContent.payload e) st = dispatched (entry.apply e path (look st)) st
  replay_entry (EntryContent.time t) st = (ok tt, st)

  abbrev pub then_rest :
      (St → Outcome (Unit {0}) × St) → Outcome (Unit {0}) × St → Outcome (Unit {0}) × St
  then_rest rest (ok done, st) = rest st
  then_rest rest (err kind, st) = (err kind, st)
  then_rest rest (panic, st) = (panic, st)

  abbrev pub if_through :
      (St → Outcome (Unit {0}) × St) → EntryContent T → Outcome Bool → St → Outcome (Unit {0}) × St
  if_through rest content (ok true) st = then_rest rest (replay_entry content st)
  if_through rest content (ok false) st = rest st
  if_through rest content (err kind) st = (panic, st)
  if_through rest content panic st = (panic, st)

  unfoldable pub replay :
      Option (FilePath → Outcome Bool) → Bool → List (EntryContent T) → St → Outcome (Unit {0}) × St
  replay filter inverse [] st = (ok tt, st)
  replay filter inverse (content ∷ contents) st =
      if_through (replay filter inverse contents) content
        (lets_through entry filter inverse content) st

-- What `viewer_main` does for a type of journal and a direction.
pub data Action : Type 0 where
  forward_calls bilog_entries nothing : Action

unfoldable pub replay_action : JournalType → Bool → Outcome Action
replay_action JournalType.forward reverse = if reverse then panic else ok Action.forward_calls
replay_action JournalType.undo reverse = if reverse then ok Action.nothing else panic
replay_action JournalType.bilog reverse = ok Action.bilog_entries
replay_action JournalType.invalid reverse = panic

unfoldable pub view_action : JournalType → Bool → Outcome Action
view_action JournalType.forward reverse = ok Action.forward_calls
view_action JournalType.undo reverse = ok Action.nothing
view_action JournalType.bilog reverse = ok Action.bilog_entries
view_action JournalType.invalid reverse = panic
