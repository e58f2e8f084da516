-- ===== src/Tests/Operations.antt =====
-- The theorems on operations of the front end at concrete inputs.
use fsyncer.Base.{not_found, panic, ℕ, true, false, List, [], ◌∷◌, some, ok, ◌≡◌, refl, arith}
use fsyncer.Common.{VfsCall}
use fsyncer.Host.{translate_and_stat}
use fsyncer.Bilog.{BilogEntry}
use fsyncer.Server.Connection.{Client}
use fsyncer.Host.{JournalType}
use fsyncer.Server.Ops.{JournalRecord, do_op, send_ops}
use fsyncer.Protocol.Journalled.{do_op-unlink, do_op-missing, AsksFor}
use fsyncer.FrontEnd.{write_call}
use fsyncer.FrontEnd.Diff.{Encodes, write_call-diff}
use fsyncer.Tests.Hosts.{empty_host, digest, root, a_file, old_host, old_stat}
use fsyncer.Tests.Stream.{identity, two_messages, fresh_client}

abbrev the_clients : List (Client ℕ)
the_clients = fresh_client ∷ []

abbrev nothing_arrives : List (Client ℕ) → List (Client ℕ)
nothing_arrives clients = clients

do_op-unlink_example :
    do_op identity two_messages digest nothing_arrives 0 the_clients
      (some JournalType.bilog)
      (VfsCall.unlink a_file)
      9
      root
      old_host
    ≡ ok (record {
      clients = (send_ops identity two_messages digest 0 the_clients (VfsCall.unlink a_file) 9).0;
      records = JournalRecord.bilog_record (BilogEntry.filestore a_file 0) ∷ [];
      ret = 0;
      called = false;
    })
unfolding translate_and_stat
do_op-unlink_example =
    do_op-unlink identity two_messages digest nothing_arrives 0 the_clients a_file 9 root old_host
      old_stat refl refl refl (omega arith)

do_op-missing_example :
    do_op identity two_messages digest nothing_arrives 0 the_clients
      (some JournalType.bilog)
      (VfsCall.chmod a_file 0o600)
      9
      root
      empty_host
    ≡ panic
unfolding translate_and_stat
do_op-missing_example =
    do_op-missing identity two_messages digest nothing_arrives 0 the_clients a_file
      (VfsCall.chmod a_file 0o600) 9 root empty_host not_found (AsksFor.chmod 0o600) refl

write_call-diff_example :
    Encodes a_file 4
      (1 ∷ 2 ∷ 3 ∷ [])
      (1 ∷ 5 ∷ [])
      (write_call true a_file 4 (1 ∷ 2 ∷ 3 ∷ []) (some (1 ∷ 5 ∷ [])))
write_call-diff_example =
    write_call-diff a_file 4 (1 ∷ 2 ∷ 3 ∷ []) 1 (5 ∷ []) (omega arith) (ground arith)
