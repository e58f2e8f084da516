-- ===== src/Tests/Dispatching.antt =====
-- The theorems on calls that a client dispatches at concrete calls and systems.
use fsyncer.Base.{ℕ, suc, ◌≡◌, refl, ap, true, List, [], ◌∷◌, none, some, arith}
use fsyncer.Common.{VfsCall}
use fsyncer.Common.Paths.{FilePath, empty_path, translate_path}
use fsyncer.Kernel.{Answer, Program}
use fsyncer.Kernel.Roots.{place_program}
use fsyncer.Kernel.Running.{Answers, IsMirror}
use fsyncer.Dispatch.{dispatch}
use fsyncer.Dispatch.Same.{Opens, IsServed, dispatch-serve, dispatch-serve_file}
use fsyncer.Dispatch.Below.{place-dispatch}
use fsyncer.Dispatch.Reporting.{Reports}
use fsyncer.Dispatch.Codes.{dispatch-Reports}
use fsyncer.Dispatch.Copies.{run_all, server_programs, sent_calls, client_programs, run_all-copies}
use fsyncer.FrontEnd.Requests.{FuseContext, FuseFileInfo, NameRequest, FileRequest, serve}
use fsyncer.Tests.Hosts.{root, a_file, a_target}

abbrev pub client_root : FilePath
client_root = record { is_absolute = true; components = (b'c' ∷ []) ∷ [] }

abbrev pub user : FuseContext
user = record { uid = 1000; gid = 7 }

abbrev an_open_file : FuseFileInfo
an_open_file = record { flags = 2; fh = 5 }

dispatch-serve_example :
    dispatch (serve user root (NameRequest.chmod a_file 0o600 (some an_open_file))).call client_root
    ≡ (serve user client_root (NameRequest.chmod a_file 0o600 none)).carry
dispatch-serve_example =
    dispatch-serve user root client_root (NameRequest.chmod a_file 0o600 (some an_open_file))

dispatch-serve_file_example :
    (call : VfsCall) × ((carry : ℕ → Program ℕ) × (IsServed
          (FileRequest.fallocate a_file 0 0 9)
          call
          carry
        × Opens (translate_path a_file client_root) (dispatch call client_root) carry))
dispatch-serve_file_example = dispatch-serve_file client_root (FileRequest.fallocate a_file 0 0 9)

place-dispatch_example :
    place_program client_root (dispatch (VfsCall.unlink a_file) empty_path)
    ≡ dispatch (VfsCall.unlink a_file) client_root
place-dispatch_example = place-dispatch client_root (VfsCall.unlink a_file)

dispatch-Reports_example : Reports 13 (dispatch (VfsCall.write a_file 0 (1 ∷ [])) client_root)
dispatch-Reports_example =
    dispatch-Reports 13 (omega arith) (omega arith) (VfsCall.write a_file 0 (1 ∷ [])) client_root

-- A system that counts its calls, and answers each with 0.
abbrev pub counter : Answers ℕ
counter s n = (Answer.returned 0, suc n)

abbrev pub SameCount : ℕ → ℕ → Type 0
SameCount m n = m ≡ n

pub counter-IsMirror : IsMirror SameCount counter counter root client_root
counter-IsMirror = record { same = λ s m n e. (refl, ap suc e) }

abbrev pub two_requests : List NameRequest
two_requests = NameRequest.mkdir a_file 0o755 ∷ NameRequest.rename a_file a_target 0 ∷ []

run_all-copies_example :
    ((run_all counter (server_programs user root two_requests) 3).0
      ≡ (run_all counter (client_programs client_root (sent_calls user root two_requests)) 3).0)
    × SameCount
        (run_all counter (server_programs user root two_requests) 3).1
        (run_all counter (client_programs client_root (sent_calls user root two_requests)) 3).1
run_all-copies_example = run_all-copies counter-IsMirror user two_requests 3 3 refl
