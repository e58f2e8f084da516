-- ===== src/Dispatch/Copies.antt =====
-- Replication: a server that serves requests of libfuse and a client that dispatches the calls.
use fsyncer.Base.{ℕ, ◌≡◌, refl, sym, ◌∙◌, ap, ap₂, subst, List, [], ◌∷◌, Outcome}
use fsyncer.Common.{VfsCall}
use fsyncer.Common.Paths.{FilePath, empty_path}
use fsyncer.Kernel.{Program}
use fsyncer.Kernel.Roots.{place_program}
use fsyncer.Kernel.Running.{Answers, IsMirror, run, run-place}
use fsyncer.Dispatch.{dispatch}
use fsyncer.Dispatch.Same.{by_name, dispatch-serve}
use fsyncer.Dispatch.Below.{place-dispatch}
use fsyncer.FrontEnd.Requests.{FuseContext, NameRequest, serve}

-- Programs run one after another: their results, and the last state.
abbrev pub run_all : {St A : Type 0} → Answers St → List (Program A) → St → List (Outcome A) × St
run_all answer [] st = ([], st)
run_all answer (p ∷ ps) st =
    let (result, st') = run answer p st in
    let (results, last) = run_all answer ps st' in (result ∷ results, last)

-- The programs of a server for requests by name, the calls that it sends, and those of a client.
abbrev pub server_programs : FuseContext → FilePath → List NameRequest → List (Program ℕ)
server_programs context server [] = []
server_programs context server (r ∷ rs) =
    (serve context server (by_name r)).carry ∷ server_programs context server rs

abbrev pub sent_calls : FuseContext → FilePath → List NameRequest → List VfsCall
sent_calls context server [] = []
sent_calls context server (r ∷ rs) = (serve context server r).call ∷ sent_calls context server rs

abbrev pub client_programs : FilePath → List VfsCall → List (Program ℕ)
client_programs root [] = []
client_programs root (call ∷ calls) = dispatch call root ∷ client_programs root calls

module _ {St St' : Type 0} {Copy : St → St' → Type 0} {answer : Answers St} {answer' : Answers St'}
    {server root : FilePath} (mirror : IsMirror Copy answer answer' server root)
    (context : FuseContext) where
  pub run-dispatch :
      (r : NameRequest) (st : St) (st' : St')
      → Copy st st'
      → ((run answer (serve context server (by_name r)).carry st).0
          ≡ (run answer' (dispatch (serve context server r).call root) st').0)
        × Copy
            (run answer (serve context server (by_name r)).carry st).1
            (run answer' (dispatch (serve context server r).call root) st').1
  run-dispatch r st st' copy =
      let call = (serve context server r).call in
      let p = dispatch call empty_path in
      let here = place-dispatch server call ∙ dispatch-serve context server server r in
      let there = place-dispatch root call in
      let (e, next) = run-place mirror p st st' copy in
      (
        ap (λ q. (run answer q st).0) (sym here) ∙ e ∙ ap (λ q. (run answer' q st').0) there,
        subst (λ q. Copy (run answer q st).1 (run answer' (dispatch call root) st').1) here
            (subst (λ q. Copy (run answer (place_program server p) st).1 (run answer' q st').1)
              there next),
      )

  -- A server and a client whose systems answer each call alike below their two roots stay
  -- copies: after any requests by name, served one after another by the server, and the server's
  -- calls dispatched in that order by the client, the results are the same and the two systems are
  -- copies again.
  pub run_all-copies :
      (rs : List NameRequest) (st : St) (st' : St')
      → Copy st st'
      → ((run_all answer (server_programs context server rs) st).0
          ≡ (run_all answer' (client_programs root (sent_calls context server rs)) st').0)
        × Copy
            (run_all answer (server_programs context server rs) st).1
            (run_all answer' (client_programs root (sent_calls context server rs)) st').1
  run_all-copies [] st st' copy = (refl, copy)
  run_all-copies (r ∷ rs) st st' copy =
      let (e, next) = run-dispatch r st st' copy in
      let (es, last) = run_all-copies rs _ _ next in (ap₂ (λ x xs. x ∷ xs) e es, last)
