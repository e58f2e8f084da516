-- ===== src/Viewer/Replays.antt =====
-- The replay of a forward journal by fsyncd/src/journal/viewer.rs, on a copy of the backing store of
-- the server that wrote it.
use fsyncer.Base.{
  ℕ, ◌≡◌, refl, sym, ◌∙◌, ap, subst, false, List, [], ◌∷◌, none, Outcome, ok, err, panic,
  if◌then◌else◌, Bool-cases, inl, inr, arith,
}
use fsyncer.Common.{VfsCall}
use fsyncer.Common.Paths.{FilePath}
use fsyncer.Host.{Host}
use fsyncer.Kernel.Running.{Answers, IsMirror, run}
use fsyncer.Dispatch.{dispatch, is_negative}
use fsyncer.Dispatch.Same.{by_name}
use fsyncer.Dispatch.Copies.{run_all, server_programs, sent_calls, run-dispatch}
use fsyncer.FrontEnd.Requests.{FuseContext, NameRequest, serve}
use fsyncer.Viewer.{
  EntryContent, forward_entry, checked_result, then_rest, replay, replay_entry, lets_through,
}

-- The entries that are not times.
abbrev pub payloads : {T : Type 0} → List (EntryContent T) → List T
payloads [] = []
payloads (EntryContent.payload e ∷ contents) = e ∷ payloads contents
payloads (EntryContent.time t ∷ contents) = payloads contents

abbrev continue : Outcome ℕ → Outcome (Unit {0}) → Outcome (Unit {0})
continue (ok res) rest = if is_negative res then panic else rest
continue (err kind) rest = panic
continue panic rest = panic

-- The end of a run in which the first result that `replay` checks for panics: a negative one. The
-- result 1 of a rename that fails passes.
abbrev pub verdict : List (Outcome ℕ) → Outcome (Unit {0})
verdict [] = ok tt
verdict (result ∷ results) = continue result (verdict results)

continue-ok : (o : Outcome ℕ) (v : Outcome (Unit {0})) → continue o v ≡ ok tt → v ≡ ok tt
continue-ok (ok res) v h = ground (arith, h)
continue-ok (err kind) v h = absurd (cc)
continue-ok panic v h = absurd (cc)

module _ {St St' : Type 0} {Copy : St → St' → Type 0} {answer : Answers St} {answer' : Answers St'}
    {server root : FilePath} (mirror : IsMirror Copy answer answer' server root)
    (context : FuseContext) (look : St' → Host) where
  abbrev replayed : List (EntryContent VfsCall) → St' → Outcome (Unit {0}) × St'
  replayed contents st' = replay forward_entry answer' look root none false contents st'

  abbrev after_result : Outcome ℕ × St' → List (EntryContent VfsCall) → Outcome (Unit {0}) × St'
  after_result result contents =
      then_rest forward_entry answer' look root (replayed contents)
        (checked_result forward_entry answer' look root result)

  after_result-continue :
      (result : Outcome ℕ × St') (contents : List (EntryContent VfsCall))
      → (after_result result contents).0 ≡ continue result.0 (replayed contents result.1).0
  after_result-continue (ok res, st) contents = elim (Bool-cases (is_negative res)) [
    | inl negative ↦ rw negative refl
    | inr success ↦ rw success refl
  ]
  after_result-continue (err kind, st) contents = refl
  after_result-continue (panic, st) contents = refl

  after_result-state :
      (result : Outcome ℕ × St') (contents : List (EntryContent VfsCall)) (v : Outcome (Unit {0}))
      → continue result.0 v ≡ ok tt
      → (after_result result contents).1 ≡ (replayed contents result.1).1
  after_result-state (ok res, st) contents v h = elim (Bool-cases (is_negative res)) [
    | inl negative ↦ absurd (ground (arith, h, negative))
    | inr success ↦ rw success refl
  ]
  after_result-state (err kind, st) contents v h = absurd (cc)
  after_result-state (panic, st) contents v h = absurd (cc)

  abbrev results : List NameRequest → St → List (Outcome ℕ)
  results rs st = (run_all answer (server_programs context server rs) st).0

  abbrev final : List NameRequest → St → St
  final rs st = (run_all answer (server_programs context server rs) st).1

  -- The replay ends as the results say, and if none has failed in a copy.
  Replays : List NameRequest → List (EntryContent VfsCall) → St → St' → Type 0
  Replays rs contents st st' =
      ((replayed contents st').0 ≡ verdict (results rs st))
      × (verdict (results rs st) ≡ ok tt → Copy (final rs st) (replayed contents st').1)

  replay-Replays_step :
      (r : NameRequest) (rs : List NameRequest) (contents : List (EntryContent VfsCall)) (st : St)
      (st' : St')
      → (let served = run answer (serve context server (by_name r)).carry st in
          let made = run answer' (dispatch (serve context server r).call root) st' in
          served.0 ≡ made.0)
      → (let served = run answer (serve context server (by_name r)).carry st in
          let made = run answer' (dispatch (serve context server r).call root) st' in
          Replays rs contents served.1 made.1)
      → Replays (r ∷ rs) (EntryContent.payload (serve context server r).call ∷ contents) st st'
  unfolding Replays replay replay_entry lets_through
  replay-Replays_step r rs contents st st' same ih =
      let served = run answer (serve context server (by_name r)).carry st in
      let made = run answer' (dispatch (serve context server r).call root) st' in
      (
        after_result-continue made contents
            ∙ ap (λ o. continue o (replayed contents made.1).0) (sym same)
            ∙ ap (λ v. continue served.0 v) ih.0,
        λ all.
            subst (λ s. Copy (final rs served.1) s)
              (sym (
                after_result-state made contents (verdict (results rs served.1))
                  (subst (λ o. continue o (verdict (results rs served.1)) ≡ ok tt) same all)))
              (ih.1 (continue-ok served.0 (verdict (results rs served.1)) all)),
      )

  replay-Replays :
      (rs : List NameRequest) (contents : List (EntryContent VfsCall)) (st : St) (st' : St')
      → payloads contents ≡ sent_calls context server rs
      → Copy st st'
      → Replays rs contents st st'
  unfolding Replays replay replay_entry lets_through
  replay-Replays [] [] st st' h copy = (refl, λ all. copy)
  replay-Replays (r ∷ rs) [] st st' h copy = absurd (cc)
  replay-Replays rs (EntryContent.time t ∷ contents) st st' h copy =
      replay-Replays rs contents st st' h copy
  replay-Replays [] (EntryContent.payload e ∷ contents) st st' h copy = absurd (cc)
  replay-Replays (r ∷ rs) (EntryContent.payload e ∷ contents) st st' h copy =
      let call : VfsCall = (serve context server r).call in
      let first : e ≡ call = cc in
      let later : payloads contents ≡ sent_calls context server rs = cc in
      let (same, next) = run-dispatch mirror context r st st' copy in
      subst (λ c. Replays (r ∷ rs) (EntryContent.payload c ∷ contents) st st') (sym first)
        (replay-Replays_step r rs contents st st' same (replay-Replays rs contents _ _ later next))

  -- A server serves requests by name, and a forward journal holds its calls in order, with times
  -- between them. Where the server's system and another are copies below their two roots, replaying
  -- the journal on the other without a filter ends well where the result of no request on the server
  -- is negative, and panics where one is negative, an error or a panic. A rename that fails does not
  -- count: its result is 1.
  pub replay-verdict :
      (rs : List NameRequest) (contents : List (EntryContent VfsCall)) (st : St) (st' : St')
      → payloads contents ≡ sent_calls context server rs
      → Copy st st'
      → (replay forward_entry answer' look root none false contents st').0
        ≡ verdict (run_all answer (server_programs context server rs) st).0
  unfolding Replays
  replay-verdict rs contents st st' h copy = (replay-Replays rs contents st st' h copy).0

  -- And where no result is negative, an error or a panic, the two systems are copies again.
  pub replay-copies :
      (rs : List NameRequest) (contents : List (EntryContent VfsCall)) (st : St) (st' : St')
      → payloads contents ≡ sent_calls context server rs
      → Copy st st'
      → verdict (run_all answer (server_programs context server rs) st).0 ≡ ok tt
      → Copy
          (run_all answer (server_programs context server rs) st).1
          (replay forward_entry answer' look root none false contents st').1
  unfolding Replays
  replay-copies rs contents st st' h copy all = (replay-Replays rs contents st st' h copy).1 all
