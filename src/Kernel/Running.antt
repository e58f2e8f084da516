-- ===== src/Kernel/Running.antt =====
-- Programs of system calls on an operating system, and two systems that are copies of each other
-- below two roots.
use fsyncer.Base.{◌≡◌, refl, ap, subst, ◌∙◌, Outcome, ok, panic}
use fsyncer.Common.Paths.{FilePath}
use fsyncer.Kernel.{SysCall, Answer, Program}
use fsyncer.Kernel.Roots.{place, place_program}

-- An operating system with the states `St`.
abbrev pub Answers : Type 0 → Type 0
Answers St = SysCall → St → Answer × St

abbrev pub run : {St A : Type 0} → Answers St → Program A → St → Outcome A × St
run answer (Program.done a) st = (ok a, st)
run answer (Program.call s k) st = let (result, st') = answer s st in run answer (k result) st'
run answer Program.panicked st = (panic, st)

-- Below `root` and below `root'` the two systems answer each call alike, and stay copies.
pub record IsMirror {St St' : Type 0} (Copy : St → St' → Type 0) (answer : Answers St)
    (answer' : Answers St') (root root' : FilePath) : Type 0 where
  pub same :
      (s : SysCall) (st : St) (st' : St')
      → Copy st st'
      → ((answer (place root s) st).0 ≡ (answer' (place root' s) st').0)
        × Copy (answer (place root s) st).1 (answer' (place root' s) st').1

module _ {St St' : Type 0} {Copy : St → St' → Type 0} {answer : Answers St} {answer' : Answers St'}
    {root root' : FilePath} (mirror : IsMirror Copy answer answer' root root') where
  pub run-place :
      {A : Type 0} (p : Program A) (st : St) (st' : St')
      → Copy st st'
      → ((run answer (place_program root p) st).0 ≡ (run answer' (place_program root' p) st').0)
        × Copy (run answer (place_program root p) st).1 (run answer' (place_program root' p) st').1
  run-place (Program.done a) st st' copy = (refl, copy)
  run-place (Program.call s k) st st' copy =
      let r = answer (place root s) st in
      let r' = answer' (place root' s) st' in
      let (e, next) = mirror.same s st st' copy in
      let (e', last) = run-place (k r.0) r.1 r'.1 next in
      (
        e' ∙ ap (λ a. (run answer' (place_program root' (k a)) r'.1).0) e,
        subst
            (λ a.
              Copy (run answer (place_program root (k r.0)) r.1).1
                (run answer' (place_program root' (k a)) r'.1).1)
            e last,
      )
  run-place Program.panicked st st' copy = (refl, copy)
