-- ===== src/Cdb/Calls/Phases.antt =====
-- What the methods of a CDBMaker promise, in three phases, and that its flags and pointers keep it.
use mathlib.Core.Path.{subst}
use cdbx.Base.{
  sym, ℕ, ◌≡◌, refl, Bool, true, false, List, [], ◌∷◌, Option, none, some, if◌then◌else◌,
}
use cdbx.Cdb.Maker.{Maker, Outcome, ok, failed, closed, create, add}
use cdbx.Cdb.Commit.{commit}
use cdbx.Cdb.Calls.{
  Target, by_name, by_object, by_descriptor, CdbMaker, is_name, new_maker, Call, add_call,
  commit_call, close_call, fileno_call, Effect, sync, reader, close_object, close_descriptor,
  unlink, Answer, added, committed, done, number, raised, finish_add, step, run_calls,
}

-- A maker takes records, or an addition has failed, or it is over after a commit or a close.
pub data Phase : Type 0 where
  working : Maker → Phase
  broken : Phase
  over : Phase

module _ (target : Target) (fd : ℕ) (close : Bool) (mmap : Option Bool) where
  -- A close that comes before a commit closes what the maker has opened or was asked to close, and
  -- removes the file that it has created.
  abbrev pub give_up : Target → List Effect
  give_up by_name = close_object ∷ unlink ∷ []
  give_up by_object = if close then close_object ∷ [] else []
  give_up by_descriptor = if close then close_descriptor ∷ [] else []

  -- A commit writes the file through and hands it to a reader, which then closes it in the maker's
  -- place; a file that is known by its name is opened again, and closed by the maker. It is never
  -- removed.
  abbrev pub hand_over : Target → List Effect
  hand_over by_name = sync ∷ reader by_name true mmap ∷ close_object ∷ []
  hand_over by_object = sync ∷ reader by_object close mmap ∷ []
  hand_over by_descriptor = sync ∷ reader by_descriptor close mmap ∷ []

  abbrev pub Promise : Type 0
  Promise = (Answer × List Effect) × Phase

  abbrev pub after_add : Outcome Maker → Promise
  after_add (ok m) = ((added, []), working m)
  after_add (failed e) = ((raised e, []), broken)

  -- What a call gives and does, and the next phase.
  abbrev pub promise : Phase → Call → Promise
  promise (working m) (add_call key value) = after_add (add m key value)
  promise (working m) commit_call = ((committed (commit m), hand_over target), over)
  promise (working m) close_call = ((done, give_up target), over)
  promise (working m) fileno_call = ((number fd, []), working m)
  promise broken (add_call key value) = ((raised closed, []), broken)
  promise broken commit_call = ((raised closed, []), broken)
  promise broken close_call = ((done, give_up target), over)
  promise broken fileno_call = ((number fd, []), broken)
  promise over (add_call key value) = ((raised closed, []), over)
  promise over commit_call = ((raised closed, []), over)
  promise over close_call = ((done, []), over)
  promise over fileno_call = ((raised closed, []), over)

  abbrev pub promised : Phase → List Call → List (Answer × List Effect)
  promised p [] = []
  promised p (c ∷ calls) = (promise p c).0 ∷ promised (promise p c).1 calls

  -- The object while it is not closed.
  abbrev alive : Maker → Bool → CdbMaker
  alive m failed_once = record (new_maker target fd close mmap) {
    maker32 = some m;
    has_error = failed_once;
  }

  -- The object behind a close: no maker and no file, whatever the other flags are.
  abbrev dead : (filename destroy is_committed has_error fp_close : Bool) → CdbMaker
  dead filename destroy is_committed has_error fp_close = record {
    maker32 = none;
    fd = fd;
    fp = false;
    filename = filename;
    fp_opened = is_name target;
    destroy = destroy;
    is_closed = true;
    is_committed = is_committed;
    has_error = has_error;
    fp_close = fp_close;
    mmap = mmap;
  }

  -- The object in a phase.
  abbrev Represents : CdbMaker → Phase → Type 0
  Represents self (working m) = self ≡ alive m false
  Represents self broken = (m : Maker) × (self ≡ alive m true)
  Represents self over =
      (f : Bool) × ((d : Bool) × ((c : Bool) × ((e : Bool) × ((g : Bool) × (self
                ≡ dead f d c e g)))))

  abbrev Keeps : (Answer × List Effect) × CdbMaker → Promise → Type 0
  Keeps result p = (result.0 ≡ p.0) × Represents result.1 p.1

  finish_add-Keeps :
      (m : Maker) (o : Outcome Maker) → Keeps (finish_add (alive m false) o) (after_add o)
  finish_add-Keeps m (ok n) = (refl, refl)
  finish_add-Keeps m (failed e) = (refl, (m, refl))

  step_over :
      (f d c e g : Bool) (call : Call) → Keeps (step (dead f d c e g) call) (promise over call)
  unfolding step
  step_over f d c e g (add_call key value) = (refl, (f, (d, (c, (e, (g, refl))))))
  step_over f d c e g commit_call = (refl, (f, (d, (c, (e, (g, refl))))))
  step_over f d c e g close_call = (refl, (f, (d, (c, (e, (g, refl))))))
  step_over f d c e g fileno_call = (refl, (f, (d, (c, (e, (g, refl))))))

close-Keeps :
    (target : Target) (fd : ℕ) (close : Bool) (mmap : Option Bool) (m : Maker) (e : Bool)
    → Keeps target fd close mmap
        (step (alive target fd close mmap m e) close_call)
        ((done, give_up target fd close mmap target), over)
unfolding step
close-Keeps by_name fd close mmap m e = (refl, (false, (true, (false, (e, (close, refl))))))
close-Keeps by_object fd true mmap m e = (refl, (false, (true, (false, (e, (true, refl))))))
close-Keeps by_object fd false mmap m e = (refl, (false, (true, (false, (e, (false, refl))))))
close-Keeps by_descriptor fd true mmap m e = (refl, (false, (true, (false, (e, (true, refl))))))
close-Keeps by_descriptor fd false mmap m e = (refl, (false, (true, (false, (e, (false, refl))))))

commit-Keeps :
    (target : Target) (fd : ℕ) (close : Bool) (mmap : Option Bool) (m : Maker)
    → Keeps target fd close mmap
        (step (alive target fd close mmap m false) commit_call)
        ((committed (commit m), hand_over target fd close mmap target), over)
unfolding step
commit-Keeps by_name fd close mmap m = (refl, (true, (false, (true, (false, (true, refl))))))
commit-Keeps by_object fd close mmap m = (refl, (false, (false, (true, (false, (false, refl))))))
commit-Keeps by_descriptor fd close mmap m =
    (refl, (false, (false, (true, (false, (false, refl))))))

module _ (target : Target) (fd : ℕ) (close : Bool) (mmap : Option Bool) where
  abbrev KeepsAll : CdbMaker → Phase → Call → Type 0
  KeepsAll self p c = Keeps target fd close mmap (step self c) (promise target fd close mmap p c)

  step_working :
      (m : Maker) (c : Call) → KeepsAll (alive target fd close mmap m false) (working m) c
  unfolding step
  step_working m (add_call key value) = finish_add-Keeps target fd close mmap m (add m key value)
  step_working m commit_call = commit-Keeps target fd close mmap m
  step_working m close_call = close-Keeps target fd close mmap m false
  step_working m fileno_call = (refl, refl)

  step_broken : (m : Maker) (c : Call) → KeepsAll (alive target fd close mmap m true) broken c
  unfolding step
  step_broken m (add_call key value) = (refl, (m, refl))
  step_broken m commit_call = (refl, (m, refl))
  step_broken m close_call = close-Keeps target fd close mmap m true
  step_broken m fileno_call = (refl, (m, refl))

  step-Keeps :
      (self : CdbMaker) (p : Phase) (c : Call)
      → Represents target fd close mmap self p
      → KeepsAll self p c
  step-Keeps self (working m) c h = subst (λ s. KeepsAll s (working m) c) (sym h) (step_working m c)
  step-Keeps self broken c (m, h) = subst (λ s. KeepsAll s broken c) (sym h) (step_broken m c)
  step-Keeps self over call (f, (d, (c, (e, (g, h))))) =
      subst (λ s. KeepsAll s over call) (sym h) (step_over target fd close mmap f d c e g call)

  run_calls-promise :
      (self : CdbMaker) (p : Phase) (calls : List Call)
      → Represents target fd close mmap self p
      → run_calls self calls ≡ promised target fd close mmap p calls
  unfolding run_calls
  run_calls-promise self p [] h = refl
  run_calls-promise self p (c ∷ calls) h =
      let (answer, later) = step-Keeps self p c h in
      rw
        (answer, run_calls-promise (step self c).1 (promise target fd close mmap p c).1 calls later)
        refl

  -- The calls of a new maker give what the phases promise, in any order: records are taken until an
  -- addition fails, a commit or a close; behind a failure nothing is added or committed, but the
  -- descriptor is known and a close still cleans up; behind a commit or a close nothing has an
  -- effect. A file that the maker has created is removed by a close, but not if it is committed, and
  -- no call uses a destroyed maker.
  pub run_calls-promised :
      (calls : List Call)
      → run_calls (new_maker target fd close mmap) calls
        ≡ promised target fd close mmap (working create) calls
  run_calls-promised calls =
      run_calls-promise (new_maker target fd close mmap) (working create) calls refl
