-- ===== src/Cdb/Calls.antt =====
-- The object CDBMaker of cdbx/cdbmaker.c: its flags and pointers, and sequences of calls of its
-- methods. The calls of the file system and of Python are effects, which succeed; a failure of
-- `fsync`, of a file's `close`, of `close` or of the class of the reader is not modelled.
pub mod Phases
use cdbx.Base.{
  ℕ, Bool, true, false, not, ◌&&◌, ◌||◌, List, [], ◌∷◌, Option, none, some, if◌then◌else◌,
}
use cdbx.Cdb.Word.{Bytes}
use cdbx.Cdb.Maker.{Maker, Object, Outcome, ok, failed, Fault, closed, create, add}
use cdbx.Cdb.Commit.{commit}

-- What the constructor is given: a name, an open file, or a file descriptor.
pub data Target : Type 0 where
  by_name by_object by_descriptor : Target

-- `cdbmaker_t`: `maker32`, with the descriptor that it holds, whether `fp` and `filename` are set,
-- and the flags: FL_FP_OPENED, FL_DESTROY, FL_CLOSED, FL_COMMITTED, FL_ERROR, FL_FP_CLOSE and both
-- of FL_MMAP_SET and FL_MMAP_VAL.
pub record CdbMaker : Type 0 where
  pub maker32 : Option Maker
  pub fd : ℕ
  pub fp : Bool
  pub filename : Bool
  pub fp_opened : Bool
  pub destroy : Bool
  pub is_closed : Bool
  pub is_committed : Bool
  pub has_error : Bool
  pub fp_close : Bool
  pub mmap : Option Bool

abbrev pub is_name : Target → Bool
is_name by_name = true
is_name by_object = false
is_name by_descriptor = false

abbrev pub has_object : Target → Bool
has_object by_name = true
has_object by_object = true
has_object by_descriptor = false

-- `cdbx_maker_new`, with what `cdbx_obj_as_fd` finds: it opens a file that is given by its name.
abbrev pub new_maker : Target → ℕ → Bool → Option Bool → CdbMaker
new_maker target fd close mmap = record {
  maker32 = some create;
  fd = fd;
  fp = has_object target;
  filename = is_name target;
  fp_opened = is_name target;
  destroy = true;
  is_closed = false;
  is_committed = false;
  has_error = false;
  fp_close = close;
  mmap = mmap;
}

pub data Call : Type 0 where
  add_call : Object → Object → Call
  commit_call : Call
  close_call : Call
  fileno_call : Call

-- What a call does outside of the object: `fsync`, a reader of the new file, on which handle and
-- whether it closes that, the `close` of `fp`, that of the descriptor, and the removal of the file.
pub data Effect : Type 0 where
  sync : Effect
  reader : Target → Bool → Option Bool → Effect
  close_object : Effect
  close_descriptor : Effect
  unlink : Effect

-- What a call gives: nothing, the new database, whose file has these bytes, a descriptor, or an
-- exception; or the use of a maker that is destroyed.
pub data Answer : Type 0 where
  added : Answer
  committed : Bytes → Answer
  done : Answer
  number : ℕ → Answer
  raised : Fault → Answer
  crashed : Answer

-- `self->flags & (FL_CLOSED | FL_COMMITTED | FL_ERROR)`
unfoldable pub is_shut : CdbMaker → Bool
is_shut self = self.is_closed || self.is_committed || self.has_error

abbrev pub is_some : Option Maker → Bool
is_some none = false
is_some (some m) = true

-- `CDBMakerType_close`
unfoldable pub close_maker : CdbMaker → List Effect × CdbMaker
close_maker self =
    let rest = record self { is_closed = true; maker32 = none } in
    if self.fp
    then (if self.fp_opened || self.fp_close
        then (if self.destroy && self.filename
            then (close_object ∷ unlink ∷ [], record rest { fp = false; filename = false })
            else (close_object ∷ [], record rest { fp = false }))
        else ([], record rest { fp = false }))
    else (if is_some self.maker32 && self.fp_close
        then (close_descriptor ∷ [], rest)
        else ([], rest))

-- The reader that `CDBMakerType_commit` makes.
abbrev pub new_reader : CdbMaker → Effect
new_reader self =
    if self.filename
    then reader by_name true self.mmap
    else if self.fp
    then reader by_object self.fp_close self.mmap
    else reader by_descriptor self.fp_close self.mmap

abbrev pub Result : Type 0
Result = (Answer × List Effect) × CdbMaker

-- The end of `CDBMakerType_commit`, behind the guard.
unfoldable pub finish_commit : CdbMaker → Option Maker → Result
unfolding close_maker commit
finish_commit self none = ((crashed, []), self)
finish_commit self (some m) =
    let (effects, next) =
      close_maker
        (record self { is_committed = true; destroy = false; fp_close = self.filename }) in
    ((committed (commit m), sync ∷ new_reader self ∷ effects), next)

abbrev pub finish_add : CdbMaker → Outcome Maker → Result
finish_add self (ok m) = ((added, []), record self { maker32 = some m })
finish_add self (failed e) = ((raised e, []), record self { has_error = true })

-- The end of `CDBMakerType_add`, behind the guard.
unfoldable pub try_add : CdbMaker → Option Maker → Object → Object → Result
unfolding add
try_add self none key value = ((crashed, []), self)
try_add self (some m) key value = finish_add self (add m key value)

-- `CDBMakerType_add`, `CDBMakerType_commit`, `CDBMakerType_close` and `CDBMakerType_fileno`
unfoldable pub step : CdbMaker → Call → Result
unfolding is_shut try_add finish_commit close_maker
step self (add_call key value) =
    if is_shut self then ((raised closed, []), self) else try_add self self.maker32 key value
step self commit_call =
    if is_shut self then ((raised closed, []), self) else finish_commit self self.maker32
step self close_call = let (effects, next) = close_maker self in ((done, effects), next)
step self fileno_call =
    if self.is_closed
    then ((raised closed, []), self)
    else if is_some self.maker32
    then ((number self.fd, []), self)
    else ((crashed, []), self)

unfoldable pub run_calls : CdbMaker → List Call → List (Answer × List Effect)
unfolding step
run_calls self [] = []
run_calls self (c ∷ calls) = (step self c).0 ∷ run_calls (step self c).1 calls
