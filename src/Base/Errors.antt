-- ===== src/Base/Errors.antt =====
-- Messages, errors and fallible results as values. A message is its format with the names, numbers
-- and errors that it quotes.
use Prim.Native.Nat.{ℕ}
use cluster_api_control_plan.Base.Int.{ℤ}
use Prim.Native.String.{String}
use mathlib.Core.Path.{◌≡◌, refl}
use mathlib.Core.Logic.{◌⊎◌, inl, inr}
use mathlib.Core.Option.{Option, none, some}

pub data Message : Type 0 where
  -- what a call outside this code answered
  external : String → Message
  -- a message that quotes a name
  about : String → String → Message
  -- a message that quotes a name and an error
  wrap : String → String → Message → Message
  -- a message that quotes numbers
  counts : String → ℕ → ℕ → ℕ → Message
  -- a message that quotes the desired replicas and the number of machines
  replicas_of : String → ℤ → ℕ → Message
  both : Message → Message → Message

abbrev pub Error : Type 0
Error = Message

-- A message that quotes nothing.
abbrev pub say : String → Message
say s = about s ""

-- `kerrors.NewAggregate` of two errors that may be nil.
abbrev pub aggregate : Option Error → Option Error → Option Error
aggregate none e = e
aggregate (some e) none = some e
aggregate (some e) (some f) = some (both e f)

pub data Result (A : Type 0) : Type 0 where
  ok : A → Result A
  err : Error → Result A

pub Result-cases :
    {A : Type 0} (r : Result A) → ((e : Error) × (r ≡ err e)) ⊎ ((a : A) × (r ≡ ok a))
Result-cases (err e) = inl (e, refl)
Result-cases (ok a) = inr (a, refl)

pub ok_inj : {A : Type 0} {a b : A} → ◌≡◌ {A = Result A} (ok a) (ok b) → a ≡ b
ok_inj h = cc

-- An error of a call, if there is one, with what was tried and on what.
abbrev pub wrap_error : String → String → Option Error → Option Error
wrap_error text name none = none
wrap_error text name (some e) = some (wrap text name e)
