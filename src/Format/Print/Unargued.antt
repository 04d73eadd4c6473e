-- ===== src/Format/Print/Unargued.antt =====
-- print without arguments.
use wrutil.Common.{ℕ}
use wrutil.Format.{Text, Error, Outcome, done, failed}
use wrutil.Format.Spec.Endings.{Ends}
use wrutil.Format.Targets.{Target}

-- The functions of a target give results.
record Sure {S : Type 0} (target : Target S) : Type 0 where
  put : (c : ℕ) (s : S) → Ends (λ (t : S). Unit) (target.put c s)
  put_text : (t : Text) (s : S) → Ends (λ (t : S). Unit) (target.put_text t s)
  finish : (s : S) → Ends (λ (t : S). Unit) (target.finish s)

-- A result or an error.
pub data Settles {A : Type 0} : Outcome A → Type 0 where
  by_result : {a : A} → Settles (done a)
  by_error : {e : Error} → Settles (failed e)
