-- ===== src/Wire/Keeps.antt =====
-- Predicates on an object that an action keeps, whether it returns or raises.
use cursus.Prelude.{Bool, true, false, if◌then◌else◌}
use cursus.Wire.Outcome.{Result, ok, raised}
use cursus.Wire.Exec.{Exec, lift, reads, proceed, ◌>>=◌}

pub record Keeps {S A : Type 0} (P : S → Type 0) (m : Exec S A) : Type 0 where
  pub at : (s : S) → P s → P (m s).1

module _ {S A : Type 0} {P : S → Type 0} where
  pub Keeps-lift : (r : Result A) → Keeps P (lift r)
  Keeps-lift r = record { at = λ s h. h }

  pub Keeps-reads : (f : S → Result A) → Keeps P (reads f)
  Keeps-reads f = record { at = λ s h. h }

  pub Keeps-if : (b : Bool) (m n : Exec S A) → Keeps P m → Keeps P n → Keeps P (if b then m else n)
  Keeps-if true m n k l = k
  Keeps-if false m n k l = l

module _ {S A B : Type 0} {P : S → Type 0} where
  Keeps-proceed :
      (r : Result A) (f : A → Exec S B) (s : S)
      → ((a : A) → Keeps P (f a))
      → P s
      → P (proceed r f s).1
  Keeps-proceed (ok a) f s k h = (k a).at s h
  Keeps-proceed (raised e) f s k h = h

  pub Keeps-bind :
      (m : Exec S A) (f : A → Exec S B) → Keeps P m → ((a : A) → Keeps P (f a)) → Keeps P (m >>= f)
  Keeps-bind m f k l = record { at = λ s h. Keeps-proceed (m s).0 f (m s).1 l (k.at s h) }

pub ruleset keeps_rules = (Keeps-lift, Keeps-reads, Keeps-if, Keeps-bind)
