-- ===== src/Wire/Ensures.antt =====
-- What a computation ensures: of the value it returns, and of the exception it raises.
use cursus.Prelude.{◌≡◌, refl, subst, Bool, true, false, if◌then◌else◌}
use cursus.Wire.Outcome.{Error, Result, ok, raised, ◌>>=◌}

pub data Ensures {A : Type 0} (P : A → Type 0) (Q : Error → Type 0) : Result A → Type 0 where
  returns : {a : A} → P a → Ensures P Q (ok a)
  raises : {e : Error} → Q e → Ensures P Q (raised e)

module _ {A : Type 0} {P : A → Type 0} {Q : Error → Type 0} where
  pub Ensures-if :
      (b : Bool) {x y : Result A}
      → (b ≡ true → Ensures P Q x)
      → (b ≡ false → Ensures P Q y)
      → Ensures P Q (if b then x else y)
  Ensures-if true h k = h refl
  Ensures-if false h k = k refl

  pub Ensures-ok : {r : Result A} {a : A} → Ensures P Q r → r ≡ ok a → P a
  Ensures-ok (returns p) e = subst P (cc) p
  Ensures-ok (raises q) e = cc

  pub Ensures-raised : {r : Result A} {e : Error} → Ensures P Q r → r ≡ raised e → Q e
  Ensures-raised (returns p) e = cc
  Ensures-raised (raises q) e = subst Q (cc) q

  pub Ensures-bind :
      {B : Type 0} {P' : B → Type 0} {m : Result B} (f : B → Result A)
      → Ensures P' Q m
      → ((b : B) → P' b → Ensures P Q (f b))
      → Ensures P Q (m >>= f)
  Ensures-bind f (returns {a = b} p) k = k b p
  Ensures-bind f (raises q) k = raises q

  pub Ensures-weaken :
      {P' : A → Type 0} {r : Result A} → ((a : A) → P' a → P a) → Ensures P' Q r → Ensures P Q r
  Ensures-weaken f (returns {a = b} p) = returns (f b p)
  Ensures-weaken f (raises q) = raises q
