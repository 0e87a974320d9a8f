-- ===== src/Wire/Exec.antt =====
-- Methods that change an object and may raise: what was written before the exception stays.
use cursus.Wire.Outcome.{Result, ok, raised}

abbrev pub Exec {ℓ} : Type ℓ → Type ℓ → Type ℓ
Exec S A = S → Result A × S

module _ {ℓ} {S A : Type ℓ} where
  -- A computation that reads and writes nothing of the object.
  abbrev pub lift : Result A → Exec S A
  lift r s = (r, s)

  abbrev pub reads : (S → Result A) → Exec S A
  reads f s = (f s, s)

module _ {ℓ} {S A B : Type ℓ} where
  abbrev pub proceed : Result A → (A → Exec S B) → Exec S B
  proceed (ok a) f s = f a s
  proceed (raised e) f s = (raised e, s)

  infixl 5 ◌>>=◌
  abbrev pub ◌>>=◌ : Exec S A → (A → Exec S B) → Exec S B
  ◌>>=◌ m f s = proceed (m s).0 f (m s).1
