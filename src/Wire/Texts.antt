-- ===== src/Wire/Texts.antt =====
-- `str`: literals, equality, and dictionaries with text keys such as `os.environ`.
use Prim.Native.Char.{code}
use Prim.Native.String.{String}
use cursus.Prelude.{
  arith, ◌≡◌, refl, Bool, true, false, ◌&&◌, Option, none, some, List, [], ◌∷◌, ◌==◌, if◌then◌else◌,
}
use cursus.Wire.Struct.{Text}

-- A `str` literal.
abbrev pub text : String → Text
text String.[] = []
text (String.◌∷◌ c s) = code c ∷ text s

-- `==` of two texts.
unfoldable pub text_eq : Text → Text → Bool
text_eq [] [] = true
text_eq [] (c ∷ t) = false
text_eq (c ∷ s) [] = false
text_eq (c ∷ s) (d ∷ t) = c == d && text_eq s t

abbrev pub Environment : Type 0
Environment = List (Text × Text)

-- `environment.get(name)`
unfoldable pub variable : Text → Environment → Option Text
unfolding text_eq
variable name [] = none
variable name ((other, value) ∷ rest) =
    if text_eq other name then some value else variable name rest

-- `environment[name] = value`
unfoldable pub set_variable : Text → Text → Environment → Environment
unfolding text_eq
set_variable name value [] = (name, value) ∷ []
set_variable name value ((other, old) ∷ rest) =
    if text_eq other name
    then (other, value) ∷ rest
    else (other, old) ∷ set_variable name value rest

pub text_eq-eq : (s t : Text) → text_eq s t ≡ true → s ≡ t
unfolding text_eq
text_eq-eq [] [] h = refl
text_eq-eq [] (d ∷ t) h = cc
text_eq-eq (c ∷ s) [] h = cc
text_eq-eq (c ∷ s) (d ∷ t) h = ground (arith, text_eq-eq s t)

pub text_eq_refl : (s : Text) → text_eq s s ≡ true
unfolding text_eq
text_eq_refl [] = refl
text_eq_refl (c ∷ s) = ground (arith, text_eq_refl s)

pub variable-set_variable :
    (name other value : Text) (environment : Environment)
    → variable other (set_variable name value environment)
      ≡ (if text_eq name other then some value else variable other environment)
unfolding variable set_variable
variable-set_variable name other value [] = refl
variable-set_variable name other value ((key, old) ∷ rest) = ground (
  arith,
  text_eq-eq key name,
  text_eq-eq key other,
  text_eq-eq name other,
  text_eq_refl name,
  text_eq_refl other,
  variable-set_variable name other value rest,
)
