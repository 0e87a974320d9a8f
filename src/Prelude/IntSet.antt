-- ===== src/Prelude/IntSet.antt =====
-- Python's `set` of integers, as a list; only membership is ever asked of it.
use Prim.Native.Nat.{ℕ}
use mathlib.Core.Path.{◌≡◌}
use mathlib.Core.Bool.{Bool, false, not, ◌&&◌, ◌||◌}
use mathlib.Core.List.{List, [], ◌∷◌}
use native.Mathlib.Omega.{arith}
use cursus.Prelude.Tests.{◌==◌, if◌then◌else◌}

abbrev pub IntSet : Type 0
IntSet = List ℕ

-- `x in s`
unfoldable pub member : ℕ → IntSet → Bool
member x [] = false
member x (y ∷ s) = x == y || member x s

-- `s.add(x)`
unfoldable pub add : ℕ → IntSet → IntSet
add x s = if member x s then s else x ∷ s

-- `s.discard(x)`
unfoldable pub discard : ℕ → IntSet → IntSet
discard x [] = []
discard x (y ∷ s) = let rest = discard x s in if x == y then rest else y ∷ rest

-- `s.difference_update(t)`
unfoldable pub difference : IntSet → IntSet → IntSet
difference [] t = []
difference (y ∷ s) t = let rest = difference s t in if member y t then rest else y ∷ rest

pub member-add : (x y : ℕ) (s : IntSet) → member x (add y s) ≡ (x == y || member x s)
unfolding add member
member-add x y s = ground arith

pub member-discard : (x y : ℕ) (s : IntSet) → member x (discard y s) ≡ (not (x == y) && member x s)
unfolding member discard
member-discard x y [] = ground arith
member-discard x y (z ∷ s) = ground (arith, member-discard x y s)

pub member-difference :
    (x : ℕ) (s t : IntSet) → member x (difference s t) ≡ (member x s && not (member x t))
unfolding member difference
member-difference x [] t = ground arith
member-difference x (z ∷ s) t = ground (arith, member-difference x s t)
