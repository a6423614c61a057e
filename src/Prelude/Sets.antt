-- ===== src/Prelude/Sets.antt =====
-- A `HashSet` of numbers: a list with no number twice, whose order says nothing.
use Prim.Native.Nat.{ℕ}
use mathlib.Core.Path.{◌≡◌}
use mathlib.Core.Bool.{Bool, true, false, ◌||◌}
use mathlib.Core.List.{List, [], ◌∷◌}
use native.Mathlib.Omega.{arith}
use vmscren_share.Prelude.Tests.{◌==◌, if◌then◌else◌}

unfoldable pub contains : ℕ → List ℕ → Bool
contains a [] = false
contains a (x ∷ xs) = x == a || contains a xs

-- `HashSet::insert`.
unfoldable pub insert : ℕ → List ℕ → List ℕ
unfolding contains
insert a xs = if contains a xs then xs else a ∷ xs

-- `HashSet::remove`.
unfoldable pub remove : ℕ → List ℕ → List ℕ
remove a [] = []
remove a (x ∷ xs) = if x == a then remove a xs else x ∷ remove a xs

pub contains-insert :
    (a b : ℕ) (xs : List ℕ) → contains b (insert a xs) ≡ (if a == b then true else contains b xs)
unfolding contains insert
contains-insert a b xs = ground (arith, agree a b xs)
  where
    agree : (a b : ℕ) (xs : List ℕ) → contains a xs ≡ true → (a == b) ≡ true → contains b xs ≡ true
    agree a b [] h e = h
    agree a b (x ∷ xs) h e = ground (arith, agree a b xs)

pub contains-remove :
    (a b : ℕ) (xs : List ℕ) → contains b (remove a xs) ≡ (if a == b then false else contains b xs)
unfolding contains remove
contains-remove a b [] = ground arith
contains-remove a b (x ∷ xs) = ground (arith, contains-remove a b xs)

-- A `HashSet` of an enum, whose values are told apart by their numbers.
module _ {A : Type 0} (number : A → ℕ) where
  unfoldable pub contains_value : A → List A → Bool
  contains_value a [] = false
  contains_value a (x ∷ xs) = number x == number a || contains_value a xs

  unfoldable pub insert_value : A → List A → List A
  unfolding contains_value
  insert_value a xs = if contains_value a xs then xs else a ∷ xs

  unfoldable pub remove_value : A → List A → List A
  remove_value a [] = []
  remove_value a (x ∷ xs) =
      if number x == number a then remove_value a xs else x ∷ remove_value a xs

  pub contains_value-insert_value :
      (a b : A) (xs : List A)
      → contains_value b (insert_value a xs)
        ≡ (if number a == number b then true else contains_value b xs)
  unfolding contains_value insert_value
  contains_value-insert_value a b xs = ground (arith, agree xs)
    where
      agree :
          (xs : List A)
          → contains_value a xs ≡ true
          → (number a == number b) ≡ true
          → contains_value b xs ≡ true
      agree [] h e = h
      agree (x ∷ xs) h e = ground (arith, agree xs)

  pub contains_value-remove_value :
      (a b : A) (xs : List A)
      → contains_value b (remove_value a xs)
        ≡ (if number a == number b then false else contains_value b xs)
  unfolding contains_value remove_value
  contains_value-remove_value a b [] = ground arith
  contains_value-remove_value a b (x ∷ xs) = ground (arith, contains_value-remove_value a b xs)
