-- ===== src/Prelude/Sorting.antt =====
-- `Array.prototype.sort` with a comparison of numeric keys: stable, ascending.
use Prim.Native.Nat.{ℕ, ◌+◌, ◌≤◌}
use mathlib.Core.Path.{◌≡◌, refl}
use mathlib.Core.List.{List, [], ◌∷◌, map}
use native.Mathlib.Omega.{arith}
use living_cost_manager.Prelude.Rows.{length}
use living_cost_manager.Prelude.Tests.{leb, if◌then◌else◌}

module _ {ℓ} {A : Type ℓ} (key : A → ℕ) where
  insert_on : A → List A → List A
  insert_on a [] = a ∷ []
  insert_on a (x ∷ xs) =
      let rest = insert_on a xs in if leb (key a) (key x) then a ∷ x ∷ xs else x ∷ rest

  unfoldable pub sort_on : List A → List A
  unfolding insert_on
  sort_on [] = []
  sort_on (x ∷ xs) = insert_on x (sort_on xs)

module _ {ℓ} {A : Type ℓ} where
  unfoldable pub sum_of : (A → ℕ) → List A → ℕ
  sum_of f [] = 0
  sum_of f (x ∷ xs) = f x + sum_of f xs

  sum_of-insert :
      (key f : A → ℕ) (a : A) (xs : List A) → sum_of f (insert_on key a xs) ≡ f a + sum_of f xs
  unfolding insert_on sum_of
  sum_of-insert key f a [] = refl
  sum_of-insert key f a (x ∷ xs) = ground (arith, sum_of-insert key f a xs)

  pub sum_of-sort_on : (key f : A → ℕ) (xs : List A) → sum_of f (sort_on key xs) ≡ sum_of f xs
  unfolding sort_on sum_of
  sum_of-sort_on key f [] = refl
  sum_of-sort_on key f (x ∷ xs) =
      omega (arith, sum_of-insert key f x (sort_on key xs), sum_of-sort_on key f xs)

  length-insert : (key : A → ℕ) (a : A) (xs : List A) → length (insert_on key a xs) ≡ 1 + length xs
  unfolding insert_on
  length-insert key a [] = refl
  length-insert key a (x ∷ xs) = ground (arith, length-insert key a xs)

  pub length-sort_on : (key : A → ℕ) (xs : List A) → length (sort_on key xs) ≡ length xs
  unfolding sort_on
  length-sort_on key [] = refl
  length-sort_on key (x ∷ xs) =
      omega (arith, length-insert key x (sort_on key xs), length-sort_on key xs)

  abbrev pub IsSortedOn : (A → ℕ) → List A → Type 0
  IsSortedOn key [] = Unit
  IsSortedOn key (x ∷ []) = Unit
  IsSortedOn key (x ∷ y ∷ xs) = (key x ≤ key y) × IsSortedOn key (y ∷ xs)

  insert_on-IsSortedOn :
      (key : A → ℕ) (a : A) (xs : List A) → IsSortedOn key xs → IsSortedOn key (insert_on key a xs)
  unfolding insert_on
  insert_on-IsSortedOn key a [] h = tt
  insert_on-IsSortedOn key a (x ∷ []) h = ground arith
  insert_on-IsSortedOn key a (x ∷ y ∷ xs) h =
      ground (arith, insert_on-IsSortedOn key a (y ∷ xs) h.1)

  pub sort_on-IsSortedOn : (key : A → ℕ) (xs : List A) → IsSortedOn key (sort_on key xs)
  unfolding sort_on
  sort_on-IsSortedOn key [] = tt
  sort_on-IsSortedOn key (x ∷ xs) =
      insert_on-IsSortedOn key x (sort_on key xs) (sort_on-IsSortedOn key xs)

module _ {ℓ κ} {A : Type ℓ} {B : Type κ} (key : A → ℕ) (to : B → ℕ) (f : A → B)
    (same : (a : A) → to (f a) ≡ key a) where
  map-insert_on : (a : A) (xs : List A) → map f (insert_on key a xs) ≡ insert_on to (f a) (map f xs)
  unfolding insert_on
  map-insert_on a [] = refl
  map-insert_on a (x ∷ xs) = ground (arith, same a, same x, map-insert_on a xs)

  -- sorting by a key that a map keeps
  pub map-sort_on : (xs : List A) → map f (sort_on key xs) ≡ sort_on to (map f xs)
  unfolding sort_on
  map-sort_on [] = refl
  map-sort_on (x ∷ xs) = ground (arith, map-insert_on x (sort_on key xs), map-sort_on xs)
