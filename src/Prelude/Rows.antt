-- ===== src/Prelude/Rows.antt =====
-- Database tables as lists of rows in the order of insertion, and the queries on them.
use Prim.Native.Nat.{ℕ, zero, suc, ◌+◌, ◌≤◌}
use mathlib.Core.Path.{◌≡◌, refl}
use mathlib.Core.Bool.{Bool, true, false, ◌&&◌}
use mathlib.Core.Option.{Option, none, some}
use mathlib.Core.List.{List, [], ◌∷◌, ◌++◌}
use native.Mathlib.Omega.{arith}
use living_cost_manager.Prelude.Tests.{if◌then◌else◌, Bool-cases}
use mathlib.Core.Logic.{inl, inr}

module _ {ℓ} {A : Type ℓ} where
  abbrev pub length : List A → ℕ
  length [] = 0
  length (x ∷ xs) = 1 + length xs

  abbrev pub take : ℕ → List A → List A
  take zero xs = []
  take (suc n) [] = []
  take (suc n) (x ∷ xs) = x ∷ take n xs

  -- findFirst, findUnique, Array.find
  unfoldable pub find : (A → Bool) → List A → Option A
  find p [] = none
  find p (x ∷ xs) = if p x then some x else find p xs

  -- count
  unfoldable pub count_if : (A → Bool) → List A → ℕ
  count_if p [] = 0
  count_if p (x ∷ xs) = (if p x then 1 else 0) + count_if p xs

  -- findMany, Array.filter
  unfoldable pub select : (A → Bool) → List A → List A
  select p [] = []
  select p (x ∷ xs) = let rest = select p xs in if p x then x ∷ rest else rest

  -- updateMany
  unfoldable pub update_where : (A → Bool) → (A → A) → List A → List A
  update_where p f [] = []
  update_where p f (x ∷ xs) = (if p x then f x else x) ∷ update_where p f xs

  -- deleteMany
  unfoldable pub delete_where : (A → Bool) → List A → List A
  delete_where p [] = []
  delete_where p (x ∷ xs) = let rest = delete_where p xs in if p x then rest else x ∷ rest

  -- Array.some, Array.every
  unfoldable pub any : (A → Bool) → List A → Bool
  any p [] = false
  any p (x ∷ xs) = if p x then true else any p xs

  unfoldable pub all : (A → Bool) → List A → Bool
  all p [] = true
  all p (x ∷ xs) = if p x then all p xs else false

  pub find_sound : (p : A → Bool) (xs : List A) {x : A} → find p xs ≡ some x → p x ≡ true
  unfolding find
  find_sound p [] h = ground arith
  find_sound p (x ∷ xs) {x = y} h = ground (arith, find_sound p xs {x = y})

  pub find-count : (p : A → Bool) (xs : List A) {x : A} → find p xs ≡ some x → 1 ≤ count_if p xs
  unfolding find count_if
  find-count p [] h = ground arith
  find-count p (x ∷ xs) {x = y} h = ground (arith, find-count p xs {x = y})

  pub find-none : (p : A → Bool) (xs : List A) → find p xs ≡ none → count_if p xs ≡ 0
  unfolding find count_if
  find-none p [] h = refl
  find-none p (x ∷ xs) h = ground (arith, find-none p xs)

  -- a row that a query finds is counted by each test that it passes
  pub find-count_of :
      (p q : A → Bool) (xs : List A) {x : A} → find p xs ≡ some x → q x ≡ true → 1 ≤ count_if q xs
  unfolding find count_if
  find-count_of p q [] h k = ground arith
  find-count_of p q (x ∷ xs) {x = y} h k = ground (arith, find-count_of p q xs {x = y})

  pub count-append :
      (p : A → Bool) (xs ys : List A) → count_if p (xs ++ ys) ≡ count_if p xs + count_if p ys
  unfolding count_if
  count-append p [] ys = omega arith
  count-append p (x ∷ xs) ys = omega (arith, count-append p xs ys)

  pub count_mono :
      (p q : A → Bool) (xs : List A)
      → ((x : A) → p x ≡ true → q x ≡ true)
      → count_if p xs ≤ count_if q xs
  unfolding count_if
  count_mono p q [] h = omega arith
  count_mono p q (x ∷ xs) h = ground (arith, h x, count_mono p q xs h)

  -- two tests that no row passes at once, under a third
  pub count_disjoint :
      (p q r : A → Bool) (xs : List A)
      → ((x : A) → p x ≡ true → r x ≡ true)
      → ((x : A) → q x ≡ true → r x ≡ true)
      → ((x : A) → p x ≡ true → q x ≡ false)
      → count_if p xs + count_if q xs ≤ count_if r xs
  unfolding count_if
  count_disjoint p q r [] f g d = omega arith
  count_disjoint p q r (x ∷ xs) f g d = ground (arith, f x, g x, d x, count_disjoint p q r xs f g d)

  pub count-delete :
      (p q : A → Bool) (xs : List A)
      → count_if p (delete_where q xs) + count_if (λ x. p x && q x) xs ≡ count_if p xs
  unfolding count_if delete_where
  count-delete p q [] = refl
  count-delete p q (x ∷ xs) = ground (arith, count-delete p q xs)

  pub count-delete_le :
      (p q : A → Bool) (xs : List A) → count_if p (delete_where q xs) ≤ count_if p xs
  count-delete_le p q xs = omega (arith, count-delete p q xs)

  pub count-update :
      (p q : A → Bool) (f : A → A) (xs : List A)
      → count_if p (update_where q f xs) + count_if (λ x. p x && q x) xs
        ≡ count_if p xs + count_if (λ x. q x && p (f x)) xs
  unfolding count_if update_where
  count-update p q f [] = refl
  count-update p q f (x ∷ xs) = ground (arith, count-update p q f xs)

  -- an update that a test does not see
  pub count-update_same :
      (p q : A → Bool) (f : A → A) (xs : List A)
      → ((x : A) → p (f x) ≡ p x)
      → count_if p (update_where q f xs) ≡ count_if p xs
  unfolding count_if update_where
  count-update_same p q f [] h = refl
  count-update_same p q f (x ∷ xs) h = ground (arith, h x, count-update_same p q f xs h)

  pub find-append_new :
      (p : A → Bool) (xs : List A) (y : A)
      → count_if p xs ≡ 0
      → p y ≡ true
      → find p (xs ++ y ∷ []) ≡ some y
  unfolding find count_if
  find-append_new p [] y h k = ground arith
  find-append_new p (x ∷ xs) y h k = ground (arith, find-append_new p xs y)

  pub find-eq-none : (p : A → Bool) (xs : List A) → count_if p xs ≡ 0 → find p xs ≡ none
  unfolding find count_if
  find-eq-none p [] h = refl
  find-eq-none p (x ∷ xs) h = ground (arith, find-eq-none p xs)

  pub any-count : (p : A → Bool) (xs : List A) → any p xs ≡ false → count_if p xs ≡ 0
  unfolding any count_if
  any-count p [] h = refl
  any-count p (x ∷ xs) h = ground (arith, any-count p xs)

  pub any-find : (p : A → Bool) (xs : List A) → any p xs ≡ true → (x : A) × (find p xs ≡ some x)
  unfolding any find
  any-find p [] h = absurd (ground arith)
  any-find p (x ∷ xs) h = elim (Bool-cases (p x)) [
    | inl e ↦ (x, rw e)
    | inr e ↦ rw e (any-find p xs (rw e at h))
  ]

  pub find-any : (p : A → Bool) (xs : List A) {x : A} → find p xs ≡ some x → any p xs ≡ true
  unfolding any find
  find-any p [] h = ground arith
  find-any p (x ∷ xs) {x = y} h = ground (arith, find-any p xs {x = y})

  pub count_none : (p : A → Bool) (xs : List A) → ((x : A) → p x ≡ false) → count_if p xs ≡ 0
  unfolding count_if
  count_none p [] h = refl
  count_none p (x ∷ xs) h = ground (arith, h x, count_none p xs h)

  pub update-none :
      (q : A → Bool) (f : A → A) (xs : List A) → count_if q xs ≡ 0 → update_where q f xs ≡ xs
  unfolding update_where count_if
  update-none q f [] h = refl
  update-none q f (x ∷ xs) h = ground (arith, update-none q f xs)

  pub select-append :
      (p : A → Bool) (xs ys : List A) → select p (xs ++ ys) ≡ select p xs ++ select p ys
  unfolding select
  select-append p [] ys = refl
  select-append p (x ∷ xs) ys = ground (arith, select-append p xs ys)

  pub select-delete : (p : A → Bool) (xs : List A) → select p (delete_where p xs) ≡ []
  unfolding select delete_where
  select-delete p [] = refl
  select-delete p (x ∷ xs) = ground (arith, select-delete p xs)

  pub select-all : (p : A → Bool) (xs : List A) → all p xs ≡ true → select p xs ≡ xs
  unfolding select all
  select-all p [] h = refl
  select-all p (x ∷ xs) h = ground (arith, select-all p xs)

  -- the rows of a replaced selection are the new ones
  pub select-replaced :
      (p : A → Bool) (xs ys : List A) → all p ys ≡ true → select p (delete_where p xs ++ ys) ≡ ys
  select-replaced p xs ys h =
      rw (select-append p (delete_where p xs) ys, select-delete p xs, select-all p ys h)
