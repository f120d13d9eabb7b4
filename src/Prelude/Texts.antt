-- ===== src/Prelude/Texts.antt =====
-- Texts as lists of code points, with what the program uses of JavaScript's `trim` and
-- `toLowerCase`. Letters outside ASCII are left as they are.
use Prim.Native.Nat.{ℕ, ◌+◌}
use mathlib.Core.Path.{◌≡◌, refl, ap, ◌∙◌}
use mathlib.Core.Logic.{◌↔◌, ◌⊎◌, inl, inr}
use mathlib.Core.Bool.{Bool, true, false, ◌&&◌, ◌||◌}
use mathlib.Core.List.{
  List, [], ◌∷◌, ◌++◌, reverse, map, reverse-cons, reverse-append, reverse-reverse,
}
use native.Mathlib.Omega.{arith}
use living_cost_manager.Prelude.Tests.{leb, ◌==◌, if◌then◌else◌, Bool-cases}

abbrev pub Text : Type 0
Text = List ℕ

unfoldable pub text_eq : Text → Text → Bool
text_eq [] [] = true
text_eq (x ∷ xs) (y ∷ ys) = if x == y then text_eq xs ys else false
text_eq _ _ = false

pub text_eq_iff : (s t : Text) → (text_eq s t ≡ true) ↔ (s ≡ t)
unfolding text_eq
text_eq_iff [] [] = ground arith
text_eq_iff [] (y ∷ ys) = ground arith
text_eq_iff (x ∷ xs) [] = ground arith
text_eq_iff (x ∷ xs) (y ∷ ys) = ground (arith, text_eq_iff xs ys)

-- the white space that `trim` removes
unfoldable pub is_space : ℕ → Bool
is_space c =
    (leb 9 c && leb c 13)
    || c == 32
    || c == 160
    || c == 5760
    || (leb 8192 c && leb c 8202)
    || c == 8232
    || c == 8233
    || c == 8239
    || c == 8287
    || c == 12288
    || c == 65279

unfoldable pub trim_start : Text → Text
trim_start [] = []
trim_start (c ∷ s) = if is_space c then trim_start s else c ∷ s

unfoldable pub trim : Text → Text
unfolding trim_start is_space
trim s = reverse (trim_start (reverse (trim_start s)))

trim_start_idem : (s : Text) → trim_start (trim_start s) ≡ trim_start s
unfolding trim_start
trim_start_idem [] = refl
trim_start_idem (c ∷ s) = elim (Bool-cases (is_space c)) [
  | inl e ↦ rw e (trim_start_idem s)
  | inr e ↦ rw (e, e) refl
]

-- a text that ends in another character than white space still does
trim_start-append :
    (s : Text) (c : ℕ) → is_space c ≡ false → trim_start (s ++ c ∷ []) ≡ trim_start s ++ c ∷ []
unfolding trim_start
trim_start-append [] c e = rw e
trim_start-append (d ∷ s) c e = elim (Bool-cases (is_space d)) [
  | inl f ↦ rw f (trim_start-append s c e)
  | inr f ↦ rw f
]

trim_start-cases :
    (s : Text)
    → (trim_start s ≡ []) ⊎ ((c : ℕ) × (t : Text) × (trim_start s ≡ c ∷ t) × (is_space c ≡ false))
unfolding trim_start
trim_start-cases [] = inl refl
trim_start-cases (c ∷ s) = elim (Bool-cases (is_space c)) [
  | inl e ↦ rw e (trim_start-cases s)
  | inr e ↦ inr (c, s, rw e, e)
]

-- A trimmed text starts with no white space.
trim_start-trim : (s : Text) → trim_start (trim s) ≡ trim s
unfolding trim
trim_start-trim s = elim (trim_start-cases s) [
  | inl e ↦ rw e (unfold trim_start in refl)
  | inr (c, t, e, f) ↦
      let last : trim_start (reverse (c ∷ t)) ≡ trim_start (reverse t) ++ c ∷ [] =
        ap trim_start (reverse-cons c t) ∙ trim_start-append (reverse t) c f in
      let whole : reverse (trim_start (reverse (c ∷ t))) ≡ c ∷ reverse (trim_start (reverse t)) =
        ap reverse last ∙ reverse-append (trim_start (reverse t)) (c ∷ []) in
      rw (e, whole) (unfold trim_start in rw f refl)
]

pub trim_idem : (s : Text) → trim (trim s) ≡ trim s
unfolding trim
trim_idem s =
    ap (λ t. reverse (trim_start (reverse t))) (unfold trim in trim_start-trim s)
    ∙ ap (λ t. reverse (trim_start t)) (reverse-reverse (trim_start (reverse (trim_start s))))
    ∙ ap reverse (trim_start_idem (reverse (trim_start s)))

unfoldable pub lower : ℕ → ℕ
lower c = if leb b'A' c && leb c b'Z' then c + 32 else c

unfoldable pub to_lower_case : Text → Text
unfolding lower
to_lower_case s = map lower s
