-- ===== src/Prelude/Predicates.antt =====
-- Predicates on the elements of a list, one by one and in pairs, and what keeps them.
use Prim.Native.Nat.{ℕ, zero, suc}
use mathlib.Core.Path.{◌≡◌, refl, sym, ap, subst}
use mathlib.Core.Logic.{◌⊎◌, inl, inr}
use mathlib.Core.Bool.{Bool, true}
use mathlib.Core.List.{List, [], ◌∷◌, ◌++◌, map, reverse_aux}
use tinypanel_hub.Prelude.Tests.{Bool-cases}
use tinypanel_hub.Prelude.Lists.{length, drop, filter, remove_first, take}

abbrev pub All {ℓ κ} : {A : Type ℓ} → (A → Type κ) → List A → Type κ
All P [] = Unit
All P (x ∷ xs) = P x × All P xs

-- `R x y` for each `x` that stands before `y`.
abbrev pub Pairwise {ℓ κ} : {A : Type ℓ} → (A → A → Type κ) → List A → Type κ
Pairwise R [] = Unit
Pairwise R (x ∷ xs) = All (R x) xs × Pairwise R xs

-- Membership, with the place where it holds.
abbrev pub In : {A : Type 0} → A → List A → Type 0
In a [] = ⊥
In a (x ∷ xs) = (a ≡ x) ⊎ In a xs

module _ {A : Type 0} (P : A → Type 0) where
  pub All-append : (xs ys : List A) → All P xs → All P ys → All P (xs ++ ys)
  All-append [] ys h k = k
  All-append (x ∷ xs) ys (p, h) k = (p, All-append xs ys h k)

  pub All-drop : (n : ℕ) (xs : List A) → All P xs → All P (drop n xs)
  All-drop zero xs h = h
  All-drop (suc n) [] h = tt
  All-drop (suc n) (x ∷ xs) h = All-drop n xs h.1

  pub All-remove_first : (p : A → Bool) (xs : List A) → All P xs → All P (remove_first p xs)
  All-remove_first p [] h = tt
  All-remove_first p (x ∷ xs) (q, h) = elim (Bool-cases (p x)) [
    | inl e ↦ rw e h
    | inr e ↦ rw e (q, All-remove_first p xs h)
  ]

  pub All-filter : (p : A → Bool) (xs : List A) → All P xs → All P (filter p xs)
  All-filter p [] h = tt
  All-filter p (x ∷ xs) (q, h) = elim (Bool-cases (p x)) [
    | inl e ↦ rw e (q, All-filter p xs h)
    | inr e ↦ rw e (All-filter p xs h)
  ]

  -- What passes the test of a filter has it.
  pub All-filter_test :
      (p : A → Bool) (xs : List A) → ((x : A) → p x ≡ true → P x) → All P (filter p xs)
  All-filter_test p [] h = tt
  All-filter_test p (x ∷ xs) h = elim (Bool-cases (p x)) [
    | inl e ↦ rw e (h x e, All-filter_test p xs h)
    | inr e ↦ rw e (All-filter_test p xs h)
  ]

  pub All-take : (n : ℕ) (xs : List A) → All P xs → All P (take n xs)
  All-take zero xs h = tt
  All-take (suc n) [] h = tt
  All-take (suc n) (x ∷ xs) (p, h) = (p, All-take n xs h)

  pub All-reverse_aux : (xs ys : List A) → All P xs → All P ys → All P (reverse_aux xs ys)
  All-reverse_aux [] ys h k = k
  All-reverse_aux (x ∷ xs) ys (p, h) k = All-reverse_aux xs (x ∷ ys) h (p, k)

  pub All-In : (a : A) (xs : List A) → All P xs → In a xs → P a
  All-In a [] h i = elim i [ ]
  All-In a (x ∷ xs) (p, h) (inl e) = subst P (sym e) p
  All-In a (x ∷ xs) (p, h) (inr i) = All-In a xs h i

  pub All-of_In : (xs : List A) → ((a : A) → In a xs → P a) → All P xs
  All-of_In [] h = tt
  All-of_In (x ∷ xs) h = (h x (inl refl), All-of_In xs (λ a i. h a (inr i)))

pub All-mono :
    {A : Type 0} (P Q : A → Type 0) (xs : List A) → ((x : A) → P x → Q x) → All P xs → All Q xs
All-mono P Q [] f h = tt
All-mono P Q (x ∷ xs) f (p, h) = (f x p, All-mono P Q xs f h)

module _ {A : Type 0} (R : A → A → Type 0) where
  pub Pairwise-append :
      (xs : List A) (a : A) → Pairwise R xs → All (λ x. R x a) xs → Pairwise R (xs ++ a ∷ [])
  Pairwise-append [] a h k = (tt, tt)
  Pairwise-append (x ∷ xs) a (q, h) (r, k) =
      (All-append (R x) xs (a ∷ []) q (r, tt), Pairwise-append xs a h k)

  pub Pairwise-drop : (n : ℕ) (xs : List A) → Pairwise R xs → Pairwise R (drop n xs)
  Pairwise-drop zero xs h = h
  Pairwise-drop (suc n) [] h = tt
  Pairwise-drop (suc n) (x ∷ xs) h = Pairwise-drop n xs h.1

  pub Pairwise-remove_first :
      (p : A → Bool) (xs : List A) → Pairwise R xs → Pairwise R (remove_first p xs)
  Pairwise-remove_first p [] h = tt
  Pairwise-remove_first p (x ∷ xs) (q, h) = elim (Bool-cases (p x)) [
    | inl e ↦ rw e h
    | inr e ↦ rw e (All-remove_first (R x) p xs q, Pairwise-remove_first p xs h)
  ]

pub filter_congr :
    {A : Type 0} (p q : A → Bool) (xs : List A)
    → All (λ x. p x ≡ q x) xs
    → filter p xs ≡ filter q xs
filter_congr p q [] h = refl
filter_congr p q (x ∷ xs) (e, h) = rw (e, filter_congr p q xs h)

pub map_congr :
    {A B : Type 0} (f g : A → B) (xs : List A) → All (λ x. f x ≡ g x) xs → map f xs ≡ map g xs
map_congr f g [] h = refl
map_congr f g (x ∷ xs) (e, h) = rw (e, map_congr f g xs h)

module _ {A B : Type 0} (f : A → B) where
  pub All-map : (P : B → Type 0) (xs : List A) → All (λ x. P (f x)) xs → All P (map f xs)
  All-map P [] h = tt
  All-map P (x ∷ xs) (p, h) = (p, All-map P xs h)

  pub Pairwise-map :
      (R : B → B → Type 0) (xs : List A)
      → Pairwise (λ x y. R (f x) (f y)) xs
      → Pairwise R (map f xs)
  Pairwise-map R [] h = tt
  Pairwise-map R (x ∷ xs) (p, h) = (All-map (R (f x)) xs p, Pairwise-map R xs h)

  pub length-map : (xs : List A) → length (map f xs) ≡ length xs
  length-map [] = refl
  length-map (x ∷ xs) = ap suc (length-map xs)

module _ {A : Type 0} (R S : A → A → Type 0) where
  pub Pairwise-mono : (xs : List A) → ((x y : A) → R x y → S x y) → Pairwise R xs → Pairwise S xs
  Pairwise-mono [] f h = tt
  Pairwise-mono (x ∷ xs) f (p, h) = (All-mono (R x) (S x) xs (f x) p, Pairwise-mono xs f h)

pub In-append_self : {A : Type 0} (xs : List A) (a : A) → In a (xs ++ a ∷ [])
In-append_self [] a = inl refl
In-append_self (x ∷ xs) a = inr (In-append_self xs a)
