-- ===== src/Prelude/Find.antt =====
-- The first element that passes a test: what is known of it, and its change.
use mathlib.Core.Path.{◌≡◌, refl, sym, subst}
use mathlib.Core.Logic.{inl, inr}
use mathlib.Core.Bool.{Bool, true, false}
use mathlib.Core.Option.{none, some}
use mathlib.Core.List.{List, [], ◌∷◌, ◌++◌}
use native.Mathlib.Omega.{arith}
use tinypanel_hub.Prelude.Tests.{if◌then◌else◌, Bool-cases}
use tinypanel_hub.Prelude.Lists.{find?, any, filter, update_first, remove_first}
use tinypanel_hub.Prelude.Predicates.{All, All-mono, All-In, Pairwise, In}

pub some_eq : {A : Type 0} {a b : A} → some a ≡ some b → a ≡ b
some_eq e = cc

module _ {A : Type 0} (p : A → Bool) where
  pub find?-test : (xs : List A) (t : A) → find? p xs ≡ some t → p t ≡ true
  find?-test [] t h = cc
  find?-test (x ∷ xs) t h = elim (Bool-cases (p x)) [
    | inl e ↦ subst (λ y. p y ≡ true) (some_eq (rw e at h)) e
    | inr e ↦ find?-test xs t (rw e at h)
  ]

  pub find?-In : (xs : List A) (t : A) → find? p xs ≡ some t → In t xs
  find?-In [] t h = cc
  find?-In (x ∷ xs) t h = elim (Bool-cases (p x)) [
    | inl e ↦ inl (sym (some_eq (rw e at h)))
    | inr e ↦ inr (find?-In xs t (rw e at h))
  ]

  pub find?-All : (P : A → Type 0) (xs : List A) (t : A) → All P xs → find? p xs ≡ some t → P t
  find?-All P [] t h e = cc
  find?-All P (x ∷ xs) t (q, h) e = elim (Bool-cases (p x)) [
    | inl y ↦ subst P (some_eq (rw y at e)) q
    | inr n ↦ find?-All P xs t h (rw n at e)
  ]

  pub find?-eq-none : (xs : List A) → find? p xs ≡ none → All (λ x. p x ≡ false) xs
  find?-eq-none [] h = tt
  find?-eq-none (x ∷ xs) h = elim (Bool-cases (p x)) [
    | inl e ↦ absurd (none_some (rw e at h))
    | inr e ↦ (e, find?-eq-none xs (rw e at h))
  ]
    where
      none_some : {a : A} → some a ≡ none → ⊥
      none_some q = cc

  pub find?_of_All : (xs : List A) → All (λ x. p x ≡ false) xs → find? p xs ≡ none
  find?_of_All [] h = refl
  find?_of_All (x ∷ xs) (q, h) = rw q (find?_of_All xs h)

  pub find?-append_none :
      (xs : List A) (a : A)
      → find? p xs ≡ none
      → find? p (xs ++ a ∷ []) ≡ (if p a then some a else none)
  find?-append_none [] a h = refl
  find?-append_none (x ∷ xs) a h = ground (arith, find?-append_none xs a)

  pub find?-append_some :
      (xs ys : List A) (t : A) → find? p xs ≡ some t → find? p (xs ++ ys) ≡ some t
  find?-append_some [] ys t h = cc
  find?-append_some (x ∷ xs) ys t h = ground (arith, find?-append_some xs ys t)

  pub any-eq-false : (xs : List A) → any p xs ≡ false → All (λ x. p x ≡ false) xs
  any-eq-false [] h = tt
  any-eq-false (x ∷ xs) h = ground (arith, any-eq-false xs)

  pub any_of_All : (xs : List A) → All (λ x. p x ≡ false) xs → any p xs ≡ false
  any_of_All [] h = refl
  any_of_All (x ∷ xs) (q, h) = rw q (any_of_All xs h)

  pub find?-update_first :
      (xs : List A) (t t' : A)
      → find? p xs ≡ some t
      → p t' ≡ true
      → find? p (update_first p (λ _. t') xs) ≡ some t'
  find?-update_first [] t t' h k = cc
  find?-update_first (x ∷ xs) t t' h k = ground (arith, find?-update_first xs t t')

  pub In-update_first :
      (xs : List A) (t t' : A) → find? p xs ≡ some t → In t' (update_first p (λ _. t') xs)
  In-update_first [] t t' h = cc
  In-update_first (x ∷ xs) t t' h = elim (Bool-cases (p x)) [
    | inl e ↦ rw e (inl refl)
    | inr e ↦ rw e (inr (In-update_first xs t t' (rw e at h)))
  ]

  -- An element is found where no element before it passes the test.
  pub find?_of_Pairwise :
      (R : A → A → Type 0) (xs : List A) (d : A)
      → Pairwise R xs
      → In d xs
      → p d ≡ true
      → ((a : A) → R a d → p a ≡ false)
      → find? p xs ≡ some d
  find?_of_Pairwise R [] d h i e f = elim i [ ]
  find?_of_Pairwise R (x ∷ xs) d (q, h) (inl same) e f = rw (← same) (rw e)
  find?_of_Pairwise R (x ∷ xs) d (q, h) (inr i) e f =
      rw (f x (All-In (R x) d xs q i)) (find?_of_Pairwise R xs d h i e f)

  pub All-update_first :
      (P : A → Type 0) (xs : List A) (t' : A)
      → All P xs
      → P t'
      → All P (update_first p (λ _. t') xs)
  All-update_first P [] t' h q = tt
  All-update_first P (x ∷ xs) t' (r, h) q = elim (Bool-cases (p x)) [
    | inl e ↦ rw e (q, h)
    | inr e ↦ rw e (r, All-update_first P xs t' h q)
  ]

  pub All-update_first_at :
      (P : A → Type 0) (xs : List A) (t t' : A)
      → find? p xs ≡ some t
      → (P t → P t')
      → All P xs
      → All P (update_first p (λ _. t') xs)
  All-update_first_at P xs t t' h f k = All-update_first P xs t' k (f (find?-All P xs t k h))

  -- The new element is to the others as the one that it replaces.
  pub Pairwise-update_first :
      (R : A → A → Type 0) (xs : List A) (t t' : A)
      → find? p xs ≡ some t
      → ((y : A) → R t y → R t' y)
      → ((y : A) → R y t → R y t')
      → Pairwise R xs
      → Pairwise R (update_first p (λ _. t') xs)
  Pairwise-update_first R [] t t' h f g k = tt
  Pairwise-update_first R (x ∷ xs) t t' h f g (q, k) = elim (Bool-cases (p x)) [
    | inl e ↦
        rw e (All-mono (R t) (R t') xs f (subst (λ y. All (R y) xs) (some_eq (rw e at h)) q), k)
    | inr e ↦ rw e (
      All-update_first_at (R x) xs t t' (rw e at h) (g x) q,
      Pairwise-update_first R xs t t' (rw e at h) f g k,
    )
  ]

  -- The new element is unrelated to every other.
  pub Pairwise-update_first_fresh :
      (R : A → A → Type 0) (xs : List A) (t' : A)
      → All (R t') xs
      → All (λ y. R y t') xs
      → Pairwise R xs
      → Pairwise R (update_first p (λ _. t') xs)
  Pairwise-update_first_fresh R [] t' f g k = tt
  Pairwise-update_first_fresh R (x ∷ xs) t' (_, f) (r, g) (q, k) = elim (Bool-cases (p x)) [
    | inl e ↦ rw e (f, k)
    | inr e ↦ rw e (All-update_first (R x) xs t' q r, Pairwise-update_first_fresh R xs t' f g k)
  ]

  -- A change of the first match is not seen by a test that neither the old nor the new one passes.
  module _ (q : A → Bool) where
    pub filter-update_first_ne :
        (xs : List A) (t t' : A)
        → find? p xs ≡ some t
        → q t ≡ false
        → q t' ≡ false
        → filter q (update_first p (λ _. t') xs) ≡ filter q xs
    filter-update_first_ne [] t t' h k l = refl
    filter-update_first_ne (x ∷ xs) t t' h k l = ground (arith, filter-update_first_ne xs t t')

    pub filter-remove_first_ne :
        (xs : List A) (t : A)
        → find? p xs ≡ some t
        → q t ≡ false
        → filter q (remove_first p xs) ≡ filter q xs
    filter-remove_first_ne [] t h k = refl
    filter-remove_first_ne (x ∷ xs) t h k = ground (arith, filter-remove_first_ne xs t)

    pub find?-update_first_ne :
        (xs : List A) (t t' : A)
        → find? p xs ≡ some t
        → q t ≡ false
        → q t' ≡ false
        → find? q (update_first p (λ _. t') xs) ≡ find? q xs
    find?-update_first_ne [] t t' h k l = refl
    find?-update_first_ne (x ∷ xs) t t' h k l = ground (arith, find?-update_first_ne xs t t')

    pub find?-remove_first_ne :
        (xs : List A) (t : A)
        → find? p xs ≡ some t
        → q t ≡ false
        → find? q (remove_first p xs) ≡ find? q xs
    find?-remove_first_ne [] t h k = refl
    find?-remove_first_ne (x ∷ xs) t h k = ground (arith, find?-remove_first_ne xs t)
