-- ===== src/Prelude/Membership.antt =====
-- Elements of lists that are searched, mapped or filtered.
use mathlib.Core.Path.{◌≡◌, refl, ap, ◌∙◌}
use mathlib.Core.Logic.{inl, inr}
use mathlib.Core.Bool.{Bool, true, false}
use mathlib.Core.List.{List, [], ◌∷◌, map}
use tinypanel_hub.Prelude.Tests.{Bool-cases}
use tinypanel_hub.Prelude.Lists.{any, filter}
use tinypanel_hub.Prelude.Predicates.{In}

pub any-In :
    {A : Type 0} (p : A → Bool) (xs : List A) → any p xs ≡ true → (x : A) × In x xs × (p x ≡ true)
any-In p [] h = absurd (false_true h)
  where
    false_true : false ≡ true → ⊥
    false_true e = cc
any-In p (x ∷ xs) h = elim (Bool-cases (p x)) [
  | inl e ↦ (x, inl refl, e)
  | inr e ↦ let (y, i, q) = any-In p xs (rw e at h) in (y, inr i, q)
]

pub In-map :
    {A B : Type 0} (f : A → B) (b : B) (xs : List A)
    → In b (map f xs)
    → (a : A) × In a xs × (b ≡ f a)
In-map f b [] i = elim i [ ]
In-map f b (x ∷ xs) (inl e) = (x, inl refl, e)
In-map f b (x ∷ xs) (inr i) = let (a, j, e) = In-map f b xs i in (a, inr j, e)

pub In-filter :
    {A : Type 0} (p : A → Bool) (a : A) (xs : List A) → In a (filter p xs) → In a xs × (p a ≡ true)
In-filter p a [] i = elim i [ ]
In-filter p a (x ∷ xs) i = elim (Bool-cases (p x)) [
  | inr e ↦ let (j, q) = In-filter p a xs (rw e at i) in (inr j, q)
  | inl e ↦ elim (rw e at i) [
    | inl same ↦ (inl same, ap p same ∙ e)
    | inr j ↦ let (k, q) = In-filter p a xs j in (inr k, q)
  ]
]
