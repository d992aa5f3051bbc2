-- ===== src/Base/Lists.antt =====
-- Lists measured by native numbers, and the loops that the program writes as comprehensions.
use Prim.Native.Nat.{ℕ, zero, suc, ◌+◌, ◌-◌, ◌≤◌, min}
use mathlib.Core.Path.{◌≡◌, refl, ap}
use mathlib.Core.Bool.{Bool, true, false, ◌||◌}
use mathlib.Core.Logic.{◌⊎◌, inl, inr}
use mathlib.Core.List.{List, [], ◌∷◌, ◌++◌, map}
use Prim.Native.String.{String}
use text.Mathlib.Text.{◌==◌}
use native.Mathlib.Omega.{arith}
use clipper_ai.Base.Tests.{if◌then◌else◌}

module _ {ℓ} {A : Type ℓ} where
  abbrev pub length : List A → ℕ
  length [] = 0
  length (x ∷ xs) = suc (length xs)

  -- `l[:n]`
  abbrev pub take : ℕ → List A → List A
  take zero xs = []
  take (suc n) [] = []
  take (suc n) (x ∷ xs) = x ∷ take n xs

  -- `l[n:]`
  abbrev pub drop : ℕ → List A → List A
  drop zero xs = xs
  drop (suc n) [] = []
  drop (suc n) (x ∷ xs) = drop n xs

  -- `[x for x in l if p(x)]`
  abbrev pub filter : (A → Bool) → List A → List A
  filter p [] = []
  filter p (x ∷ xs) = let rest = filter p xs in if p x then x ∷ rest else rest

  abbrev pub any : (A → Bool) → List A → Bool
  any p [] = false
  any p (x ∷ xs) = p x || any p xs

  abbrev pub All {κ} : (A → Type κ) → List A → Type κ
  All P [] = Unit
  All P (x ∷ xs) = P x × All P xs

module _ {A : Type 0} where
  -- A place in the list where `x` stands.
  abbrev pub Occurs : A → List A → Type 0
  Occurs x [] = ⊥
  Occurs x (y ∷ ys) = (x ≡ y) ⊎ Occurs x ys

-- `k in l` for texts
abbrev pub contains : String → List String → Bool
contains k [] = false
contains k (j ∷ js) = k == j || contains k js

module _ {ℓ} {A : Type ℓ} where
  pub length-append : (xs ys : List A) → length (xs ++ ys) ≡ length xs + length ys
  length-append [] ys = omega arith
  length-append (x ∷ xs) ys = omega (arith, length-append xs ys)

  pub length-take : (n : ℕ) (xs : List A) → length (take n xs) ≡ min n (length xs)
  length-take zero xs = omega arith
  length-take (suc n) [] = omega arith
  length-take (suc n) (x ∷ xs) = omega (arith, length-take n xs)

  pub length-drop : (n : ℕ) (xs : List A) → length (drop n xs) ≡ length xs - n
  length-drop zero xs = omega arith
  length-drop (suc n) [] = omega arith
  length-drop (suc n) (x ∷ xs) = omega (arith, length-drop n xs)

  pub take-append-drop : (n : ℕ) (xs : List A) → take n xs ++ drop n xs ≡ xs
  take-append-drop zero xs = refl
  take-append-drop (suc n) [] = refl
  take-append-drop (suc n) (x ∷ xs) = ap (◌∷◌ x) (take-append-drop n xs)

  pub length-filter-le : (p : A → Bool) (xs : List A) → length (filter p xs) ≤ length xs
  length-filter-le p [] = omega arith
  length-filter-le p (x ∷ xs) = ground (arith, length-filter-le p xs)

module _ {A : Type 0} where
  pub Occurs-filter :
      (p : A → Bool) (a : A) (xs : List A) → Occurs a (filter p xs) → Occurs a xs × (p a ≡ true)
  Occurs-filter p a [] h = absurd h
  Occurs-filter p a (x ∷ xs) h = ground (arith, Occurs-filter p a xs)

  pub filter-Occurs :
      (p : A → Bool) (a : A) (xs : List A) → Occurs a xs → p a ≡ true → Occurs a (filter p xs)
  filter-Occurs p a [] h e = absurd h
  filter-Occurs p a (x ∷ xs) h e = ground (arith, filter-Occurs p a xs)

  pub Occurs-take : (n : ℕ) (a : A) (xs : List A) → Occurs a (take n xs) → Occurs a xs
  Occurs-take zero a xs h = absurd h
  Occurs-take (suc n) a [] h = absurd h
  Occurs-take (suc n) a (x ∷ xs) (inl e) = inl e
  Occurs-take (suc n) a (x ∷ xs) (inr h) = inr (Occurs-take n a xs h)

module _ {A : Type 0} where
  pub All-Occurs {κ} : (P : A → Type κ) (a : A) (xs : List A) → All P xs → Occurs a xs → P a
  All-Occurs P a [] h m = absurd m
  All-Occurs P a (x ∷ xs) h (inl e) = rw e h.0
  All-Occurs P a (x ∷ xs) h (inr m) = All-Occurs P a xs h.1 m

  pub All-of_Occurs {κ} : (P : A → Type κ) (xs : List A) → ((a : A) → Occurs a xs → P a) → All P xs
  All-of_Occurs P [] h = tt
  All-of_Occurs P (x ∷ xs) h = (h x (inl refl), All-of_Occurs P xs (λ a m. h a (inr m)))

  pub take-drop-Occurs :
      (n : ℕ) (a : A) (xs : List A) → Occurs a xs → Occurs a (take n xs) ⊎ Occurs a (drop n xs)
  take-drop-Occurs zero a xs h = inr h
  take-drop-Occurs (suc n) a [] h = absurd h
  take-drop-Occurs (suc n) a (x ∷ xs) (inl e) = inl (inl e)
  take-drop-Occurs (suc n) a (x ∷ xs) (inr h) = elim (take-drop-Occurs n a xs h) [
    | inl m ↦ inl (inr m)
    | inr m ↦ inr m
  ]

  -- Where something is left behind, the front is full.
  pub length-take_full :
      (n : ℕ) (a : A) (xs : List A) → Occurs a (drop n xs) → length (take n xs) ≡ n
  length-take_full zero a xs h = refl
  length-take_full (suc n) a [] h = absurd h
  length-take_full (suc n) a (x ∷ xs) h = ap suc (length-take_full n a xs h)

  pub length-map : {B : Type 0} (f : A → B) (xs : List A) → length (map f xs) ≡ length xs
  length-map f [] = refl
  length-map f (x ∷ xs) = ap suc (length-map f xs)

  pub All-map :
      {B : Type 0} (P : B → Type 0) (f : A → B) (xs : List A)
      → All (λ a. P (f a)) xs
      → All P (map f xs)
  All-map P f [] h = tt
  All-map P f (x ∷ xs) h = (h.0, All-map P f xs h.1)

  pub All-map-Occurs :
      {B : Type 0} (P : B → Type 0) (f : A → B) (xs : List A)
      → ((a : A) → Occurs a xs → P (f a))
      → All P (map f xs)
  All-map-Occurs P f xs h = All-map P f xs (All-of_Occurs (λ a. P (f a)) xs h)

  pub take_all : (n : ℕ) (xs : List A) → length xs ≤ n → take n xs ≡ xs
  take_all zero [] h = refl
  take_all zero (x ∷ xs) h = absurd (omega arith)
  take_all (suc n) [] h = refl
  take_all (suc n) (x ∷ xs) h = ap (◌∷◌ x) (take_all n xs (omega arith))

  pub nil_of_no_Occurs : (xs : List A) → ((a : A) → Occurs a xs → ⊥) → xs ≡ []
  nil_of_no_Occurs [] h = refl
  nil_of_no_Occurs (x ∷ xs) h = absurd (h x (inl refl))
