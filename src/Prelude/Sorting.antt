-- ===== src/Prelude/Sorting.antt =====
-- `sort_by` of the standard library: a stable sort. `less a b` says that the comparison function
-- puts `a` strictly before `b`.
use mathlib.Core.Path.{◌≡◌, refl, ap, ◌∙◌}
use mathlib.Core.Logic.{inl, inr}
use mathlib.Core.Bool.{Bool, true, false, ◌||◌}
use mathlib.Core.List.{List, [], ◌∷◌, map}
use Prim.Native.Nat.{ℕ, zero, suc}
use native.Mathlib.Omega.{arith}
use fledger.Prelude.Tests.{if◌then◌else◌, Bool-cases}
use fledger.Prelude.Lists.{length, retain, take, drop, All, any}
use fledger.Prelude.Counting.{count}

module _ {ℓ} {A : Type ℓ} (less : A → A → Bool) where
  -- `x` stood before all of the list, so it stays before its equals.
  abbrev pub insert_sorted : A → List A → List A
  insert_sorted x [] = x ∷ []
  insert_sorted x (y ∷ ys) =
      let rest = insert_sorted x ys in if less y x then y ∷ rest else x ∷ y ∷ ys

  unfoldable pub sort_by : List A → List A
  sort_by [] = []
  sort_by (x ∷ xs) = insert_sorted x (sort_by xs)

  -- No element stands strictly before one on its left.
  abbrev pub IsSorted : List A → Type 0
  IsSorted [] = Unit {0}
  IsSorted (x ∷ xs) = All (λ y. less y x ≡ false) xs × IsSorted xs

  length-insert_sorted : (x : A) (xs : List A) → length (insert_sorted x xs) ≡ suc (length xs)
  length-insert_sorted x [] = refl
  length-insert_sorted x (y ∷ ys) = ground (arith, length-insert_sorted x ys)

  pub length-sort_by : (xs : List A) → length (sort_by xs) ≡ length xs
  unfolding sort_by
  length-sort_by [] = refl
  length-sort_by (x ∷ xs) = length-insert_sorted x (sort_by xs) ∙ ap suc (length-sort_by xs)

  All-insert_sorted {κ} :
      (P : A → Type κ) (x : A) (xs : List A) → P x → All P xs → All P (insert_sorted x xs)
  All-insert_sorted P x [] h hs = (h, hs)
  All-insert_sorted P x (y ∷ ys) h hs = elim (Bool-cases (less y x)) [
    | inl e ↦ rw e (hs.0, All-insert_sorted P x ys h hs.1)
    | inr e ↦ rw e (h, hs)
  ]

  pub All-sort_by {κ} : (P : A → Type κ) (xs : List A) → All P xs → All P (sort_by xs)
  unfolding sort_by
  All-sort_by P [] h = tt
  All-sort_by P (x ∷ xs) h = All-insert_sorted P x (sort_by xs) h.0 (All-sort_by P xs h.1)

  any-insert_sorted :
      (p : A → Bool) (x : A) (xs : List A) → any p (insert_sorted x xs) ≡ (p x || any p xs)
  any-insert_sorted p x [] = refl
  any-insert_sorted p x (y ∷ ys) = ground (arith, any-insert_sorted p x ys)

  any-sort_by : (p : A → Bool) (xs : List A) → any p (sort_by xs) ≡ any p xs
  unfolding sort_by
  any-sort_by p [] = refl
  any-sort_by p (x ∷ xs) =
      any-insert_sorted p x (sort_by xs) ∙ ap (λ (b : Bool). p x || b) (any-sort_by p xs)

  count-insert_sorted :
      (f : A → ℕ) (n : ℕ) (x : A) (xs : List A)
      → count n (map f (insert_sorted x xs)) ≡ count n (map f (x ∷ xs))
  count-insert_sorted f n x [] = refl
  count-insert_sorted f n x (y ∷ ys) = ground (arith, count-insert_sorted f n x ys)

  -- Sorting moves the elements, and neither drops nor repeats one.
  pub count-sort_by :
      (f : A → ℕ) (n : ℕ) (xs : List A) → count n (map f (sort_by xs)) ≡ count n (map f xs)
  unfolding sort_by
  count-sort_by f n [] = refl
  count-sort_by f n (x ∷ xs) =
      omega (arith, count-insert_sorted f n x (sort_by xs), count-sort_by f n xs)

  length-retain-insert_sorted :
      (p : A → Bool) (x : A) (xs : List A)
      → length (retain p (insert_sorted x xs)) ≡ length (retain p (x ∷ xs))
  length-retain-insert_sorted p x [] = refl
  length-retain-insert_sorted p x (y ∷ ys) = ground (arith, length-retain-insert_sorted p x ys)

  pub length-retain-sort_by :
      (p : A → Bool) (xs : List A) → length (retain p (sort_by xs)) ≡ length (retain p xs)
  unfolding sort_by
  length-retain-sort_by p [] = refl
  length-retain-sort_by p (x ∷ xs) =
      ground (arith, length-retain-insert_sorted p x (sort_by xs), length-retain-sort_by p xs)

  count-retain-insert_sorted :
      (f : A → ℕ) (n : ℕ) (p : A → Bool) (x : A) (xs : List A)
      → count n (map f (retain p (insert_sorted x xs))) ≡ count n (map f (retain p (x ∷ xs)))
  count-retain-insert_sorted f n p x [] = refl
  count-retain-insert_sorted f n p x (y ∷ ys) =
      ground (arith, count-retain-insert_sorted f n p x ys)

  pub count-retain-sort_by :
      (f : A → ℕ) (n : ℕ) (p : A → Bool) (xs : List A)
      → count n (map f (retain p (sort_by xs))) ≡ count n (map f (retain p xs))
  unfolding sort_by
  count-retain-sort_by f n p [] = refl
  count-retain-sort_by f n p (x ∷ xs) =
      ground (arith, count-retain-insert_sorted f n p x (sort_by xs), count-retain-sort_by f n p xs)

-- The laws of a strict order whose incomparable elements are equivalent.
pub record StrictOrder {ℓ} {A : Type ℓ} (less : A → A → Bool) : Type ℓ where
  pub asym : (a b : A) → less a b ≡ true → less b a ≡ false
  pub cotrans : (a b c : A) → less c b ≡ false → less b a ≡ false → less c a ≡ false

module _ {ℓ} {A : Type ℓ} (less : A → A → Bool) (o : StrictOrder less) where
  none_before :
      (x y : A) (ys : List A)
      → less y x ≡ false
      → All (λ z. less z y ≡ false) ys
      → All (λ z. less z x ≡ false) ys
  none_before x y [] h hs = tt
  none_before x y (z ∷ ys) h hs = (o.cotrans x y z hs.0 h, none_before x y ys h hs.1)

  insert_sorted-IsSorted :
      (x : A) (xs : List A) → IsSorted less xs → IsSorted less (insert_sorted less x xs)
  insert_sorted-IsSorted x [] s = (tt, tt)
  insert_sorted-IsSorted x (y ∷ ys) s = elim (Bool-cases (less y x)) [
    | inl e ↦ rw e (
      All-insert_sorted less (λ z. less z y ≡ false) x ys (o.asym y x e) s.0,
      insert_sorted-IsSorted x ys s.1,
    )
    | inr e ↦ rw e ((e, none_before x y ys e s.0), s)
  ]

  pub sort_by-IsSorted : (xs : List A) → IsSorted less (sort_by less xs)
  unfolding sort_by
  sort_by-IsSorted [] = tt
  sort_by-IsSorted (x ∷ xs) = insert_sorted-IsSorted x (sort_by less xs) (sort_by-IsSorted xs)

module _ {ℓ} {A : Type ℓ} (less : A → A → Bool) where
  -- In a sorted list nothing behind a cut stands strictly before what is in front of it.
  pub cut-IsSorted :
      (n : ℕ) (xs : List A)
      → IsSorted less xs
      → All (λ a. All (λ b. less b a ≡ false) (drop n xs)) (take n xs)
  cut-IsSorted zero xs s = tt
  cut-IsSorted (suc n) [] s = tt
  cut-IsSorted (suc n) (x ∷ xs) s = (All-drop n xs s.0, cut-IsSorted n xs s.1)
    where
      All-drop :
          (n : ℕ) (xs : List A)
          → All (λ b. less b x ≡ false) xs
          → All (λ b. less b x ≡ false) (drop n xs)
      All-drop zero xs h = h
      All-drop (suc n) [] h = tt
      All-drop (suc n) (y ∷ xs) h = All-drop n xs h.1
