-- ===== src/Prelude/Counting.antt =====
-- A list of numbers read as a multiset: how often each number stands in it.
use Prim.Native.Nat.{ℕ, zero, suc, ◌+◌, ◌≤◌}
use mathlib.Core.Path.{◌≡◌, refl, ap}
use mathlib.Core.Bool.{Bool, true, false, not, ◌&&◌, ◌||◌}
use mathlib.Core.List.{List, [], ◌∷◌, ◌++◌, map, reverse, reverse-cons}
use native.Mathlib.Omega.{arith}
use fledger.Prelude.Tests.{◌==◌, ==_iff, ==-refl, if◌then◌else◌}
use fledger.Prelude.Lists.{retain, drop, length, All, length-retain-le}

-- `Vec::contains`.
abbrev pub contains : List ℕ → ℕ → Bool
contains [] y = false
contains (x ∷ xs) y = x == y || contains xs y

abbrev pub count : ℕ → List ℕ → ℕ
count y [] = 0
count y (x ∷ xs) = (if x == y then 1 else 0) + count y xs

-- No number stands twice.
abbrev pub IsDistinct : List ℕ → Type 0
IsDistinct xs = (y : ℕ) → count y xs ≤ 1

pub count-append : (y : ℕ) (xs ys : List ℕ) → count y (xs ++ ys) ≡ count y xs + count y ys
count-append y [] ys = omega arith
count-append y (x ∷ xs) ys = omega (arith, count-append y xs ys)

pub count-reverse : (y : ℕ) (xs : List ℕ) → count y (reverse xs) ≡ count y xs
count-reverse y [] = refl
count-reverse y (x ∷ xs) = omega (
  arith,
  ap (count y) (reverse-cons x xs),
  count-append y (reverse xs) (x ∷ []),
  count-reverse y xs,
)

pub count-retain :
    (y : ℕ) (p : ℕ → Bool) (xs : List ℕ) → count y (retain p xs) ≡ (if p y then count y xs else 0)
count-retain y p [] = ground arith
count-retain y p (x ∷ xs) = ground (arith, count-retain y p xs)

pub contains-count :
    (y : ℕ) (xs : List ℕ) → contains xs y ≡ (if count y xs == 0 then false else true)
contains-count y [] = refl
contains-count y (x ∷ xs) = ground (arith, contains-count y xs)

pub contains-append :
    (xs ys : List ℕ) (y : ℕ) → contains (xs ++ ys) y ≡ (contains xs y || contains ys y)
contains-append [] ys y = refl
contains-append (x ∷ xs) ys y = ground (arith, contains-append xs ys y)

pub contains-retain :
    (p : ℕ → Bool) (xs : List ℕ) (y : ℕ) → contains (retain p xs) y ≡ (contains xs y && p y)
contains-retain p [] y = refl
contains-retain p (x ∷ xs) y = ground (arith, contains-retain p xs y)

module _ {ℓ} {A : Type ℓ} (f : A → ℕ) (y : ℕ) where
  pub count-map-append :
      (xs ys : List A) → count y (map f (xs ++ ys)) ≡ count y (map f xs) + count y (map f ys)
  count-map-append [] ys = omega arith
  count-map-append (x ∷ xs) ys = omega (arith, count-map-append xs ys)

  pub count-map-drop-le : (n : ℕ) (xs : List A) → count y (map f (drop n xs)) ≤ count y (map f xs)
  count-map-drop-le zero xs = omega arith
  count-map-drop-le (suc n) [] = omega arith
  count-map-drop-le (suc n) (x ∷ xs) = omega (arith, count-map-drop-le n xs)

  pub count-map-retain-le :
      (p : A → Bool) (xs : List A) → count y (map f (retain p xs)) ≤ count y (map f xs)
  count-map-retain-le p [] = omega arith
  count-map-retain-le p (x ∷ xs) = ground (arith, count-map-retain-le p xs)

length-retain-other :
    (x : ℕ) (ys : List ℕ)
    → contains ys x ≡ true
    → suc (length (retain (λ y. not (x == y)) ys)) ≤ length ys
length-retain-other x [] h = absurd (cc)
length-retain-other x (y ∷ ys) h = ground (
  arith,
  ==_iff x y,
  ==_iff y x,
  length-retain-other x ys,
  length-retain-le (λ y. not (x == y)) ys,
)

-- Distinct numbers that all stand in a list are no more than the list has.
pub length-le-distinct :
    (xs ys : List ℕ) → IsDistinct xs → All (λ x. contains ys x ≡ true) xs → length xs ≤ length ys
length-le-distinct [] ys d h = omega arith
length-le-distinct (x ∷ xs) ys d h =
    let others = λ (y : ℕ). not (x == y) in
    let rest : IsDistinct xs = λ y. omega (arith, d y) in
    let fresh : count x xs ≡ 0 = ground (arith, d x, ==-refl x) in
    let kept = All-others xs fresh h.1 in
    omega (arith, length-le-distinct xs (retain others ys) rest kept, length-retain-other x ys h.0)
  where
    All-others :
        (zs : List ℕ)
        → count x zs ≡ 0
        → All (λ z. contains ys z ≡ true) zs
        → All (λ z. contains (retain (λ y. not (x == y)) ys) z ≡ true) zs
    All-others [] f k = tt
    All-others (z ∷ zs) f k = (
      ground (arith, contains-retain (λ y. not (x == y)) ys z, ==_iff x z, ==_iff z x, k.0),
      All-others zs (ground arith) k.1,
    )

pub append_one-IsDistinct :
    (xs : List ℕ) (y : ℕ) → contains xs y ≡ false → IsDistinct xs → IsDistinct (xs ++ y ∷ [])
append_one-IsDistinct xs y new d =
    λ z. ground (arith, count-append z xs (y ∷ []), contains-count y xs, ==_iff y z, d z)

pub contains-reverse : (xs : List ℕ) (y : ℕ) → contains (reverse xs) y ≡ contains xs y
contains-reverse xs y =
    ground (arith, contains-count y (reverse xs), contains-count y xs, count-reverse y xs)
