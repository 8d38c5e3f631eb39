-- ===== src/Prelude/Lists.antt =====
-- Lists measured by native numbers, under the library's names, and the iterator methods that the
-- sources use.
use Prim.Native.Nat.{ℕ, zero, suc, ◌+◌, ◌-◌, ◌≤◌, ◌<◌, min}
use mathlib.Core.Path.{◌≡◌, refl, sym, ap}
use mathlib.Core.Bool.{Bool, true, false, ◌&&◌, ◌||◌}
use mathlib.Core.Option.{Option, none, some}
use mathlib.Core.List.{List, [], ◌∷◌, ◌++◌, map, reverse, reverse-cons, map-append}
use native.Mathlib.Omega.{arith}
use fledger.Prelude.Tests.{if◌then◌else◌}

module _ {ℓ} {A : Type ℓ} where
  abbrev pub length : List A → ℕ
  length [] = 0
  length (x ∷ xs) = suc (length xs)

  abbrev pub take : ℕ → List A → List A
  take zero xs = []
  take (suc n) [] = []
  take (suc n) (x ∷ xs) = x ∷ take n xs

  abbrev pub drop : ℕ → List A → List A
  drop zero xs = xs
  drop (suc n) [] = []
  drop (suc n) (x ∷ xs) = drop n xs

  abbrev pub get_elem? : List A → ℕ → Option A
  get_elem? [] i = none
  get_elem? (x ∷ xs) zero = some x
  get_elem? (x ∷ xs) (suc i) = get_elem? xs i

  -- `Vec::remove`, without the element that it returns.
  abbrev pub erase_idx : List A → ℕ → List A
  erase_idx [] i = []
  erase_idx (x ∷ xs) zero = xs
  erase_idx (x ∷ xs) (suc i) = x ∷ erase_idx xs i

  -- `Vec::retain`, and `filter` of an iterator.
  abbrev pub retain : (A → Bool) → List A → List A
  retain p [] = []
  retain p (x ∷ xs) = let rest = retain p xs in if p x then x ∷ rest else rest

  abbrev pub take_while : (A → Bool) → List A → List A
  take_while p [] = []
  take_while p (x ∷ xs) = let rest = take_while p xs in if p x then x ∷ rest else []

  -- `find` of an iterator.
  abbrev pub find : (A → Bool) → List A → Option A
  find p [] = none
  find p (x ∷ xs) = let rest = find p xs in if p x then some x else rest

  abbrev pub any : (A → Bool) → List A → Bool
  any p [] = false
  any p (x ∷ xs) = p x || any p xs

  abbrev pub all : (A → Bool) → List A → Bool
  all p [] = true
  all p (x ∷ xs) = p x && all p xs

  abbrev pub is_empty : List A → Bool
  is_empty [] = true
  is_empty (x ∷ xs) = false

  abbrev pub All {κ} : (A → Type κ) → List A → Type κ
  All P [] = Unit
  All P (x ∷ xs) = P x × All P xs

module _ {ℓ κ} {A : Type ℓ} {B : Type κ} where
  abbrev pub flat_map : (A → List B) → List A → List B
  flat_map f [] = []
  flat_map f (x ∷ xs) = f x ++ flat_map f xs

  abbrev pub filter_map : (A → Option B) → List A → List B
  filter_map f [] = []
  filter_map f (x ∷ xs) = elim (f x) [ none ↦ filter_map f xs | some b ↦ b ∷ filter_map f xs ]

  pub map-reverse : (f : A → B) (xs : List A) → map f (reverse xs) ≡ reverse (map f xs)
  map-reverse f [] = refl
  map-reverse f (x ∷ xs) =
      rw (reverse-cons x xs, map-append f (reverse xs) (x ∷ []), map-reverse f xs)
        (sym (reverse-cons (f x) (map f xs)))

  pub length-map : (f : A → B) (xs : List A) → length (map f xs) ≡ length xs
  length-map f [] = refl
  length-map f (x ∷ xs) = ap suc (length-map f xs)

module _ {ℓ} {A : Type ℓ} where
  pub length-append : (xs ys : List A) → length (xs ++ ys) ≡ length xs + length ys
  length-append [] ys = omega arith
  length-append (x ∷ xs) ys = omega (arith, length-append xs ys)

  pub length-reverse : (xs : List A) → length (reverse xs) ≡ length xs
  length-reverse [] = refl
  length-reverse (x ∷ xs) =
      omega (
        arith,
        ap length (reverse-cons x xs),
        length-append (reverse xs) (x ∷ []),
        length-reverse xs,
      )

  pub length-take : (n : ℕ) (xs : List A) → length (take n xs) ≡ min n (length xs)
  length-take zero xs = omega arith
  length-take (suc n) [] = omega arith
  length-take (suc n) (x ∷ xs) = omega (arith, length-take n xs)

  pub length-drop : (n : ℕ) (xs : List A) → length (drop n xs) ≡ length xs - n
  length-drop zero xs = omega arith
  length-drop (suc n) [] = omega arith
  length-drop (suc n) (x ∷ xs) = omega (arith, length-drop n xs)

  pub take-append-drop : (n : ℕ) (xs : List A) → take n xs ++ drop n xs ≡ xs
  take-append-drop zero xs = refl
  take-append-drop (suc n) [] = refl
  take-append-drop (suc n) (x ∷ xs) = ap (◌∷◌ x) (take-append-drop n xs)

  -- What is dropped lies within the first of two parts.
  pub drop-append : (n : ℕ) (xs ys : List A) → n ≤ length xs → drop n (xs ++ ys) ≡ drop n xs ++ ys
  drop-append zero xs ys h = refl
  drop-append (suc n) [] ys h = absurd (omega arith)
  drop-append (suc n) (x ∷ xs) ys h = drop-append n xs ys (omega arith)

  pub retain-append :
      (p : A → Bool) (xs ys : List A) → retain p (xs ++ ys) ≡ retain p xs ++ retain p ys
  retain-append p [] ys = refl
  retain-append p (x ∷ xs) ys = ground (arith, retain-append p xs ys)

  pub length-retain-le : (p : A → Bool) (xs : List A) → length (retain p xs) ≤ length xs
  length-retain-le p [] = omega arith
  length-retain-le p (x ∷ xs) = ground (arith, length-retain-le p xs)

  -- What `take_while` left behind.
  abbrev drop_while : (A → Bool) → List A → List A
  drop_while p [] = []
  drop_while p (x ∷ xs) = let rest = drop_while p xs in if p x then rest else x ∷ xs

  take_while-append-drop_while :
      (p : A → Bool) (xs : List A) → take_while p xs ++ drop_while p xs ≡ xs
  take_while-append-drop_while p [] = refl
  take_while-append-drop_while p (x ∷ xs) = ground (arith, take_while-append-drop_while p xs)

  any-append : (p : A → Bool) (xs ys : List A) → any p (xs ++ ys) ≡ (any p xs || any p ys)
  any-append p [] ys = refl
  any-append p (x ∷ xs) ys = ground (arith, any-append p xs ys)

  pub retain_none : (p : A → Bool) (xs : List A) → All (λ x. p x ≡ false) xs → retain p xs ≡ []
  retain_none p [] h = refl
  retain_none p (x ∷ xs) h = ground (arith, retain_none p xs h.1)

  pub retain_all : (p : A → Bool) (xs : List A) → All (λ x. p x ≡ true) xs → retain p xs ≡ xs
  retain_all p [] h = refl
  retain_all p (x ∷ xs) h = ground (arith, retain_all p xs h.1)

  pub get_elem?-append_middle :
      (xs : List A) (y : A) (ys : List A) → get_elem? (xs ++ y ∷ ys) (length xs) ≡ some y
  get_elem?-append_middle [] y ys = refl
  get_elem?-append_middle (x ∷ xs) y ys = get_elem?-append_middle xs y ys

  pub get_elem?-length : (xs : List A) → get_elem? xs (length xs) ≡ none
  get_elem?-length [] = refl
  get_elem?-length (x ∷ xs) = get_elem?-length xs

  pub erase_idx-append_middle :
      (xs : List A) (y : A) (ys : List A) → erase_idx (xs ++ y ∷ ys) (length xs) ≡ xs ++ ys
  erase_idx-append_middle [] y ys = refl
  erase_idx-append_middle (x ∷ xs) y ys = ap (◌∷◌ x) (erase_idx-append_middle xs y ys)

  pub length-append_one : (xs : List A) (y : A) → length (xs ++ y ∷ []) ≡ suc (length xs)
  length-append_one [] y = refl
  length-append_one (x ∷ xs) y = ap suc (length-append_one xs y)

  pub drop_pos : (n : ℕ) (x : A) (xs : List A) → 0 < n → drop n (x ∷ xs) ≡ drop (n - 1) xs
  drop_pos zero x xs h = absurd (omega arith)
  drop_pos (suc n) x xs h = ap (λ k. drop k xs) (omega arith)

  pub All-drop {κ} : (P : A → Type κ) (n : ℕ) (xs : List A) → All P xs → All P (drop n xs)
  All-drop P zero xs h = h
  All-drop P (suc n) [] h = tt
  All-drop P (suc n) (x ∷ xs) h = All-drop P n xs h.1

  pub All-retain {κ} :
      (P : A → Type κ) (p : A → Bool) (xs : List A) → All P xs → All P (retain p xs)
  All-retain P p [] h = tt
  All-retain P p (x ∷ xs) h = go (p x) (All-retain P p xs h.1)
    where
      go : (b : Bool) → All P (retain p xs) → All P (if b then x ∷ retain p xs else retain p xs)
      go true rest = (h.0, rest)
      go false rest = rest

  pub All-weaken {κ ι} :
      (P : A → Type κ) (Q : A → Type ι) (xs : List A) → ((x : A) → P x → Q x) → All P xs → All Q xs
  All-weaken P Q [] f h = tt
  All-weaken P Q (x ∷ xs) f h = (f x h.0, All-weaken P Q xs f h.1)

  pub All-append {κ} : (P : A → Type κ) (xs ys : List A) → All P xs → All P ys → All P (xs ++ ys)
  All-append P [] ys h k = k
  All-append P (x ∷ xs) ys h k = (h.0, All-append P xs ys h.1 k)

module _ {ℓ κ ι} {A : Type ℓ} {B : Type κ} (P : A → Type ι) (Q : B → Type ι) where
  pub All-map : (f : A → B) (xs : List A) → ((x : A) → P x → Q (f x)) → All P xs → All Q (map f xs)
  All-map f [] k h = tt
  All-map f (x ∷ xs) k h = (k x h.0, All-map f xs k h.1)

  pub All-flat_map :
      (f : A → List B) (xs : List A)
      → ((x : A) → P x → All Q (f x))
      → All P xs
      → All Q (flat_map f xs)
  All-flat_map f [] k h = tt
  All-flat_map f (x ∷ xs) k h =
      All-append Q (f x) (flat_map f xs) (k x h.0) (All-flat_map f xs k h.1)

module _ {ℓ κ} {A : Type ℓ} {B : Type κ} (f : A → Option B) where
  pub filter_map-append :
      (xs ys : List A) → filter_map f (xs ++ ys) ≡ filter_map f xs ++ filter_map f ys
  filter_map-append [] ys = refl
  filter_map-append (x ∷ xs) ys = go (f x) (filter_map-append xs ys)
    where
      go :
          (o : Option B)
          → filter_map f (xs ++ ys) ≡ filter_map f xs ++ filter_map f ys
          → elim o [ none ↦ filter_map f (xs ++ ys) | some b ↦ b ∷ filter_map f (xs ++ ys) ]
            ≡ elim o [ none ↦ filter_map f xs | some b ↦ b ∷ filter_map f xs ] ++ filter_map f ys
      go none ih = ih
      go (some b) ih = ap (◌∷◌ b) ih
