-- ===== src/Prelude/Maps.antt =====
-- `HashMap` with numbers as keys: an association list in the order of iteration. A new key comes
-- last; the theorems about maps are stated for every order of the entries.
use Prim.Native.Nat.{ℕ, suc, ◌+◌}
use mathlib.Core.Path.{◌≡◌, refl, ap, ◌∙◌, subst}
use mathlib.Core.Bool.{Bool, true, false, not, ◌&&◌, ◌||◌}
use mathlib.Core.Option.{Option, none, some}
use mathlib.Core.Logic.{inl, inr}
use mathlib.Core.List.{List, [], ◌∷◌, ◌++◌, map}
use native.Mathlib.Omega.{arith}
use fledger.Prelude.Tests.{◌==◌, ==_iff, ==-refl, if◌then◌else◌, Bool-cases, is_some}
use fledger.Prelude.Lists.{length, length-map, retain, All, All-retain}
use fledger.Prelude.Counting.{count, contains, IsDistinct}
use fledger.Prelude.Sorting.{insert_sorted, sort_by, count-sort_by}

module _ {ℓ} where
  abbrev pub Map : Type ℓ → Type ℓ
  Map V = List (ℕ × V)

module _ {ℓ} {V : Type ℓ} where
  abbrev pub keys : Map V → List ℕ
  keys = map (λ e. e.0)

  abbrev pub values : Map V → List V
  values = map (λ e. e.1)

  abbrev pub get : ℕ → Map V → Option V
  get k [] = none
  get k (e ∷ m) = if e.0 == k then some e.1 else get k m

  abbrev pub contains_key : Map V → ℕ → Bool
  contains_key m k = is_some (get k m)

  abbrev pub insert : ℕ → V → Map V → Map V
  insert k v [] = (k, v) ∷ []
  insert k v (e ∷ m) = if e.0 == k then (k, v) ∷ m else e ∷ insert k v m

  abbrev pub remove : ℕ → Map V → Map V
  remove k = retain (λ e. not (e.0 == k))

  abbrev pub remove_all : List ℕ → Map V → Map V
  remove_all [] m = m
  remove_all (k ∷ ks) m = remove_all ks (remove k m)

  pub get-insert :
      (k j : ℕ) (v : V) (m : Map V) → get j (insert k v m) ≡ (if k == j then some v else get j m)
  get-insert k j v [] = refl
  get-insert k j v (e ∷ m) = ground (arith, get-insert k j v m)

  pub get-remove : (k j : ℕ) (m : Map V) → get j (remove k m) ≡ (if k == j then none else get j m)
  get-remove k j [] = ground arith
  get-remove k j (e ∷ m) = ground (arith, get-remove k j m)

  pub get-count : (k : ℕ) (m : Map V) → is_some (get k m) ≡ not (count k (keys m) == 0)
  get-count k [] = refl
  get-count k (e ∷ m) = ground (arith, get-count k m)

  pub count-insert :
      (k j : ℕ) (v : V) (m : Map V)
      → count j (keys (insert k v m)) ≡ (
          if k == j
          then (if count j (keys m) == 0 then 1 else count j (keys m))
          else count j (keys m))
  count-insert k j v [] = ground arith
  count-insert k j v (e ∷ m) = ground (arith, count-insert k j v m)

  pub count-remove :
      (k j : ℕ) (m : Map V) → count j (keys (remove k m)) ≡ (if k == j then 0 else count j (keys m))
  count-remove k j [] = ground arith
  count-remove k j (e ∷ m) = ground (arith, count-remove k j m)

  pub insert-IsDistinct :
      (k : ℕ) (v : V) (m : Map V) → IsDistinct (keys m) → IsDistinct (keys (insert k v m))
  insert-IsDistinct k v m d = λ j. ground (arith, count-insert k j v m, d j)

  pub remove-IsDistinct : (k : ℕ) (m : Map V) → IsDistinct (keys m) → IsDistinct (keys (remove k m))
  remove-IsDistinct k m d = λ j. ground (arith, count-remove k j m, d j)

  pub remove_all-IsDistinct :
      (ks : List ℕ) (m : Map V) → IsDistinct (keys m) → IsDistinct (keys (remove_all ks m))
  remove_all-IsDistinct [] m d = d
  remove_all-IsDistinct (k ∷ ks) m d =
      remove_all-IsDistinct ks (remove k m) (remove-IsDistinct k m d)

  pub get-remove_all :
      (ks : List ℕ) (j : ℕ) (m : Map V)
      → get j (remove_all ks m) ≡ (if contains ks j then none else get j m)
  get-remove_all [] j m = refl
  get-remove_all (k ∷ ks) j m = ground (arith, get-remove_all ks j (remove k m), get-remove k j m)

  retain-remove :
      (k : ℕ) (p : ℕ → Bool) (m : Map V)
      → retain (λ e. p e.0) (remove k m) ≡ retain (λ e. not (k == e.0) && p e.0) m
  retain-remove k p [] = refl
  retain-remove k p (e ∷ m) = ground (arith, retain-remove k p m)

  -- The removals one by one are one pass over the map.
  pub remove_all-retain :
      (ks : List ℕ) (m : Map V) → remove_all ks m ≡ retain (λ e. not (contains ks e.0)) m
  remove_all-retain [] m = go m
    where
      go : (m : Map V) → m ≡ retain (λ e. true) m
      go [] = refl
      go (e ∷ m) = ap (◌∷◌ e) (go m)
  remove_all-retain (k ∷ ks) m =
      remove_all-retain ks (remove k m)
      ∙ retain-remove k (λ j. not (contains ks j)) m
      ∙ ap (λ (p : ℕ → Bool). retain (λ e. p e.0) m) (λ i j. both_tests (k == j) (contains ks j) i)
    where
      both_tests : (a b : Bool) → (not a && not b) ≡ not (a || b)
      both_tests true b = refl
      both_tests false b = refl

  pub keys-insert_existing :
      (k : ℕ) (v w : V) (m : Map V) → get k m ≡ some w → keys (insert k v m) ≡ keys m
  keys-insert_existing k v w [] h = absurd (cc)
  keys-insert_existing k v w (e ∷ m) h = ground (arith, ==_iff e.0 k, keys-insert_existing k v w m)

  pub contains-keys : (k : ℕ) (v : V) (m : Map V) → get k m ≡ some v → contains (keys m) k ≡ true
  contains-keys k v [] h = absurd (cc)
  contains-keys k v (e ∷ m) h = ground (arith, contains-keys k v m)

  remove_absent : (k : ℕ) (m : Map V) → count k (keys m) ≡ 0 → remove k m ≡ m
  remove_absent k [] h = refl
  remove_absent k (e ∷ m) h = ground (arith, remove_absent k m)

  pub length-insert_new :
      (k : ℕ) (v : V) (m : Map V) → get k m ≡ none → length (insert k v m) ≡ suc (length m)
  length-insert_new k v [] h = refl
  length-insert_new k v (e ∷ m) h = ground (arith, length-insert_new k v m)

  pub insert_new : (k : ℕ) (v : V) (m : Map V) → get k m ≡ none → insert k v m ≡ m ++ (k, v) ∷ []
  insert_new k v [] h = refl
  insert_new k v (e ∷ m) h = ground (arith, insert_new k v m)

  -- An entry that is found stands in the list.
  pub All-get {κ} :
      (P : ℕ × V → Type κ) (k : ℕ) (v : V) (m : Map V) → All P m → get k m ≡ some v → P (k, v)
  All-get P k v [] a h = absurd (cc)
  All-get P k v (e ∷ m) a h = elim (Bool-cases (e.0 == k)) [
    | inl here ↦
        let same_key : e.0 ≡ k = (==_iff e.0 k).0 here in
        let same_value : e.1 ≡ v = ground arith in subst P (λ i. (same_key i, same_value i)) a.0
    | inr there ↦ All-get P k v m a.1 (ground arith)
  ]

  pub All-insert {κ} :
      (P : ℕ × V → Type κ) (k : ℕ) (v : V) (m : Map V) → P (k, v) → All P m → All P (insert k v m)
  All-insert P k v [] h a = (h, a)
  All-insert P k v (e ∷ m) h a = elim (Bool-cases (e.0 == k)) [
    | inl here ↦ rw here (h, a.1)
    | inr there ↦ rw there (a.0, All-insert P k v m h a.1)
  ]

  pub All-remove_all {κ} :
      (P : ℕ × V → Type κ) (ks : List ℕ) (m : Map V) → All P m → All P (remove_all ks m)
  All-remove_all P [] m a = a
  All-remove_all P (k ∷ ks) m a =
      All-remove_all P ks (remove k m) (All-retain P (λ e. not (e.0 == k)) m a)

  pub get-append :
      (k : ℕ) (m n : Map V) → get k (m ++ n) ≡ (if contains (keys m) k then get k m else get k n)
  get-append k [] n = refl
  get-append k (e ∷ m) n = ground (arith, get-append k m n)

  pub length-retain_keys :
      (p : ℕ → Bool) (m n : Map V)
      → length (retain (λ e. p e.0) (m ++ n))
        ≡ length (retain (λ e. p e.0) m) + length (retain (λ e. p e.0) n)
  length-retain_keys p [] n = omega arith
  length-retain_keys p (e ∷ m) n = ground (arith, length-retain_keys p m n)

  module _ (less : ℕ × V → ℕ × V → Bool) where
    get-insert_sorted :
        (k : ℕ) (x : ℕ × V) (m : Map V)
        → count x.0 (keys m) ≡ 0
        → get k (insert_sorted less x m) ≡ get k (x ∷ m)
    get-insert_sorted k x [] h = refl
    get-insert_sorted k x (y ∷ m) h = ground (arith, get-insert_sorted k x m)

    -- Sorting the entries does not change what is found under a key.
    pub get-sort_by : (k : ℕ) (m : Map V) → IsDistinct (keys m) → get k (sort_by less m) ≡ get k m
    unfolding sort_by
    get-sort_by k [] d = refl
    get-sort_by k (x ∷ m) d =
        let tail : IsDistinct (keys m) = λ j. ground (arith, d j) in
        let fresh : count x.0 (keys (sort_by less m)) ≡ 0 =
          ground (arith, count-sort_by less (λ (e : ℕ × V). e.0) x.0 m, d x.0, ==-refl x.0) in
        ground (arith, get-insert_sorted k x (sort_by less m) fresh, get-sort_by k m tail)

-- Entries whose values are replaced.
module _ {ℓ κ} {V : Type ℓ} {W : Type κ} (f : V → W) where
  unfoldable pub map_values : Map V → Map W
  map_values = map (λ e. (e.0, f e.1))

  pub keys-map_values : (m : Map V) → keys (map_values m) ≡ keys m
  unfolding map_values
  keys-map_values [] = refl
  keys-map_values (e ∷ m) = ap (◌∷◌ e.0) (keys-map_values m)

  pub get-map_values :
      (k : ℕ) (m : Map V)
      → get k (map_values m) ≡ elim (get k m) [ none ↦ none | some v ↦ some (f v) ]
  unfolding map_values
  get-map_values k [] = refl
  get-map_values k (e ∷ m) = ground (arith, get-map_values k m)

  pub length-retain-map_values :
      (p : ℕ → Bool) (m : Map V)
      → length (retain (λ e. p e.0) (map_values m)) ≡ length (retain (λ e. p e.0) m)
  unfolding map_values
  length-retain-map_values p [] = refl
  length-retain-map_values p (e ∷ m) = ground (arith, length-retain-map_values p m)

  pub All-map_values {ι} :
      (P : ℕ × W → Type ι) (m : Map V) → All (λ e. P (e.0, f e.1)) m → All P (map_values m)
  unfolding map_values
  All-map_values P [] h = tt
  All-map_values P (e ∷ m) h = (h.0, All-map_values P m h.1)

  pub length-map_values : (m : Map V) → length (map_values m) ≡ length m
  unfolding map_values
  length-map_values m = length-map (λ e. (e.0, f e.1)) m

-- Entries whose values are replaced by what the key and the value give.
module _ {ℓ κ} {V : Type ℓ} {W : Type κ} (f : ℕ → V → W) where
  pub get-map_entries :
      (k : ℕ) (m : Map V)
      → get k (map (λ e. (e.0, f e.0 e.1)) m)
        ≡ elim (get k m) [ none ↦ none | some v ↦ some (f k v) ]
  get-map_entries k [] = refl
  get-map_entries k (e ∷ m) = ground (arith, ==_iff e.0 k, get-map_entries k m)

  pub keys-map_entries : (m : Map V) → keys (map (λ e. (e.0, f e.0 e.1)) m) ≡ keys m
  keys-map_entries [] = refl
  keys-map_entries (e ∷ m) = ap (◌∷◌ e.0) (keys-map_entries m)

module _ {ℓ} {V : Type ℓ} (p : ℕ × V → Bool) where
  -- Which keys a selection of the entries has.
  pub contains-keys-retain :
      (k : ℕ) (m : Map V)
      → IsDistinct (keys m)
      → contains (keys (retain p m)) k ≡ elim (get k m) [ none ↦ false | some v ↦ p (k, v) ]
  contains-keys-retain k [] d = refl
  contains-keys-retain k (e ∷ m) d =
      let rest : IsDistinct (keys m) = λ j. omega (arith, d j) in
      ground (arith, d k, ==_iff e.0 k, get-count k m, contains-keys-retain k m rest)
