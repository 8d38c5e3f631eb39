-- ===== src/RandomConnections/Nodes/Ages.antt =====
-- flmodules/src/random_connections/nodes.rs: the nodes that reached a given age.
use mathlib.Core.List.{reverse-cons}
use fledger.Prelude.{
  ℕ, ◌+◌, ◌<◌, ◌≡◌, refl, ap, ◌∙◌, inl, inr, Bool, true, false, not, List, [], ◌∷◌, ◌++◌,
  map-reverse, reverse, arith, leb, Bool-cases, length, take_while, retain, retain_all, retain_none,
  All, All-append, count, count-reverse, length-map, length-reverse, drop_pos, count-map-drop-le,
  count-map-retain-le, ◌-◌,
}
use fledger.Prelude.Sorting.{
  sort_by, IsSorted, StrictOrder, sort_by-IsSorted, length-retain-sort_by, count-retain-sort_by,
}
use fledger.NodeIds.{NodeId}
use fledger.RandomConnections.Nodes.{
  NodeTime, Nodes, get_nodes, older, newer, oldest_ticks, count_from, count_expired,
  remove_oldest_ticks,
}

pub newer-order : StrictOrder newer
newer-order = record { asym = λ a b h. ground arith; cotrans = λ a b c h k. ground arith }

pub older-order : StrictOrder older
older-order = record { asym = λ a b h. ground arith; cotrans = λ a b c h k. ground arith }

-- Having been in the list for at least so many ticks.
abbrev pub expired : ℕ → NodeTime → Bool
expired ticks n = leb ticks n.ticks

abbrev pub unexpired : ℕ → NodeTime → Bool
unexpired ticks n = not (expired ticks n)

module _ {ℓ} {A : Type ℓ} (p : A → Bool) where
  take_while-append_failing :
      (xs : List A) (y : A) → p y ≡ false → take_while p (xs ++ y ∷ []) ≡ take_while p xs
  take_while-append_failing [] y h = rw h
  take_while-append_failing (x ∷ xs) y h = ground (arith, take_while-append_failing xs y h)

  take_while_all : (xs : List A) → All (λ x. p x ≡ true) xs → take_while p xs ≡ xs
  take_while_all [] h = refl
  take_while_all (x ∷ xs) h = ground (arith, take_while_all xs h.1)

  All-reverse : (xs : List A) → All (λ x. p x ≡ true) xs → All (λ x. p x ≡ true) (reverse xs)
  All-reverse [] h = tt
  All-reverse (x ∷ xs) h =
      rw (reverse-cons x xs)
        (All-append (λ x. p x ≡ true) (reverse xs) (x ∷ []) (All-reverse xs h.1) (h.0, tt))

module _ (ticks : ℕ) where
  expired_after :
      (x : NodeTime) (xs : Nodes)
      → expired ticks x ≡ true
      → All (λ y. newer y x ≡ false) xs
      → All (λ y. expired ticks y ≡ true) xs
  expired_after x [] e h = tt
  expired_after x (y ∷ xs) e h = (ground arith, expired_after x xs e h.1)

  none_unexpired :
      (xs : Nodes) → All (λ y. expired ticks y ≡ true) xs → All (λ y. unexpired ticks y ≡ false) xs
  none_unexpired [] h = tt
  none_unexpired (x ∷ xs) h = (rw h.0, none_unexpired xs h.1)

  take_while-reverse :
      (xs : Nodes)
      → IsSorted newer xs
      → take_while (expired ticks) (reverse xs) ≡ reverse (retain (expired ticks) xs)
  take_while-reverse [] s = refl
  take_while-reverse (x ∷ xs) s = elim (Bool-cases (expired ticks x)) [
    | inl e ↦
        let rest = expired_after x xs e s.0 in
        rw (e, retain_all (expired ticks) xs rest)
          (take_while_all (expired ticks) (reverse (x ∷ xs))
            (All-reverse (expired ticks) (x ∷ xs) (e, rest)))
    | inr e ↦
        rw (e, reverse-cons x xs, take_while-append_failing (expired ticks) (reverse xs) x e)
          (take_while-reverse xs s.1)
  ]

  -- A rising list is its young part followed by its old part.
  pub sorted_split :
      (xs : Nodes)
      → IsSorted newer xs
      → xs ≡ retain (unexpired ticks) xs ++ retain (expired ticks) xs
  sorted_split [] s = refl
  sorted_split (x ∷ xs) s = elim (Bool-cases (expired ticks x)) [
    | inl e ↦
        let rest = expired_after x xs e s.0 in
        rw (
          e,
          retain_all (expired ticks) xs rest,
          retain_none (unexpired ticks) xs (none_unexpired xs rest),
        )
    | inr e ↦ rw e (ap (◌∷◌ x) (sorted_split xs s.1))
  ]

  -- `oldest_ticks` in one piece: the old part of the rising list, turned round.
  oldest_ticks_lem :
      (ns : Nodes)
      → oldest_ticks ns ticks ≡ get_nodes (reverse (retain (expired ticks) (sort_by newer ns)))
  unfolding oldest_ticks
  oldest_ticks_lem ns =
      ap get_nodes (take_while-reverse (sort_by newer ns) (sort_by-IsSorted newer newer-order ns))

  -- `oldest_ticks` returns the identifiers of exactly the nodes with at least so many ticks, each as
  -- often as it is stored.
  pub count-oldest_ticks :
      (ns : Nodes) (id : NodeId)
      → count id (oldest_ticks ns ticks) ≡ count id (get_nodes (retain (expired ticks) ns))
  count-oldest_ticks ns id =
      rw (oldest_ticks_lem, map-reverse (λ (n : NodeTime). n.id))
        (count-reverse id (get_nodes (retain (expired ticks) (sort_by newer ns)))
          ∙ count-retain-sort_by newer (λ n. n.id) id (expired ticks) ns)

  pub length-oldest_ticks :
      (ns : Nodes) → length (oldest_ticks ns ticks) ≡ length (retain (expired ticks) ns)
  length-oldest_ticks ns =
      rw (
        oldest_ticks_lem,
        length-map,
        length-reverse,
        length-retain-sort_by newer (expired ticks) ns,
      )

  count_from_lem :
      (a : ℕ) (ns : Nodes) → count_from ticks a ns ≡ a + length (retain (expired ticks) ns)
  unfolding count_from
  count_from_lem a [] = omega arith
  count_from_lem a (n ∷ ns) = ground (arith, count_from_lem (a + 1) ns, count_from_lem a ns)

  -- The counter and the list agree: `count_expired` is the number of nodes that `oldest_ticks` finds.
  count_expired_lem : (ns : Nodes) → count_expired ns ticks ≡ length (oldest_ticks ns ticks)
  unfolding count_expired
  count_expired_lem ns = omega (arith, length-oldest_ticks ns, count_from_lem 0 ns)

  -- `remove_oldest_ticks` cuts from the front of the stored order: a young node that stands first,
  -- and nowhere else, is dropped as soon as some other node is old, though it is not among the
  -- identifiers that are returned.
  pub remove_oldest_ticks_young :
      (y : NodeTime) (ns : Nodes)
      → y.ticks < ticks
      → 0 < length (retain (expired ticks) ns)
      → count y.id (get_nodes ns) ≡ 0
      → (count y.id (get_nodes (remove_oldest_ticks (y ∷ ns) ticks).0) ≡ 0)
        × (count y.id (remove_oldest_ticks (y ∷ ns) ticks).1 ≡ 0)
  unfolding remove_oldest_ticks
  remove_oldest_ticks_young y ns young some_old alone =
      let n = length (oldest_ticks (y ∷ ns) ticks) in
      let positive : 0 < n = ground (arith, length-oldest_ticks (y ∷ ns)) in
      (
        rw (drop_pos n y ns positive)
            (omega (arith, count-map-drop-le (λ (n : NodeTime). n.id) y.id (n - 1) ns)),
        ground (
          arith,
          count-oldest_ticks (y ∷ ns) y.id,
          count-map-retain-le (λ (n : NodeTime). n.id) y.id (expired ticks) ns,
        ),
      )
