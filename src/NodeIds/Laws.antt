-- ===== src/NodeIds/Laws.antt =====
-- flarch/src/nodeids.rs: the loop of `remove` as two filters, and lists of identifiers as sets.
use mathlib.Core.List.{append_assoc, append-nil}
use fledger.Prelude.{
  ℕ, zero, suc, ◌≤◌, ◌≡◌, refl, ◌∙◌, inl, inr, ◌↔◌, Bool, true, false, not, ◌||◌, [], ◌∷◌, ◌++◌,
  arith, ◌==◌, ==_iff, ==-refl, same, if◌then◌else◌, Bool-cases, length, get_elem?-append_middle,
  get_elem?-length, erase_idx-append_middle, length-append_one, retain, contains, count, IsDistinct,
  count-append, count-retain, contains-count, contains-append, contains-retain, any, all,
}
use fledger.NodeIds.{
  NodeId, NodeIds, remove_loop, remove, remove_missing, remove_existing, contains_any, contains_all,
  merge,
}

module _ (nodes : NodeIds) (exists : Bool) where
  abbrev matches : NodeId → Bool
  matches id = same (contains nodes id) exists

  abbrev differs : NodeId → Bool
  differs id = not (matches id)

  remove_loop_lem :
      (fuel : ℕ) (rest done ret : NodeIds)
      → length rest ≤ fuel
      → remove_loop fuel nodes exists (done ++ rest) (length done) ret
        ≡ (done ++ retain differs rest, ret ++ retain matches rest)
  unfolding remove_loop
  remove_loop_lem zero [] done ret h = simp append-nil
  remove_loop_lem zero (x ∷ rest) done ret h = absurd (omega arith)
  remove_loop_lem (suc fuel) [] done ret h =
      rw (append-nil done, remove_loop, get_elem?-length done) (simp append-nil)
  remove_loop_lem (suc fuel) (x ∷ rest) done ret h =
      elim (Bool-cases (same (contains nodes x) exists)) [
        | inl e ↦
            rw
              (
                remove_loop,
                get_elem?-append_middle done x rest,
                e,
                erase_idx-append_middle done x rest,
              )
              (remove_loop_lem fuel rest done (ret ++ x ∷ []) (omega arith) ∙ simp append_assoc)
        | inr e ↦
            rw
              (
                remove_loop,
                get_elem?-append_middle done x rest,
                e,
                ← length-append_one done x,
                ← append_assoc done (x ∷ []) rest,
              )
              (remove_loop_lem fuel rest (done ++ x ∷ []) ret (omega arith) ∙ simp append_assoc)
      ]

  -- The loop takes out exactly the identifiers whose membership is `exists`, and keeps the order.
  remove_lem : (ids : NodeIds) → remove ids nodes exists ≡ (retain differs ids, retain matches ids)
  unfolding remove
  remove_lem ids = remove_loop_lem (length ids) ids [] [] (omega arith)

same-true : (b : Bool) → same b true ≡ b
same-true true = refl
same-true false = refl

differs_false : (b : Bool) → not (same b false) ≡ b
differs_false true = refl
differs_false false = refl

same-false : (b : Bool) → same b false ≡ not b
same-false true = refl
same-false false = refl

-- `remove_existing` splits the list in order: what stays is not in the argument, what comes back is.
pub remove_existing_lem :
    (ids nodes : NodeIds)
    → remove_existing ids nodes
      ≡ (retain (λ x. not (contains nodes x)) ids, retain (contains nodes) ids)
unfolding remove_existing
remove_existing_lem ids nodes = remove_lem nodes true ids ∙ λ i. (
  retain (λ x. not (same-true (contains nodes x) i)) ids,
  retain (λ x. same-true (contains nodes x) i) ids,
)

-- `remove_missing` splits the list in order: what stays is in the argument, what comes back is not.
remove_missing_lem :
    (ids nodes : NodeIds)
    → remove_missing ids nodes
      ≡ (retain (contains nodes) ids, retain (λ x. not (contains nodes x)) ids)
unfolding remove_missing
remove_missing_lem ids nodes = remove_lem nodes false ids ∙ λ i. (
  retain (λ x. differs_false (contains nodes x) i) ids,
  retain (λ x. same-false (contains nodes x) i) ids,
)

-- `merge` holds what either list holds.
pub contains-merge :
    (ids other : NodeIds) (y : NodeId)
    → contains (merge ids other) y ≡ (contains ids y || contains other y)
unfolding merge
contains-merge ids other y = ground (
  arith,
  contains-append ids (retain (λ n. not (contains ids n)) other) y,
  contains-retain (λ n. not (contains ids n)) other y,
)

-- `merge` holds an identifier of the first list as often as this list does, and any other as often as
-- the second list does.
pub count-merge :
    (ids other : NodeIds) (y : NodeId)
    → count y (merge ids other) ≡ (if contains ids y then count y ids else count y other)
unfolding merge
count-merge ids other y = ground (
  arith,
  count-append y ids (retain (λ n. not (contains ids n)) other),
  count-retain y (λ n. not (contains ids n)) other,
  contains-count y ids,
)

pub merge-IsDistinct :
    (ids other : NodeIds) → IsDistinct ids → IsDistinct other → IsDistinct (merge ids other)
merge-IsDistinct ids other d e = λ y. ground (arith, count-merge ids other y, d y, e y)

all-contains_iff :
    (ids other : NodeIds)
    → (all (contains ids) other ≡ true)
      ↔ ((y : NodeId) → contains other y ≡ true → contains ids y ≡ true)
all-contains_iff ids [] = (λ h y e. cc, λ h. refl)
all-contains_iff ids (x ∷ other) =
    let ih = all-contains_iff ids other in
    (
      λ h y e. ground (arith, ih.0 (ground arith) y),
      λ h. ground (arith, h x (ground arith), ih.1 (λ y e. h y (ground arith))),
    )

-- `contains_all` decides the inclusion of one set in the other.
contains_all_iff :
    (ids other : NodeIds)
    → (contains_all ids other ≡ true)
      ↔ ((y : NodeId) → contains other y ≡ true → contains ids y ≡ true)
unfolding contains_all
contains_all_iff = all-contains_iff

any-eq-contains : (other : NodeIds) (x : NodeId) → any (λ o. x == o) other ≡ contains other x
any-eq-contains [] x = refl
any-eq-contains (o ∷ other) x = ground (arith, any-eq-contains other x)

-- `contains_any` finds a common element exactly when there is one.
contains_any_iff :
    (ids other : NodeIds)
    → (contains_any ids other ≡ true)
      ↔ ((y : NodeId) × (contains ids y ≡ true) × (contains other y ≡ true))
unfolding contains_any
contains_any_iff [] other = (λ h. cc, λ h. cc)
contains_any_iff (x ∷ ids) other =
    let ih = contains_any_iff ids other in
    (
      λ h. elim (Bool-cases (contains other x)) [
        | inl e ↦ (x, ground (arith, ==-refl x), e)
        | inr e ↦
            let r = ih.0 (ground (arith, any-eq-contains other x)) in
            (r.0, ground (arith, r.1), r.2)
      ],
      λ (y, e, f). elim (Bool-cases (x == y)) [
        | inl same_one ↦ ground (arith, any-eq-contains other x, ==_iff x y)
        | inr other_one ↦ ground (arith, ih.1 (y, ground arith, f))
      ],
    )
