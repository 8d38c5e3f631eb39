-- ===== src/Broker/Handle/Indices/Fresh.antt =====
-- flarch/src/broker.rs: the index that `add_subsystem` hands out is a new one.
use fledger.Prelude.{
  ℕ, false, some, [], ◌∷◌, ◌≡◌, ◌≤◌, ◌<◌, ◌+◌, ◌%◌, ◌^◌, refl, ◌∙◌, ap, arith, count, ==_iff,
  ==-refl,
}
use fledger.Broker.Subsystem.{BrokerId, Subsystem}
use fledger.Broker.Intern.{Intern, InternMessage, subsystem, add, run}
use fledger.Broker.Handle.{Broker, new, send_intern, add_subsystem}
use fledger.Broker.Handle.Indices.{pending, uses, pending-append, run-uses}

module _ {ℓ} {T S : Type ℓ} where
  -- No index is taken twice, and none beyond the counter.
  pub record IsFresh (b : Broker T S) : Type ℓ where
    pub once : (j : ℕ) → uses j b.intern ≤ 1
    pub counted : (j : ℕ) → b.subsystems < j → uses j b.intern ≡ 0

  -- What a client or the broker's task does: a subsystem is added, anything else is sent, or the
  -- task makes a round.
  pub data Use (b b' : Broker T S) : Type ℓ where
    adds : (ss : Subsystem T S) → b' ≡ (add_subsystem ss b).0 → Use b b'
    sends :
        (msg : InternMessage T S) → pending (msg ∷ []) ≡ [] → b' ≡ (send_intern msg b).0 → Use b b'
    turn :
        (fuel : ℕ) (r : Intern T S)
        → run fuel b.intern ≡ some r
        → b' ≡ record b { intern = r }
        → Use b b'
    closes : b' ≡ record b { is_open = false } → Use b b'

  pub data Uses (start : Broker T S) : Broker T S → Type ℓ where
    here : Uses start start
    next : {b b' : Broker T S} → Uses start b → Use b b' → Uses start b'

  send_intern-uses :
      (j : ℕ) (msg : InternMessage T S) (b : Broker T S)
      → uses j (send_intern msg b).0.intern ≤ uses j b.intern + count j (pending (msg ∷ []))
  unfolding send_intern
  send_intern-uses j msg b = ground (arith, pending-append j b.intern.main_rx (msg ∷ []))

  send_intern-subsystems :
      (msg : InternMessage T S) (b : Broker T S) → (send_intern msg b).0.subsystems ≡ b.subsystems
  unfolding send_intern
  send_intern-subsystems msg b = ground arith

  -- How many subsystems were added.
  abbrev additions : {start b : Broker T S} → Uses start b → ℕ
  additions here = 0
  additions (next us (adds ss e)) = additions us + 1
  additions (next us (sends msg none_pending e)) = additions us
  additions (next us (turn fuel r ran e)) = additions us
  additions (next us (closes e)) = additions us

  -- After a number of additions that the counter holds, it has counted them all.
  abbrev Counted : ℕ → Broker T S → Type ℓ
  Counted k b = IsFresh b × (b.subsystems ≡ k)

  adds-Counted :
      (k : ℕ) (b : Broker T S) (ss : Subsystem T S)
      → k + 1 < 2 ^ 64
      → Counted k b
      → Counted (k + 1) (add_subsystem ss b).0
  unfolding add_subsystem
  adds-Counted k b ss small (f, c) =
      let index = (b.subsystems + 1) % 2 ^ 64 in
      let one_more : index ≡ b.subsystems + 1 = omega (arith, small, c) in
      let msg = subsystem (add index ss) in
      let b1 = record b { subsystems = index } in
      (
        record {
          once = λ j.
              ground
                (arith, send_intern-uses j msg b1, f.once j, f.counted j, ==_iff index j, one_more);
          counted = λ j h. ground (
            arith,
            send_intern-uses j msg b1,
            f.counted j,
            send_intern-subsystems msg b1,
            h,
            ==_iff index j,
            one_more,
          );
        },
        omega (arith, send_intern-subsystems msg b1, one_more, c),
      )

  sends-Counted :
      (k : ℕ) (b : Broker T S) (msg : InternMessage T S)
      → pending (msg ∷ []) ≡ []
      → Counted k b
      → Counted k (send_intern msg b).0
  sends-Counted k b msg none_pending (f, c) = (
    record {
      once = λ j. omega (arith, send_intern-uses j msg b, f.once j, ap (count j) none_pending);
      counted = λ j h. omega (
        arith,
        send_intern-uses j msg b,
        f.counted j (omega (arith, send_intern-subsystems msg b, h)),
        ap (count j) none_pending,
      );
    },
    send_intern-subsystems msg b ∙ c,
  )

  turn-Counted :
      (k fuel : ℕ) (b : Broker T S) (r : Intern T S)
      → run fuel b.intern ≡ some r
      → Counted k b
      → Counted k (record b { intern = r })
  turn-Counted k fuel b r ran (f, c) = (
    record {
      once = λ j. omega (arith, run-uses j fuel b.intern r ran, f.once j);
      counted = λ j h. omega (arith, run-uses j fuel b.intern r ran, f.counted j h);
    },
    c,
  )

  new-IsFresh : (id : BrokerId) → IsFresh (new id)
  unfolding new
  new-IsFresh id = record { once = λ j. omega arith; counted = λ j h. omega arith }

  Uses-Counted :
      (start b : Broker T S) (us : Uses start b)
      → additions us < 2 ^ 64
      → Counted 0 start
      → Counted (additions us) b
  Uses-Counted start b here small c = c
  Uses-Counted start b (next us (adds ss e)) small c =
      rw e
        (adds-Counted (additions us) _ ss small (Uses-Counted start _ us (omega (arith, small)) c))
  Uses-Counted start b (next us (sends msg none_pending e)) small c =
      rw e (sends-Counted (additions us) _ msg none_pending (Uses-Counted start _ us small c))
  Uses-Counted start b (next us (turn fuel r ran e)) small c =
      rw e (turn-Counted (additions us) fuel _ r ran (Uses-Counted start _ us small c))
  Uses-Counted start b (next us (closes e)) small c =
      let (f, k) = Uses-Counted start _ us small c in
      rw e (record { once = f.once; counted = f.counted }, k)

  -- Whatever was added, removed, sent and processed before, as long as the counter of 64 bits has not
  -- run over: the index that `add_subsystem` returns is not taken by a subsystem that is there or
  -- waits to be added, so that none is replaced, and afterwards it is taken once.
  pub add_subsystem_fresh :
      (id : BrokerId) (b : Broker T S) (us : Uses (new id) b)
      → additions us + 1 < 2 ^ 64
      → (ss : Subsystem T S) (i : ℕ) → (add_subsystem ss b).1 ≡ some i
      → (uses i b.intern ≡ 0) × (uses i (add_subsystem ss b).0.intern ≡ 1)
  unfolding add_subsystem new
  add_subsystem_fresh id b us small ss i h =
      let (f, c) = Uses-Counted (new id) b us (omega (arith, small)) (new-IsFresh id, refl) in
      let index = (b.subsystems + 1) % 2 ^ 64 in
      let one_more : index ≡ b.subsystems + 1 = omega (arith, small, c) in
      let msg = subsystem (add index ss) in
      ground
        (arith, f.counted i, pending-append i b.intern.main_rx (msg ∷ []), ==-refl i, h, one_more)
