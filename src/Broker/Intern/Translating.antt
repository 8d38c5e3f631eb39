-- ===== src/Broker/Intern/Translating.antt =====
-- flarch/src/broker.rs: the index loop of `process_translate_messages` against a single pass over the
-- queue.
use mathlib.Core.List.{append_assoc, append-nil}
use fledger.Prelude.{
  ℕ, suc, true, false, List, [], ◌∷◌, ◌++◌, ◌≡◌, refl, sym, ap, ◌∙◌, arith, inl, inr, if◌then◌else◌,
  Bool-cases, length, get_elem?, erase_idx, some, contains, map, flat_map, length-append_one,
  get_elem?-append_middle, erase_idx-append_middle,
}
use fledger.Prelude.Maps.{Map}
use fledger.Broker.Subsystem.{BrokerId, Message, Subsystem, Effect, translate}
use fledger.Broker.Intern.{
  Intern, trail_of, translate_entry, run_translators, is_translated, translate_loop,
  process_translate_messages,
}

-- What is kept of a queue, the subsystems afterwards, and what was done to other brokers.
abbrev pub Pass {ℓ} : Type ℓ → Type ℓ → Type ℓ
Pass T S = List (Message T) × Map (Subsystem T S) × List (Effect S)

module _ {ℓ} {T S : Type ℓ} where
  -- The queue from front to back: a message that was here before is kept and not shown to the
  -- translators, any other is shown to each of them and kept if none of them translates it.
  unfoldable pub translate_pass : BrokerId → List (Message T) → Map (Subsystem T S) → Pass T S
  unfolding translate_entry is_translated translate
  translate_pass id [] subs = ([], subs, [])
  translate_pass id (m ∷ rest) subs =
      let trail = trail_of m.0 ++ id ∷ [] in
      let looped = translate_pass id rest subs in
      let ran = translate_pass id rest (map (translate_entry trail m.1) subs) in
      let effects = flat_map (λ e. (translate trail m.1 e.1).1) subs ++ ran.2 in
      if contains (trail_of m.0) id
      then (m ∷ looped.0, looped.1, looped.2)
      else if is_translated trail m.1 subs
      then (ran.0, ran.1, effects)
      else (m ∷ ran.0, ran.1, effects)

  abbrev pub after_pass : Intern T S → List (Message T) → Pass T S → Intern T S
  after_pass n front p = record n {
    msg_queue = front ++ p.0;
    subsystems = p.1;
    effects = n.effects ++ p.2;
  }

  after_pass-append :
      (n : Intern T S) (front : List (Message T)) (m : Message T) (p : Pass T S)
      → after_pass n (front ++ m ∷ []) p ≡ after_pass n front (m ∷ p.0, p.1, p.2)
  after_pass-append n front m p =
      ap (λ q. record n { msg_queue = q; subsystems = p.1; effects = n.effects ++ p.2 })
        (append_assoc front (m ∷ []) p.0)

  module _ (fuel i : ℕ) (n : Intern T S) (m : Message T)
      (found : get_elem? n.msg_queue i ≡ some m) where
    step_looped :
        contains (trail_of m.0) n.id ≡ true
        → translate_loop (suc fuel) i n ≡ translate_loop fuel (suc i) n
    unfolding translate_loop
    step_looped looped = ground arith

    step_translated :
        contains (trail_of m.0) n.id ≡ false
        → is_translated (trail_of m.0 ++ n.id ∷ []) m.1 n.subsystems ≡ true
        → translate_loop (suc fuel) i n
          ≡ translate_loop fuel i (record (run_translators (trail_of m.0 ++ n.id ∷ []) m.1 n) {
            msg_queue = erase_idx n.msg_queue i;
          })
    unfolding translate_loop
    step_translated new translated = ground arith

    step_kept :
        contains (trail_of m.0) n.id ≡ false
        → is_translated (trail_of m.0 ++ n.id ∷ []) m.1 n.subsystems ≡ false
        → translate_loop (suc fuel) i n
          ≡ translate_loop fuel (suc i) (run_translators (trail_of m.0 ++ n.id ∷ []) m.1 n)
    unfolding translate_loop
    step_kept new kept = ground arith

  translate_loop-pass :
      (rest front : List (Message T)) (n : Intern T S)
      → n.msg_queue ≡ front ++ rest
      → translate_loop (length rest) (length front) n
        ≡ after_pass n front (translate_pass n.id rest n.subsystems)
  unfolding translate_pass translate_loop run_translators
  translate_loop-pass [] front n e = ground (arith, append-nil front, append-nil n.effects)
  translate_loop-pass (m ∷ rest) front n e =
      let i : ℕ = length front in
      let found : get_elem? n.msg_queue i ≡ some m = rw e (get_elem?-append_middle front m rest) in
      let erased : erase_idx n.msg_queue i ≡ front ++ rest =
        rw e (erase_idx-append_middle front m rest) in
      let trail = trail_of m.0 ++ n.id ∷ [] in
      let ran = run_translators trail m.1 n in
      let fuel : ℕ = length rest in
      let subs = map (translate_entry trail m.1) n.subsystems in
      let regrouped =
        append_assoc n.effects
          (flat_map (λ (e : ℕ × Subsystem T S). (translate trail m.1 e.1).1) n.subsystems)
          (translate_pass n.id rest subs).2 in
      let longer : n.msg_queue ≡ (front ++ m ∷ []) ++ rest =
        e ∙ sym (append_assoc front (m ∷ []) rest) in
      elim (Bool-cases (contains (trail_of m.0) n.id)) [
        | inl looped ↦ ground (
          arith,
          step_looped fuel i n m found looped,
          length-append_one front m,
          translate_loop-pass rest (front ++ m ∷ []) n longer,
          after_pass-append n front m (translate_pass n.id rest n.subsystems),
          looped,
        )
        | inr new ↦ elim (Bool-cases (is_translated trail m.1 n.subsystems)) [
          | inl gone ↦ ground (
            arith,
            step_translated fuel i n m found new gone,
            translate_loop-pass rest front (record ran { msg_queue = erase_idx n.msg_queue i })
                erased,
            regrouped,
            gone,
            new,
          )
          | inr kept ↦ ground (
            arith,
            step_kept fuel i n m found new kept,
            length-append_one front m,
            translate_loop-pass rest (front ++ m ∷ []) ran longer,
            after_pass-append ran front m (translate_pass n.id rest subs),
            regrouped,
            kept,
            new,
          )
        ]
      ]

  -- What the index loop makes of a broker is the single pass over its queue: it ends, it passes
  -- over no message, and a removal does not make it skip the next one.
  pub process_translate_messages-pass :
      (n : Intern T S)
      → process_translate_messages n
        ≡ after_pass n [] (translate_pass n.id n.msg_queue n.subsystems)
  unfolding process_translate_messages
  process_translate_messages-pass n = translate_loop-pass n.msg_queue [] n refl
