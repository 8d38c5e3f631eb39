-- ===== src/Broker/Handle/Indices.antt =====
-- flarch/src/broker.rs: how often an index is taken by the subsystems of a broker, there or waiting,
-- and that a round of its task takes none more often.
pub mod Fresh
use fledger.Prelude.{
  ℕ, zero, suc, Bool, true, false, Option, none, some, List, [], ◌∷◌, ◌++◌, ◌≡◌, ◌≤◌, ◌<◌, ◌+◌,
  refl, ap, ◌∙◌, arith, inl, inr, if◌then◌else◌, Bool-cases, Option-cases, IsDistinct, count,
  count-append, ◌==◌, ==_iff, map, retain, not, is_empty, length, reverse, ==-refl, subst,
}
use fledger.Prelude.Maps.{
  Map, keys, insert, remove, remove_all, keys-map_entries, count-insert, count-remove,
}
use fledger.Broker.Subsystem.{Message, Subsystem, is_tap, is_handler, put_messages}
use fledger.Broker.Intern.{
  Intern, for_handler, for_taps, InternMessage, subsystem, message, settle_all, add, remove_at,
  subsystem_action, receive, receive_first, get_msg, run, send_tap, tap_entry, handle_entry,
  handle_queue, process_once, process_loop, process,
}
use fledger.Broker.Intern.Translating.{translate_pass, after_pass}
use fledger.Broker.Intern.Dispatch.{serve, process_once-serve, translate_pass-keys}
use fledger.Broker.Handle.{
  Broker, new, send_intern, add_subsystem, settle, remove_subsystem, emit_msg_dest,
}

module _ {ℓ} {T S : Type ℓ} where
  -- The indices of the subsystems that wait to be added.
  abbrev pub pending : List (InternMessage T S) → List ℕ
  pending [] = []
  pending (subsystem (add pos s) ∷ rx) = pos ∷ pending rx
  pending (subsystem (remove_at pos) ∷ rx) = pending rx
  pending (message m ∷ rx) = pending rx
  pending (settle_all callers ∷ rx) = pending rx

  -- How often an index is taken.
  abbrev pub uses : ℕ → Intern T S → ℕ
  uses j n = count j (keys n.subsystems) + count j (pending n.main_rx)

  pub pending-append :
      (j : ℕ) (xs ys : List (InternMessage T S))
      → count j (pending (xs ++ ys)) ≡ count j (pending xs) + count j (pending ys)
  pending-append j [] ys = omega arith
  pending-append j (subsystem (add pos s) ∷ xs) ys = omega (arith, pending-append j xs ys)
  pending-append j (subsystem (remove_at pos) ∷ xs) ys = pending-append j xs ys
  pending-append j (message m ∷ xs) ys = pending-append j xs ys
  pending-append j (settle_all callers ∷ xs) ys = pending-append j xs ys

  remove_all-count :
      (j : ℕ) (ks : List ℕ) (m : Map (Subsystem T S))
      → count j (keys (remove_all ks m)) ≤ count j (keys m)
  remove_all-count j [] m = omega arith
  remove_all-count j (k ∷ ks) m =
      ground (arith, remove_all-count j ks (remove k m), count-remove k j m)

  handle_queue-keys :
      (queue : List (Message T)) (n : Intern T S)
      → keys (handle_queue queue n).0.subsystems ≡ keys n.subsystems
  unfolding handle_queue handle_entry
  handle_queue-keys [] n = refl
  handle_queue-keys (m ∷ ms) n =
      keys-map_entries
        (λ (k : ℕ) (ss : Subsystem T S).
          if is_handler ss then (put_messages k (for_handler k (m ∷ ms)) ss).0 else ss)
        n.subsystems

  handle_queue-main_rx :
      (queue : List (Message T)) (n : Intern T S) → (handle_queue queue n).0.main_rx ≡ n.main_rx
  unfolding handle_queue
  handle_queue-main_rx [] n = refl
  handle_queue-main_rx (m ∷ ms) n = refl

  serve-uses : (j : ℕ) (t : Intern T S) → uses j (serve t) ≤ uses j t
  unfolding serve send_tap tap_entry
  serve-uses j t =
      let (tapped, closed) = send_tap t in
      let (replied, failed) = handle_queue t.msg_queue tapped in
      omega (
        arith,
        remove_all-count j (reverse (closed ++ failed)) replied.subsystems,
        ap (count j) (handle_queue-keys t.msg_queue tapped),
        ap (count j) (
            keys-map_entries
              (λ (k : ℕ) (ss : Subsystem T S).
                if is_tap ss then (put_messages k (for_taps t.msg_queue) ss).0 else ss)
              t.subsystems),
        ap (λ rx. count j (pending rx)) (handle_queue-main_rx t.msg_queue tapped),
      )

  process_once-uses : (j : ℕ) (n : Intern T S) → uses j (process_once n) ≤ uses j n
  process_once-uses j n =
      let p = translate_pass n.id n.msg_queue n.subsystems in
      omega (
        arith,
        ap (uses j) (process_once-serve n),
        serve-uses j (after_pass n [] p),
        ap (count j) (translate_pass-keys n.id n.msg_queue n.subsystems),
      )

  process_loop-uses :
      (j fuel c : ℕ) (n r : Intern T S) (k : ℕ)
      → process_loop fuel c n ≡ some (r, k)
      → uses j r ≤ uses j n
  unfolding process_loop
  process_loop-uses j zero c n r k h = absurd (cc)
  process_loop-uses j (suc fuel) c n r k h =
      elim (Bool-cases (is_empty (process_once n).msg_queue)) [
        | inl e ↦
            let same : process_once n ≡ r = ground (arith, h, e) in
            omega (arith, ap (uses j) same, process_once-uses j n)
        | inr e ↦ omega (
          arith,
          process_once-uses j n,
          process_loop-uses j fuel (c + length (process_once n).msg_queue) (process_once n) r k
              (ground (arith, h, e)),
        )
      ]

  receive-uses :
      (j : ℕ) (msg : InternMessage T S) (n : Intern T S)
      → uses j (receive msg n) ≤ uses j n + count j (pending (msg ∷ []))
  unfolding receive subsystem_action
  receive-uses j (subsystem (add pos s)) n = ground (arith, count-insert pos j s n.subsystems)
  receive-uses j (subsystem (remove_at pos)) n = ground (arith, count-remove pos j n.subsystems)
  receive-uses j (message m) n = omega arith
  receive-uses j (settle_all callers) n = ground arith

  receive_first-uses :
      (j : ℕ) (rx : List (InternMessage T S)) (n r : Intern T S)
      → receive_first rx n ≡ some r
      → uses j r ≤ count j (keys n.subsystems) + count j (pending rx)
  unfolding receive_first
  receive_first-uses j [] n r h = absurd (cc)
  receive_first-uses j (msg ∷ rest) n r h =
      let same : receive msg (record n { main_rx = rest }) ≡ r = ground (arith, h) in
      omega (
        arith,
        ap (uses j) same,
        receive-uses j msg (record n { main_rx = rest }),
        pending-append j (msg ∷ []) rest,
      )

  pub run-uses : (j fuel : ℕ) (n r : Intern T S) → run fuel n ≡ some r → uses j r ≤ uses j n
  unfolding run process get_msg
  run-uses j fuel n r h = elim (Option-cases (receive_first n.main_rx n)) [
    | inl e ↦ absurd (ground (arith, h, e))
    | inr (n', e) ↦
        let got = receive_first-uses j n.main_rx n n' e in
        elim (Bool-cases (is_empty n'.msg_queue)) [
          | inl idle ↦
              let same : n' ≡ r = ground (arith, h, e, idle) in omega (arith, ap (uses j) same, got)
          | inr busy ↦ elim (Option-cases (process_loop fuel 0 n')) [
            | inl stuck ↦ absurd (ground (arith, h, e, busy, stuck))
            | inr ((d, k), done) ↦
                let same : d ≡ r = ground (arith, h, e, busy, done) in
                omega (arith, ap (uses j) same, got, process_loop-uses j fuel 0 n' d k done)
          ]
        ]
  ]
