-- ===== src/Broker/Intern/Trails/Steps.antt =====
-- flarch/src/broker.rs: a property of trails is kept by every step of a broker's task.
use fledger.Prelude.{
  ℕ, zero, suc, some, List, [], ◌∷◌, ◌++◌, ◌≡◌, ◌+◌, subst, inl, inr, arith, Bool-cases, if_cases,
  Option-cases, contains, map, flat_map, All, All-append, All-map, All-flat_map, reverse, is_empty,
  length,
}
use fledger.Prelude.Maps.{Map, All-insert, All-remove_all}
use fledger.Broker.Subsystem.{
  BrokerId, Trail, Message, Subsystem, Effect, tap, tap_sync, handler, translator, callback,
  translator_callback, settled, settle, is_tap, is_handler,
}
use fledger.Broker.Intern.{
  Intern, InternMessage, subsystem, message, settle_all, add, remove_at, subsystem_action,
  process_translate_messages, tap_entry, send_tap, handle_entry, handle_replies, for_handler,
  handle_queue, process_handle_messages, process_once, process_loop, process, receive, get_msg,
  receive_first, run,
}
use fledger.Broker.Intern.Trails.{
  IsGrowing, GoodMessage, GoodEffect, GoodSubsystem, GoodEntry, GoodInput, Good, put_messages-Good,
  put_messages_replies-Good, process_translate_messages-Good,
}

module _ {T S : Type 0} (P : Trail → Type 0) (self : BrokerId) where
  tap_entry-Good :
      (msgs : List T) (m : Map (Subsystem T S))
      → All (GoodEntry P) m
      → All (GoodEntry P) (map (tap_entry msgs) m)
  unfolding tap_entry
  tap_entry-Good msgs m g =
      All-map (GoodEntry P) (GoodEntry P) (tap_entry msgs) m
        (λ e h.
          if_cases (GoodSubsystem P) (is_tap e.1) _ _ (λ _. put_messages-Good P e.0 msgs e.1 h)
            (λ _. h))
        g

  handle_entry-Good :
      (queue : List (Message T)) (m : Map (Subsystem T S))
      → All (GoodEntry P) m
      → All (GoodEntry P) (map (handle_entry queue) m)
  unfolding handle_entry
  handle_entry-Good queue m g =
      All-map (GoodEntry P) (GoodEntry P) (handle_entry queue) m
        (λ e h.
          if_cases (GoodSubsystem P) (is_handler e.1) _ _
            (λ _. put_messages-Good P e.0 (for_handler e.0 queue) e.1 h) (λ _. h))
        g

  handle_replies-Good :
      P []
      → (queue : List (Message T)) (m : Map (Subsystem T S)) → All (GoodEntry P) m
      → All (GoodMessage P) (flat_map (handle_replies queue) m)
  unfolding handle_replies
  handle_replies-Good e queue m g =
      All-flat_map (GoodEntry P) (GoodMessage P) (handle_replies queue) m
        (λ x h.
          if_cases (All (GoodMessage P)) (is_handler x.1) _ _
            (λ _. put_messages_replies-Good P e x.0 (for_handler x.0 queue) x.1 h) (λ _. tt))
        g

  send_tap-Good : (n : Intern T S) → Good P self n → Good P self (send_tap n).0
  unfolding send_tap
  send_tap-Good n g = record {
    named = g.named;
    inputs = g.inputs;
    subsystems = tap_entry-Good _ n.subsystems g.subsystems;
    queue = g.queue;
    effects = g.effects;
  }

  handle_queue-Good :
      P []
      → (queue : List (Message T)) (n : Intern T S) → Good P self n
      → Good P self (handle_queue queue n).0
  unfolding handle_queue
  handle_queue-Good e [] n g = g
  handle_queue-Good e (m ∷ ms) n g = record {
    named = g.named;
    inputs = g.inputs;
    subsystems = handle_entry-Good (m ∷ ms) n.subsystems g.subsystems;
    queue = handle_replies-Good e (m ∷ ms) n.subsystems g.subsystems;
    effects = g.effects;
  }

  process_once-Good :
      (n : Intern T S) → IsGrowing self P → Good P self n → Good P self (process_once n)
  unfolding process_once process_handle_messages
  process_once-Good n growing g =
      let tapped = (send_tap (process_translate_messages n)).0 in
      let sent =
        send_tap-Good (process_translate_messages n)
          (process_translate_messages-Good P self n growing g) in
      let done = handle_queue-Good growing.empty tapped.msg_queue tapped sent in
      record {
        named = done.named;
        inputs = done.inputs;
        subsystems =
            All-remove_all (GoodEntry P)
              (reverse
                ((send_tap (process_translate_messages n)).1 ++ (process_handle_messages tapped).1))
              (process_handle_messages tapped).0.subsystems done.subsystems;
        queue = done.queue;
        effects = done.effects;
      }

  process_loop-Good :
      (fuel c : ℕ) (n r : Intern T S) (k : ℕ)
      → IsGrowing self P
      → Good P self n
      → process_loop fuel c n ≡ some (r, k)
      → Good P self r
  unfolding process_loop
  process_loop-Good zero c n r k growing g h = absurd (cc)
  process_loop-Good (suc fuel) c n r k growing g h =
      let next = process_once-Good n growing g in
      elim (Bool-cases (is_empty (process_once n).msg_queue)) [
        | inl e ↦
            let same : process_once n ≡ r = ground (arith, h, e) in subst (Good P self) same next
        | inr e ↦
            let more : process_loop fuel (c + length (process_once n).msg_queue) (process_once n)
                ≡ some (r, k) =
              ground (arith, h, e) in
            process_loop-Good fuel _ (process_once n) r k growing next more
      ]

  settle-Good : (list : Trail) (ss : Subsystem T S) → All (GoodEffect P) (settle list ss)
  unfolding settle
  settle-Good list (tap s) = tt
  settle-Good list (tap_sync s) = tt
  settle-Good list (handler h) = tt
  settle-Good list (callback h) = tt
  settle-Good list (translator_callback t) = tt
  settle-Good list (translator t) =
      if_cases (All (GoodEffect P)) (contains list t.broker) _ _ (λ _. tt) (λ _. (tt, tt))

  settle_all-Good :
      (list : Trail) (m : Map (Subsystem T S))
      → All (GoodEffect P) (flat_map (λ e. settle list e.1) m)
  settle_all-Good list [] = tt
  settle_all-Good list (e ∷ m) =
      All-append (GoodEffect P) (settle list e.1) _ (settle-Good list e.1) (settle_all-Good list m)

  receive-Good :
      (msg : InternMessage T S) (n : Intern T S)
      → GoodInput P msg
      → Good P self n
      → Good P self (receive msg n)
  unfolding receive subsystem_action
  receive-Good (subsystem (add k ss)) n i g = record {
    named = g.named;
    inputs = g.inputs;
    subsystems = All-insert (GoodEntry P) k ss n.subsystems i g.subsystems;
    queue = g.queue;
    effects = g.effects;
  }
  receive-Good (subsystem (remove_at k)) n i g = record {
    named = g.named;
    inputs = g.inputs;
    subsystems = All-remove_all (GoodEntry P) (k ∷ []) n.subsystems g.subsystems;
    queue = g.queue;
    effects = g.effects;
  }
  receive-Good (message m) n i g = record {
    named = g.named;
    inputs = g.inputs;
    subsystems = g.subsystems;
    queue = All-append (GoodMessage P) n.msg_queue (m ∷ []) g.queue (i, tt);
    effects = g.effects;
  }
  receive-Good (settle_all list) n i g =
      if_cases (Good P self) (contains list n.id) _ _ (λ _. keep (settled ∷ []) (tt, tt))
        (λ _. keep _ (
          All-append (GoodEffect P) _ (settled ∷ [])
            (settle_all-Good (list ++ n.id ∷ []) n.subsystems) (tt, tt)))
    where
      keep :
          (es : List (Effect S))
          → All (GoodEffect P) es
          → Good P self (record n { effects = n.effects ++ es })
      keep es h = record {
        named = g.named;
        inputs = g.inputs;
        subsystems = g.subsystems;
        queue = g.queue;
        effects = All-append (GoodEffect P) n.effects es g.effects h;
      }

  get_msg-Good : (n r : Intern T S) → Good P self n → get_msg n ≡ some r → Good P self r
  unfolding get_msg
  get_msg-Good n r g h = go n.main_rx g.inputs h
    where
      go :
          (rx : List (InternMessage T S))
          → All (GoodInput P) rx
          → receive_first rx n ≡ some r
          → Good P self r
      go [] i h = absurd (cc)
      go (msg ∷ rest) i h = subst (Good P self) (ground (arith, h)) (
          receive-Good msg (record n { main_rx = rest }) i.0
            (record {
              named = g.named;
              inputs = i.1;
              subsystems = g.subsystems;
              queue = g.queue;
              effects = g.effects;
            }))

  -- One round of a broker's task.
  pub run-Good :
      (fuel : ℕ) (n r : Intern T S)
      → IsGrowing self P
      → Good P self n
      → run fuel n ≡ some r
      → Good P self r
  unfolding run process
  run-Good fuel n r growing g h = elim (Option-cases (get_msg n)) [
    | inl e ↦ absurd (ground (arith, h, e))
    | inr (n', e) ↦
        let got = get_msg-Good n n' g e in
        elim (Bool-cases (is_empty n'.msg_queue)) [
          | inl idle ↦
              let same : n' ≡ r = ground (arith, h, e, idle) in subst (Good P self) same got
          | inr busy ↦ elim (Option-cases (process_loop fuel 0 n')) [
            | inl stuck ↦ absurd (ground (arith, h, e, busy, stuck))
            | inr ((d, k), done) ↦
                let same : d ≡ r = ground (arith, h, e, busy, done) in
                subst (Good P self) same (process_loop-Good fuel 0 n' d k growing got done)
          ]
        ]
  ]
