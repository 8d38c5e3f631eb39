-- ===== src/Broker/Intern.antt =====
-- flarch/src/broker.rs: `Intern`, the state of a broker and the steps of its task.
pub mod Translating
pub mod Trails
pub mod Dispatch
pub mod Ending
use fledger.Prelude.{
  ℕ, zero, suc, Bool, true, false, not, Option, none, some, List, [], ◌∷◌, ◌++◌, map, ◌+◌, ◌==◌,
  ◌&&◌, if◌then◌else◌, length, get_elem?, erase_idx, is_empty, any, retain, flat_map, contains,
  reverse, is_some,
}
use fledger.Prelude.Maps.{Map, insert, remove, remove_all}
use fledger.Broker.Subsystem.{
  BrokerId, Trail, Destination, all, no_tap, forwarded, handled, Message, Subsystem, Effect,
  settled, is_tap, is_handler, put_messages, translate, settle,
}

pub data SubsystemAction {ℓ} (T S : Type ℓ) : Type ℓ where
  add : ℕ → Subsystem T S → SubsystemAction T S
  remove_at : ℕ → SubsystemAction T S

pub data InternMessage {ℓ} (T S : Type ℓ) : Type ℓ where
  subsystem : SubsystemAction T S → InternMessage T S
  message : Message T → InternMessage T S
  settle_all : Trail → InternMessage T S

-- `effects` is what the broker did to others, in order.
pub record Intern {ℓ} (T S : Type ℓ) : Type ℓ where
  pub main_rx : List (InternMessage T S)
  pub subsystems : Map (Subsystem T S)
  pub msg_queue : List (Message T)
  pub id : BrokerId
  pub effects : List (Effect S)

abbrev pub trail_of : Destination → Trail
trail_of (forwarded t) = t
trail_of all = []
trail_of no_tap = []
trail_of (handled i) = []

abbrev is_no_tap : Destination → Bool
is_no_tap no_tap = true
is_no_tap all = false
is_no_tap (forwarded t) = false
is_no_tap (handled i) = false

-- Whether a message was made by the handler with this index.
abbrev pub is_reply_of : ℕ → Destination → Bool
is_reply_of index (handled i) = index == i
is_reply_of index all = false
is_reply_of index no_tap = false
is_reply_of index (forwarded t) = false

module _ {ℓ} {T : Type ℓ} where
  abbrev pub for_taps : List (Message T) → List T
  for_taps queue = map (λ m. m.1) (retain (λ m. not (is_no_tap m.0)) queue)

  abbrev pub for_handler : ℕ → List (Message T) → List T
  for_handler index queue = map (λ m. m.1) (retain (λ m. not (is_reply_of index m.0)) queue)

  abbrev pub or_empty : Option (List (Message T)) → List (Message T)
  or_empty none = []
  or_empty (some msgs) = msgs

module _ {ℓ} {T S : Type ℓ} where
  unfoldable pub subsystem_action : SubsystemAction T S → Intern T S → Intern T S
  subsystem_action (add pos s) n = record n { subsystems = insert pos s n.subsystems }
  subsystem_action (remove_at pos) n = record n { subsystems = remove pos n.subsystems }

  -- What each translator of a broker does with one message.
  unfoldable pub translate_entry : Trail → T → ℕ × Subsystem T S → ℕ × Subsystem T S
  unfolding translate
  translate_entry trail msg e = (e.0, (translate trail msg e.1).0)

  unfoldable pub run_translators : Trail → T → Intern T S → Intern T S
  unfolding translate_entry translate
  run_translators trail msg n = record n {
    subsystems = map (translate_entry trail msg) n.subsystems;
    effects = n.effects ++ flat_map (λ e. (translate trail msg e.1).1) n.subsystems;
  }

  unfoldable pub is_translated : Trail → T → Map (Subsystem T S) → Bool
  unfolding translate
  is_translated trail msg = any (λ e. (translate trail msg e.1).2)

  -- The `while` of `process_translate_messages`, at position i.
  unfoldable pub translate_loop : ℕ → ℕ → Intern T S → Intern T S
  unfolding run_translators is_translated
  translate_loop zero i n = n
  translate_loop (suc fuel) i n = elim (get_elem? n.msg_queue i) [
    | none ↦ n
    | some m ↦
        let trail = trail_of m.0 ++ n.id ∷ [] in
        let looped = translate_loop fuel (suc i) n in
        let ran = run_translators trail m.1 n in
        let gone = translate_loop fuel i (record ran { msg_queue = erase_idx n.msg_queue i }) in
        let kept = translate_loop fuel (suc i) ran in
        if contains (trail_of m.0) n.id
        then looped
        else if is_translated trail m.1 n.subsystems
        then gone
        else kept
  ]

  -- Each round passes one message or removes it.
  unfoldable pub process_translate_messages : Intern T S → Intern T S
  unfolding translate_loop
  process_translate_messages n = translate_loop (length n.msg_queue) 0 n

  unfoldable pub tap_entry : List T → ℕ × Subsystem T S → ℕ × Subsystem T S
  unfolding is_tap put_messages
  tap_entry msgs e = (e.0, if is_tap e.1 then (put_messages e.0 msgs e.1).0 else e.1)

  unfoldable pub tap_fault : List T → ℕ × Subsystem T S → Bool
  unfolding is_tap put_messages
  tap_fault msgs e = is_tap e.1 && not (is_some (put_messages e.0 msgs e.1).1)

  -- The broker after its taps were served, and the indices of the taps that are closed.
  unfoldable pub send_tap : Intern T S → Intern T S × List ℕ
  unfolding tap_entry tap_fault
  send_tap n = (
    record n { subsystems = map (tap_entry (for_taps n.msg_queue)) n.subsystems },
    map (λ e. e.0) (retain (tap_fault (for_taps n.msg_queue)) n.subsystems),
  )

  unfoldable pub handle_entry : List (Message T) → ℕ × Subsystem T S → ℕ × Subsystem T S
  unfolding is_handler put_messages
  handle_entry queue e =
      (e.0, if is_handler e.1 then (put_messages e.0 (for_handler e.0 queue) e.1).0 else e.1)

  unfoldable pub handle_fault : List (Message T) → ℕ × Subsystem T S → Bool
  unfolding is_handler put_messages
  handle_fault queue e =
      is_handler e.1 && not (is_some (put_messages e.0 (for_handler e.0 queue) e.1).1)

  unfoldable pub handle_replies : List (Message T) → ℕ × Subsystem T S → List (Message T)
  unfolding is_handler put_messages
  handle_replies queue e =
      if is_handler e.1 then or_empty (put_messages e.0 (for_handler e.0 queue) e.1).1 else []

  unfoldable pub handle_queue : List (Message T) → Intern T S → Intern T S × List ℕ
  unfolding handle_entry handle_fault handle_replies
  handle_queue [] n = (n, [])
  handle_queue (m ∷ ms) n = (
    record n {
      subsystems = map (handle_entry (m ∷ ms)) n.subsystems;
      msg_queue = flat_map (handle_replies (m ∷ ms)) n.subsystems;
    },
    map (λ e. e.0) (retain (handle_fault (m ∷ ms)) n.subsystems),
  )

  -- The broker with the replies as its new queue, and the indices of the handlers that failed.
  unfoldable pub process_handle_messages : Intern T S → Intern T S × List ℕ
  unfolding handle_queue
  process_handle_messages n = handle_queue n.msg_queue n

  unfoldable pub process_once : Intern T S → Intern T S
  unfolding process_translate_messages send_tap process_handle_messages
  process_once n =
      let (tapped, closed) = send_tap (process_translate_messages n) in
      let (replied, failed) = process_handle_messages tapped in
      record replied { subsystems = remove_all (reverse (closed ++ failed)) replied.subsystems }

  -- The loop of `process`, with the number of messages so far; `none` means that it goes on.
  unfoldable pub process_loop : ℕ → ℕ → Intern T S → Option (Intern T S × ℕ)
  unfolding process_once
  process_loop zero msg_count n = none
  process_loop (suc fuel) msg_count n =
      let n' = process_once n in
      elim (is_empty n'.msg_queue) [
        | true ↦ some (n', msg_count)
        | false ↦ process_loop fuel (msg_count + length n'.msg_queue) n'
      ]

  unfoldable pub process : ℕ → Intern T S → Option (Intern T S × ℕ)
  unfolding process_loop
  process fuel n = process_loop fuel 0 n

  -- What `get_msg` does with a message of its channel. That it waits, when it settles, until the other
  -- brokers have replied is no part of this.
  unfoldable pub receive : InternMessage T S → Intern T S → Intern T S
  unfolding subsystem_action settle
  receive (subsystem ss) n = subsystem_action ss n
  receive (message m) n = record n { msg_queue = n.msg_queue ++ m ∷ [] }
  receive (settle_all list) n =
      if contains list n.id then record n { effects = n.effects ++ settled ∷ [] } else record n {
        effects =
            n.effects
            ++ (flat_map (λ e. settle (list ++ n.id ∷ []) e.1) n.subsystems ++ settled ∷ []);
      }

  unfoldable pub receive_first : List (InternMessage T S) → Intern T S → Option (Intern T S)
  unfolding receive
  receive_first [] n = none
  receive_first (msg ∷ rest) n = some (receive msg (record n { main_rx = rest }))

  -- `none` while no message waits.
  unfoldable pub get_msg : Intern T S → Option (Intern T S)
  unfolding receive_first
  get_msg n = receive_first n.main_rx n

  -- One round of the loop that `new` starts.
  unfoldable pub run : ℕ → Intern T S → Option (Intern T S)
  unfolding get_msg process
  run fuel n = elim (get_msg n) [
    | none ↦ none
    | some n' ↦ elim (is_empty n'.msg_queue) [
      | true ↦ some n'
      | false ↦ elim (process fuel n') [ none ↦ none | some done ↦ some done.0 ]
    ]
  ]
