-- ===== src/Broker/Intern/Dispatch.antt =====
-- flarch/src/broker.rs: what one round of a broker hands to its taps.
pub mod Replies
use mathlib.Core.List.{append_assoc, append-nil}
use fledger.Prelude.{
  ℕ, suc, Bool, true, false, not, Option, none, some, List, [], ◌∷◌, ◌++◌, ◌≡◌, refl, sym, ap, ◌∙◌,
  subst, inl, inr, arith, ◌==◌, if◌then◌else◌, Bool-cases, map, contains, contains-append,
  contains-reverse, retain, reverse, flat_map, is_empty, IsDistinct, length,
}
use fledger.Prelude.Maps.{
  Map, get, keys, remove_all, get-remove_all, get-map_entries, keys-map_entries,
  contains-keys-retain,
}
use fledger.Broker.Subsystem.{
  BrokerId, Trail, all, no_tap, forwarded, handled, Message, Subsystem, Sender, Handler, Effect,
  tap, tap_sync, handler, translator, callback, translator_callback, send, send_each, sent_all,
  is_tap, is_handler, put_messages, translate,
}
use fledger.Broker.Intern.{
  Intern, trail_of, translate_entry, is_translated, process_translate_messages, for_taps,
  for_handler, tap_entry, tap_fault, send_tap, handle_entry, handle_fault, handle_replies,
  handle_queue, process_handle_messages, process_once,
}
use fledger.Broker.Intern.Translating.{translate_pass, after_pass, process_translate_messages-pass}

module _ {ℓ} {T : Type ℓ} where
  -- The messages of a queue but those that are not for taps, read off their destinations.
  abbrev pub but_no_tap : List (Message T) → List T
  but_no_tap [] = []
  but_no_tap ((no_tap, m) ∷ queue) = but_no_tap queue
  but_no_tap ((all, m) ∷ queue) = m ∷ but_no_tap queue
  but_no_tap ((forwarded t, m) ∷ queue) = m ∷ but_no_tap queue
  but_no_tap ((handled i, m) ∷ queue) = m ∷ but_no_tap queue

  for_taps-but_no_tap : (queue : List (Message T)) → for_taps queue ≡ but_no_tap queue
  for_taps-but_no_tap [] = refl
  for_taps-but_no_tap ((no_tap, m) ∷ queue) = for_taps-but_no_tap queue
  for_taps-but_no_tap ((all, m) ∷ queue) = ap (λ ms. m ∷ ms) (for_taps-but_no_tap queue)
  for_taps-but_no_tap ((forwarded t, m) ∷ queue) = ap (λ ms. m ∷ ms) (for_taps-but_no_tap queue)
  for_taps-but_no_tap ((handled i, m) ∷ queue) = ap (λ ms. m ∷ ms) (for_taps-but_no_tap queue)

  send_each-open :
      (msgs : List T) (s : Sender T)
      → s.is_open ≡ true
      → send_each msgs s ≡ (record s { received = s.received ++ msgs }, true)
  unfolding send_each send
  send_each-open [] s o = ground (arith, append-nil s.received)
  send_each-open (m ∷ msgs) s o = ground (
    arith,
    send_each-open msgs (record s { received = s.received ++ m ∷ [] }) o,
    append_assoc s.received (m ∷ []) msgs,
  )

  send_each-closed :
      (msgs : List T) (s : Sender T) → s.is_open ≡ false → send_each msgs s ≡ (s, length msgs == 0)
  unfolding send_each send
  send_each-closed [] s o = refl
  send_each-closed (m ∷ msgs) s o = ground arith

module _ {ℓ} {T S : Type ℓ} where
  -- What is left of the queue when the translators had it.
  abbrev pub kept : Intern T S → List (Message T)
  kept n = (translate_pass n.id n.msg_queue n.subsystems).0

  -- A subsystem that the translation does not change.
  abbrev pub IsUnmoved : Subsystem T S → Type ℓ
  IsUnmoved ss = (trail : Trail) (msg : T) → (translate trail msg ss).0 ≡ ss

  pub translate_pass-keys :
      (id : BrokerId) (queue : List (Message T)) (m : Map (Subsystem T S))
      → keys (translate_pass id queue m).1 ≡ keys m
  unfolding translate_pass translate_entry
  translate_pass-keys id [] m = refl
  translate_pass-keys id (x ∷ queue) m =
      let trail = trail_of x.0 ++ id ∷ [] in
      ground (
        arith,
        translate_pass-keys id queue m,
        translate_pass-keys id queue (map (translate_entry trail x.1) m),
        keys-map_entries (λ (k : ℕ) (ss : Subsystem T S). (translate trail x.1 ss).0) m,
      )

  pub translate_pass-get :
      (id : BrokerId) (queue : List (Message T)) (m : Map (Subsystem T S)) (i : ℕ)
      (ss : Subsystem T S)
      → IsUnmoved ss
      → get i m ≡ some ss
      → get i (translate_pass id queue m).1 ≡ some ss
  unfolding translate_pass translate_entry
  translate_pass-get id [] m i ss still found = found
  translate_pass-get id (x ∷ queue) m i ss still found =
      let trail = trail_of x.0 ++ id ∷ [] in
      let found' : get i (map (translate_entry trail x.1) m) ≡ some ss = ground (
        arith,
        found,
        still trail x.1,
        get-map_entries (λ (k : ℕ) (ss : Subsystem T S). (translate trail x.1 ss).0) i m,
      ) in
      ground (
        arith,
        translate_pass-get id queue m i ss still found,
        translate_pass-get id queue (map (translate_entry trail x.1) m) i ss still found',
      )

  handle_queue-get_other :
      (queue : List (Message T)) (n : Intern T S) (i : ℕ) (ss : Subsystem T S)
      → is_handler ss ≡ false
      → get i n.subsystems ≡ some ss
      → get i (handle_queue queue n).0.subsystems ≡ some ss
  unfolding handle_queue handle_entry
  handle_queue-get_other [] n i ss other found = found
  handle_queue-get_other (m ∷ ms) n i ss other found = ground (
    arith,
    get-map_entries
        (λ (k : ℕ) (ss : Subsystem T S).
          if is_handler ss then (put_messages k (for_handler k (m ∷ ms)) ss).0 else ss)
        i n.subsystems,
    found,
    other,
  )

  -- No handler and no callback returns an error.
  handle_fault_none :
      (queue : List (Message T)) (m : Map (Subsystem T S)) → retain (handle_fault queue) m ≡ []
  unfolding handle_fault put_messages is_handler
  handle_fault_none queue [] = refl
  handle_fault_none queue ((i, tap s) ∷ m) = handle_fault_none queue m
  handle_fault_none queue ((i, tap_sync s) ∷ m) = handle_fault_none queue m
  handle_fault_none queue ((i, handler h) ∷ m) = handle_fault_none queue m
  handle_fault_none queue ((i, callback h) ∷ m) = handle_fault_none queue m
  handle_fault_none queue ((i, translator t) ∷ m) = handle_fault_none queue m
  handle_fault_none queue ((i, translator_callback t) ∷ m) = handle_fault_none queue m

  handle_queue_faults : (queue : List (Message T)) (n : Intern T S) → (handle_queue queue n).1 ≡ []
  unfolding handle_queue
  handle_queue_faults [] n = refl
  handle_queue_faults (m ∷ ms) n = ap (map (λ e. e.0)) (handle_fault_none (m ∷ ms) n.subsystems)

  -- What follows the translation in a round.
  unfoldable pub serve : Intern T S → Intern T S
  unfolding send_tap handle_queue
  serve t =
      let (tapped, closed) = send_tap t in
      let (replied, failed) = handle_queue t.msg_queue tapped in
      record replied { subsystems = remove_all (reverse (closed ++ failed)) replied.subsystems }

  pub process_once-serve :
      (n : Intern T S)
      → process_once n ≡ serve (after_pass n [] (translate_pass n.id n.msg_queue n.subsystems))
  unfolding process_once process_handle_messages serve
  process_once-serve n = ap serve (process_translate_messages-pass n)

  -- The subsystems that are left are those that no tap's error removed.
  pub serve-get :
      (t : Intern T S) (i : ℕ)
      → IsDistinct (keys t.subsystems)
      → get i (serve t).subsystems ≡ (
          if elim (get i t.subsystems) [
            | none ↦ false
            | some ss ↦ tap_fault (for_taps t.msg_queue) (i, ss)
          ]
          then none
          else get i (handle_queue t.msg_queue (send_tap t).0).0.subsystems)
  unfolding serve
  serve-get t i d =
      let tapped = (send_tap t).0 in
      let closed = (send_tap t).1 in
      let failed = (handle_queue t.msg_queue tapped).1 in
      ground (
        arith,
        get-remove_all (reverse (closed ++ failed)) i
            (handle_queue t.msg_queue tapped).0.subsystems,
        contains-reverse (closed ++ failed) i,
        handle_queue_faults t.msg_queue tapped,
        append-nil closed,
        contains-keys-retain (tap_fault (for_taps t.msg_queue)) i t.subsystems d,
      )

  pub tapped-get :
      (t : Intern T S) (i : ℕ) (ss : Subsystem T S)
      → get i t.subsystems ≡ some ss
      → get i (send_tap t).0.subsystems
        ≡ some (if is_tap ss then (put_messages i (for_taps t.msg_queue) ss).0 else ss)
  unfolding send_tap tap_entry
  tapped-get t i ss found = ground (
    arith,
    found,
    get-map_entries
        (λ (k : ℕ) (ss : Subsystem T S).
          if is_tap ss then (put_messages k (for_taps t.msg_queue) ss).0 else ss)
        i t.subsystems,
  )

  -- A tap, and what a round makes of it: an open one gets the messages in order, a closed one is
  -- removed once there is a message for it.
  abbrev tap_of : Bool → Sender T → Subsystem T S
  tap_of true s = tap_sync s
  tap_of false s = tap s

  abbrev pub tapped_by : List T → Bool → Sender T → Option (Subsystem T S)
  tapped_by msgs sync s =
      if s.is_open
      then some (tap_of sync (record s { received = s.received ++ msgs }))
      else if is_empty msgs
      then some (tap_of sync s)
      else none

  tap_fault-lem :
      (i : ℕ) (msgs : List T) (sync : Bool) (s : Sender T)
      → (if tap_fault msgs (i, tap_of sync s)
          then none
          else some (put_messages i msgs (tap_of sync s)).0)
        ≡ tapped_by msgs sync s
  unfolding tap_fault put_messages is_tap
  tap_fault-lem i [] true s = ground (arith, send_each-open [] s, send_each-closed [] s)
  tap_fault-lem i [] false s = ground (arith, send_each-open [] s, send_each-closed [] s)
  tap_fault-lem i (m ∷ msgs) true s =
      ground (arith, send_each-open (m ∷ msgs) s, send_each-closed (m ∷ msgs) s)
  tap_fault-lem i (m ∷ msgs) false s =
      ground (arith, send_each-open (m ∷ msgs) s, send_each-closed (m ∷ msgs) s)

  tap_of-is_tap :
      (ss : Subsystem T S) (sync : Bool) (s : Sender T) → ss ≡ tap_of sync s → is_tap ss ≡ true
  unfolding is_tap
  tap_of-is_tap ss true s e = rw e refl
  tap_of-is_tap ss false s e = rw e refl

  put_messages-is_handler :
      (ss : Subsystem T S) (i : ℕ) (msgs : List T) (sync : Bool) (s : Sender T)
      → ss ≡ tap_of sync s
      → is_handler (put_messages i msgs ss).0 ≡ false
  unfolding is_handler put_messages
  put_messages-is_handler ss i msgs true s e = rw e refl
  put_messages-is_handler ss i msgs false s e = rw e refl

  serve-tap :
      (t : Intern T S) (i : ℕ) (sync : Bool) (s : Sender T)
      → IsDistinct (keys t.subsystems)
      → get i t.subsystems ≡ some (tap_of sync s)
      → get i (serve t).subsystems ≡ tapped_by (for_taps t.msg_queue) sync s
  serve-tap t i sync s d found =
      let msgs = for_taps t.msg_queue in
      let ss' = (put_messages i msgs (tap_of sync s)).0 in
      let tapped : get i (send_tap t).0.subsystems ≡ some ss' =
        ground (
          arith,
          tapped-get t i (tap_of sync s) found,
          tap_of-is_tap (tap_of sync s) sync s refl,
        ) in
      ground (
        arith,
        serve-get t i d,
        found,
        tap_fault-lem i msgs sync s,
        handle_queue-get_other t.msg_queue (send_tap t).0 i ss'
            (put_messages-is_handler (tap_of sync s) i msgs sync s refl) tapped,
      )

  tap_of-IsUnmoved : (sync : Bool) (s : Sender T) → IsUnmoved (tap_of sync s)
  unfolding translate
  tap_of-IsUnmoved true s = λ trail msg. refl
  tap_of-IsUnmoved false s = λ trail msg. refl

  pub translated-IsDistinct :
      (n : Intern T S)
      → IsDistinct (keys n.subsystems)
      → IsDistinct (keys (translate_pass n.id n.msg_queue n.subsystems).1)
  translated-IsDistinct n d = rw (translate_pass-keys n.id n.msg_queue n.subsystems) d

  -- What one round does to a tap, synchronous or not, where no index of a subsystem stands twice. An
  -- open tap gets, after what it has, the messages that no translator took, in order, except those
  -- whose destination excludes taps. A closed tap is removed if there is such a message, and stays
  -- otherwise.
  pub process_once-tap :
      (n : Intern T S) (i : ℕ) (sync : Bool) (s : Sender T)
      → IsDistinct (keys n.subsystems)
      → get i n.subsystems ≡ some (tap_of sync s)
      → get i (process_once n).subsystems ≡ tapped_by (but_no_tap (kept n)) sync s
  process_once-tap n i sync s d found =
      let p = translate_pass n.id n.msg_queue n.subsystems in
      ap (λ t. get i t.subsystems) (process_once-serve n)
      ∙ serve-tap (after_pass n [] p) i sync s (translated-IsDistinct n d) (
          translate_pass-get n.id n.msg_queue n.subsystems i (tap_of sync s)
            (tap_of-IsUnmoved sync s) found)
      ∙ ap (λ msgs. tapped_by msgs sync s) (for_taps-but_no_tap (kept n))
