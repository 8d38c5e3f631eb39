-- ===== src/Broker/Intern/Ending.antt =====
-- flarch/src/broker.rs: the loop of `process` ends when replies calm down.
use fledger.Prelude.{
  ℕ, zero, suc, ◌<◌, ◌+◌, true, some, List, [], ◌∷◌, ◌++◌, ◌≡◌, refl, arith, inl, inr, if_cases,
  Bool-cases, Option-cases, map, flat_map, is_empty, length, reverse, All, All-map, All-flat_map,
  All-retain, contains, not,
}
use fledger.Prelude.Maps.{Map, All-remove_all}
use fledger.Broker.Subsystem.{
  BrokerId, Trail, Message, Subsystem, tap, tap_sync, handler, translator, callback,
  translator_callback, handled, is_tap, is_handler, put_messages, translate,
}
use fledger.Broker.Intern.{
  Intern, trail_of, is_reply_of, is_translated, translate_entry, for_handler, tap_entry,
  handle_entry, handle_replies, send_tap, handle_queue, process_once, process_loop, process,
}
use fledger.Broker.Intern.Translating.{Pass, translate_pass}
use fledger.Broker.Intern.Dispatch.{kept, serve, process_once-serve}
use fledger.Broker.Intern.Dispatch.Replies.{tapped, process_once-queue}

module _ {T : Type 0} (rank : T → ℕ) where
  abbrev pub IsBelow : ℕ → List T → Type 0
  IsBelow k msgs = All (λ m. rank m < k) msgs

  abbrev QueueBelow : ℕ → List (Message T) → Type 0
  QueueBelow k queue = All (λ m. rank m.1 < k) queue

  for_handler-IsBelow :
      (k i : ℕ) (queue : List (Message T)) → QueueBelow k queue → IsBelow k (for_handler i queue)
  for_handler-IsBelow k i queue b =
      All-map (λ (m : Message T). rank m.1 < k) (λ m. rank m < k) (λ m. m.1) _ (λ m h. h)
        (All-retain (λ (m : Message T). rank m.1 < k) (λ m. not (is_reply_of i m.0)) queue b)

  tagged-QueueBelow :
      (k i : ℕ) (msgs : List T) → IsBelow k msgs → QueueBelow k (map (λ m. (handled i, m)) msgs)
  tagged-QueueBelow k i msgs b =
      All-map (λ m. rank m < k) (λ (m : Message T). rank m.1 < k) (λ m. (handled i, m)) msgs
        (λ m h. h) b

  QueueBelow-zero : (queue : List (Message T)) → QueueBelow 0 queue → is_empty queue ≡ true
  QueueBelow-zero [] b = refl
  QueueBelow-zero (m ∷ queue) b = absurd (omega (arith, b.0))

is_empty-eq {ℓ} : {A : Type ℓ} (xs : List A) → is_empty xs ≡ true → xs ≡ []
is_empty-eq [] h = refl
is_empty-eq (x ∷ xs) h = absurd (cc)

module _ {T S : Type 0} (rank : T → ℕ) where
  -- What a handler or a callback replies has a lower rank than the batch that it was handed.
  abbrev IsCalming : Subsystem T S → Type 0
  IsCalming (handler h) =
      (k : ℕ) (past : List (List T)) (batch : List T)
      → IsBelow rank (suc k) batch
      → IsBelow rank k (h.messages past batch)
  IsCalming (callback h) =
      (k : ℕ) (past : List (List T)) (batch : List T)
      → IsBelow rank (suc k) batch
      → QueueBelow rank k (h.call past batch)
  IsCalming (tap s) = Unit
  IsCalming (tap_sync s) = Unit
  IsCalming (translator t) = Unit
  IsCalming (translator_callback t) = Unit

  abbrev CalmEntry : ℕ × Subsystem T S → Type 0
  CalmEntry e = IsCalming e.1

  translate-IsCalming :
      (trail : Trail) (msg : T) (ss : Subsystem T S)
      → IsCalming ss
      → IsCalming (translate trail msg ss).0
  unfolding translate
  translate-IsCalming trail msg (tap s) g = tt
  translate-IsCalming trail msg (tap_sync s) g = tt
  translate-IsCalming trail msg (handler h) g = g
  translate-IsCalming trail msg (callback h) g = g
  translate-IsCalming trail msg (translator_callback t) g = tt
  translate-IsCalming trail msg (translator t) g = elim (Option-cases (t.translate msg)) [
    | inl e ↦ rw (e, IsCalming) tt
    | inr (m, e) ↦ rw (e, IsCalming) tt
  ]

  put_messages-IsCalming :
      (index : ℕ) (msgs : List T) (ss : Subsystem T S)
      → IsCalming ss
      → IsCalming (put_messages index msgs ss).0
  unfolding put_messages
  put_messages-IsCalming index msgs (tap s) g = tt
  put_messages-IsCalming index msgs (tap_sync s) g = tt
  put_messages-IsCalming index msgs (handler h) g = g
  put_messages-IsCalming index msgs (callback h) g = g
  put_messages-IsCalming index msgs (translator_callback t) g = tt
  put_messages-IsCalming index msgs (translator t) g = tt

  handle_replies-QueueBelow :
      (k : ℕ) (queue : List (Message T)) (i : ℕ) (ss : Subsystem T S)
      → QueueBelow rank (suc k) queue
      → IsCalming ss
      → QueueBelow rank k (handle_replies queue (i, ss))
  unfolding handle_replies is_handler put_messages
  handle_replies-QueueBelow k queue i (tap s) b g = tt
  handle_replies-QueueBelow k queue i (tap_sync s) b g = tt
  handle_replies-QueueBelow k queue i (translator t) b g = tt
  handle_replies-QueueBelow k queue i (translator_callback t) b g = tt
  handle_replies-QueueBelow k queue i (handler h) b g =
      tagged-QueueBelow rank k i _
        (g k h.batches (for_handler i queue) (for_handler-IsBelow rank (suc k) i queue b))
  handle_replies-QueueBelow k queue i (callback h) b g =
      g k h.batches (for_handler i queue) (for_handler-IsBelow rank (suc k) i queue b)

  CalmPass : ℕ → Pass T S → Type 0
  CalmPass k p = QueueBelow rank k p.0 × All CalmEntry p.1

  translate_pass-Calm :
      (k : ℕ) (id : BrokerId) (queue : List (Message T)) (m : Map (Subsystem T S))
      → QueueBelow rank k queue
      → All CalmEntry m
      → CalmPass k (translate_pass id queue m)
  unfolding translate_pass CalmPass translate_entry
  translate_pass-Calm k id [] m b g = (tt, g)
  translate_pass-Calm k id (x ∷ queue) m b g =
      let trail = trail_of x.0 ++ id ∷ [] in
      let g' =
        All-map CalmEntry CalmEntry (translate_entry trail x.1) m
          (λ e. translate-IsCalming trail x.1 e.1) g in
      let looped = translate_pass-Calm k id queue m b.1 g in
      let ran = translate_pass-Calm k id queue (map (translate_entry trail x.1) m) b.1 g' in
      if_cases (CalmPass k) (contains (trail_of x.0) id) _ _ (λ _. ((b.0, looped.0), looped.1))
        (λ _.
          if_cases (CalmPass k) (is_translated trail x.1 m) _ _ (λ _. (ran.0, ran.1))
            (λ _. ((b.0, ran.0), ran.1)))

  tapped-Calm :
      (n : Intern T S)
      → All CalmEntry (translate_pass n.id n.msg_queue n.subsystems).1
      → All CalmEntry (tapped n)
  unfolding send_tap tap_entry
  tapped-Calm n g =
      All-map CalmEntry CalmEntry (tap_entry _) _
        (λ e h.
          if_cases IsCalming (is_tap e.1) _ _ (λ _. put_messages-IsCalming e.0 _ e.1 h) (λ _. h))
        g

  handle_queue-Calm :
      (queue : List (Message T)) (n : Intern T S)
      → All CalmEntry n.subsystems
      → All CalmEntry (handle_queue queue n).0.subsystems
  unfolding handle_queue handle_entry
  handle_queue-Calm [] n g = g
  handle_queue-Calm (m ∷ ms) n g =
      All-map CalmEntry CalmEntry (handle_entry (m ∷ ms)) n.subsystems
        (λ e h.
          if_cases IsCalming (is_handler e.1) _ _ (λ _. put_messages-IsCalming e.0 _ e.1 h)
            (λ _. h))
        g

  serve-Calm :
      (t : Intern T S)
      → All CalmEntry (send_tap t).0.subsystems
      → All CalmEntry (serve t).subsystems
  unfolding serve
  serve-Calm t g =
      let (tapped, closed) = send_tap t in
      let (replied, failed) = handle_queue t.msg_queue tapped in
      All-remove_all CalmEntry (reverse (closed ++ failed)) replied.subsystems
        (handle_queue-Calm t.msg_queue tapped g)

  replies-QueueBelow :
      (k : ℕ) (queue : List (Message T)) (m : Map (Subsystem T S))
      → QueueBelow rank (suc k) queue
      → All CalmEntry m
      → QueueBelow rank k (flat_map (handle_replies queue) m)
  replies-QueueBelow k queue m b g =
      All-flat_map CalmEntry (λ (x : Message T). rank x.1 < k) (handle_replies queue) m
        (λ e h. handle_replies-QueueBelow k queue e.0 e.1 b h) g

  process_once-Calm :
      (k : ℕ) (n : Intern T S)
      → QueueBelow rank (suc k) n.msg_queue
      → All CalmEntry n.subsystems
      → QueueBelow rank k (process_once n).msg_queue × All CalmEntry (process_once n).subsystems
  unfolding CalmPass
  process_once-Calm k n b g =
      let p = translate_pass-Calm (suc k) n.id n.msg_queue n.subsystems b g in
      let t = tapped-Calm n p.1 in
      (
        rw (process_once-queue n) (
            if_cases (QueueBelow rank k) (is_empty (kept n)) _ _ (λ _. tt)
              (λ _. replies-QueueBelow k (kept n) (tapped n) p.0 t)),
        rw (process_once-serve n) (serve-Calm _ t),
      )

  process_loop_ends :
      (k c : ℕ) (n : Intern T S)
      → QueueBelow rank (suc k) n.msg_queue
      → All CalmEntry n.subsystems
      → (r : Intern T S × ℕ) × (process_loop (suc k) c n ≡ some r) × (r.0.msg_queue ≡ [])
  unfolding process_loop
  process_loop_ends zero c n b g =
      let e = QueueBelow-zero rank (process_once n).msg_queue (process_once-Calm 0 n b g).0 in
      ((process_once n, c), ground (arith, e), is_empty-eq _ e)
  process_loop_ends (suc k) c n b g = elim (Bool-cases (is_empty (process_once n).msg_queue)) [
    | inl e ↦ ((process_once n, c), ground (arith, e), is_empty-eq _ e)
    | inr e ↦
        let (b', g') = process_once-Calm (suc k) n b g in
        let (r, ends, empty) =
          process_loop_ends k (c + length (process_once n).msg_queue) (process_once n) b' g' in
        (r, ground (arith, e, ends), empty)
  ]

  -- The loop of `process` ends, with an empty queue, if every handler and callback answers a batch
  -- with messages of a lower rank: from messages whose ranks are below k + 1, after at most k + 1
  -- rounds.
  pub process_ends :
      (k : ℕ) (n : Intern T S)
      → QueueBelow rank (suc k) n.msg_queue
      → All CalmEntry n.subsystems
      → (r : Intern T S × ℕ) × (process (suc k) n ≡ some r) × (r.0.msg_queue ≡ [])
  unfolding process
  process_ends k n b g = process_loop_ends k 0 n b g
