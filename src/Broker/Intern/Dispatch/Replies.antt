-- ===== src/Broker/Intern/Dispatch/Replies.antt =====
-- flarch/src/broker.rs: what one round of a broker hands to its handlers, and where their replies go.
use mathlib.Core.List.{map-append}
use fledger.Prelude.{
  ℕ, not, some, List, [], ◌∷◌, ◌++◌, ◌≡◌, refl, ap, ◌∙◌, inl, inr, arith, ◌==◌, if◌then◌else◌,
  Option-cases, map, retain, retain-append, flat_map, is_empty, IsDistinct,
}
use fledger.Prelude.Maps.{Map, get, keys, get-map_entries}
use fledger.Broker.Subsystem.{
  Message, Subsystem, Handler, tap, tap_sync, handler, translator, callback, translator_callback,
  all, no_tap, forwarded, handled, is_tap, is_handler, put_messages, translate, BrokerId, Trail,
}
use fledger.Broker.Intern.{
  Intern, trail_of, translate_entry, is_reply_of, for_taps, for_handler, tap_entry, tap_fault,
  send_tap, handle_entry, handle_replies, handle_queue, process_once,
}
use fledger.Broker.Intern.Translating.{translate_pass, after_pass}
use fledger.Broker.Intern.Dispatch.{
  kept, IsUnmoved, serve, process_once-serve, serve-get, tapped-get, translated-IsDistinct,
  translate_pass-get,
}

module _ {ℓ} {T : Type ℓ} where
  -- The messages of a queue but those that this handler replied, read off their destinations.
  abbrev but_own : ℕ → List (Message T) → List T
  but_own i [] = []
  but_own i ((handled k, m) ∷ queue) = if i == k then but_own i queue else m ∷ but_own i queue
  but_own i ((all, m) ∷ queue) = m ∷ but_own i queue
  but_own i ((no_tap, m) ∷ queue) = m ∷ but_own i queue
  but_own i ((forwarded t, m) ∷ queue) = m ∷ but_own i queue

  for_handler-but_own : (i : ℕ) (queue : List (Message T)) → for_handler i queue ≡ but_own i queue
  for_handler-but_own i [] = refl
  for_handler-but_own i ((handled k, m) ∷ queue) = ground (arith, for_handler-but_own i queue)
  for_handler-but_own i ((all, m) ∷ queue) = ap (λ ms. m ∷ ms) (for_handler-but_own i queue)
  for_handler-but_own i ((no_tap, m) ∷ queue) = ap (λ ms. m ∷ ms) (for_handler-but_own i queue)
  for_handler-but_own i ((forwarded t, m) ∷ queue) = ap (λ ms. m ∷ ms) (for_handler-but_own i queue)

  -- A handler that was handed the messages of a queue which are not its own replies.
  abbrev pub handed : ℕ → List (Message T) → Handler T → Handler T
  handed i queue h =
      if is_empty queue then h else record h { batches = h.batches ++ but_own i queue ∷ [] }

  for_handler-map :
      (i j : ℕ) (msgs : List T)
      → for_handler j (map (λ m. (handled i, m)) msgs) ≡ (if j == i then [] else msgs)
  for_handler-map i j [] = ground arith
  for_handler-map i j (m ∷ msgs) = ground (arith, for_handler-map i j msgs)

  for_handler-append :
      (j : ℕ) (xs ys : List (Message T))
      → for_handler j (xs ++ ys) ≡ for_handler j xs ++ for_handler j ys
  for_handler-append j xs ys =
      ap (map (λ m. m.1)) (retain-append (λ m. not (is_reply_of j m.0)) xs ys)
      ∙ map-append (λ (m : Message T). m.1) (retain _ xs) (retain _ ys)

module _ {ℓ} {T S : Type ℓ} where
  handle_queue-get_handler :
      (queue : List (Message T)) (n : Intern T S) (i : ℕ) (h : Handler T)
      → get i n.subsystems ≡ some (handler h)
      → get i (handle_queue queue n).0.subsystems ≡ some (handler (handed i queue h))
  unfolding handle_queue handle_entry is_handler put_messages
  handle_queue-get_handler [] n i h found = found
  handle_queue-get_handler (m ∷ ms) n i h found = ground (
    arith,
    found,
    get-map_entries
        (λ (k : ℕ) (ss : Subsystem T S).
          if is_handler ss then (put_messages k (for_handler k (m ∷ ms)) ss).0 else ss)
        i n.subsystems,
    for_handler-but_own i (m ∷ ms),
  )

  serve-handler :
      (t : Intern T S) (i : ℕ) (h : Handler T)
      → IsDistinct (keys t.subsystems)
      → get i t.subsystems ≡ some (handler h)
      → get i (serve t).subsystems ≡ some (handler (handed i t.msg_queue h))
  unfolding tap_fault is_tap
  serve-handler t i h d found =
      let tapped : get i (send_tap t).0.subsystems ≡ some (handler h) =
        ground (arith, tapped-get t i (handler h) found) in
      ground (
        arith,
        serve-get t i d,
        found,
        handle_queue-get_handler t.msg_queue (send_tap t).0 i h tapped,
      )

  handler-IsUnmoved : (ss : Subsystem T S) (h : Handler T) → ss ≡ handler h → IsUnmoved ss
  unfolding translate
  handler-IsUnmoved ss h e trail msg = rw e refl

  -- What one round does to a handler: it gets, as one batch, the messages that no translator took,
  -- in order, without its own replies of the round before; if no message is left, it is not called.
  process_once-handler :
      (n : Intern T S) (i : ℕ) (h : Handler T)
      → IsDistinct (keys n.subsystems)
      → get i n.subsystems ≡ some (handler h)
      → get i (process_once n).subsystems ≡ some (handler (handed i (kept n) h))
  process_once-handler n i h d found =
      let p = translate_pass n.id n.msg_queue n.subsystems in
      ap (λ t. get i t.subsystems) (process_once-serve n)
      ∙ serve-handler (after_pass n [] p) i h (translated-IsDistinct n d) (
          translate_pass-get n.id n.msg_queue n.subsystems i (handler h)
            (handler-IsUnmoved (handler h) h refl) found)

  -- The broker's state when its handlers are called.
  abbrev pub tapped : Intern T S → Map (Subsystem T S)
  tapped n =
      (send_tap (after_pass n [] (translate_pass n.id n.msg_queue n.subsystems))).0.subsystems

  -- What a subsystem replies to the messages that it is handed of a queue, as far as it is for one
  -- handler: not its own replies. A callback chooses the destinations itself.
  abbrev pub replies_to : ℕ → List (Message T) → ℕ × Subsystem T S → List T
  replies_to i queue (j, handler h) = if i == j then [] else h.messages h.batches (but_own j queue)
  replies_to i queue (j, callback h) = but_own i (h.call h.batches (but_own j queue))
  replies_to i queue (j, tap s) = []
  replies_to i queue (j, tap_sync s) = []
  replies_to i queue (j, translator t) = []
  replies_to i queue (j, translator_callback t) = []

  for_handler-handle_replies :
      (i : ℕ) (queue : List (Message T)) (e : ℕ × Subsystem T S)
      → for_handler i (handle_replies queue e) ≡ replies_to i queue e
  unfolding handle_replies is_handler put_messages
  for_handler-handle_replies i queue (j, handler h) =
      for_handler-map j i (h.messages h.batches (for_handler j queue))
      ∙ ap (λ q. if i == j then [] else h.messages h.batches q) (for_handler-but_own j queue)
  for_handler-handle_replies i queue (j, callback h) =
      for_handler-but_own i (h.call h.batches (for_handler j queue))
      ∙ ap (λ q. but_own i (h.call h.batches q)) (for_handler-but_own j queue)
  for_handler-handle_replies i queue (j, tap s) = refl
  for_handler-handle_replies i queue (j, tap_sync s) = refl
  for_handler-handle_replies i queue (j, translator t) = refl
  for_handler-handle_replies i queue (j, translator_callback t) = refl

  for_handler-replies :
      (i : ℕ) (queue : List (Message T)) (m : Map (Subsystem T S))
      → for_handler i (flat_map (handle_replies queue) m) ≡ flat_map (replies_to i queue) m
  for_handler-replies i queue [] = refl
  for_handler-replies i queue (e ∷ m) = ground (
    arith,
    for_handler-append i (handle_replies queue e) (flat_map (handle_replies queue) m),
    for_handler-handle_replies i queue e,
    for_handler-replies i queue m,
  )

  -- A change of the subsystems that leaves their replies as they are.
  replies_to-map :
      (i : ℕ) (queue : List (Message T)) (f : ℕ × Subsystem T S → ℕ × Subsystem T S)
      → ((e : ℕ × Subsystem T S) → replies_to i queue (f e) ≡ replies_to i queue e)
      → (m : Map (Subsystem T S))
      → flat_map (replies_to i queue) (map f m) ≡ flat_map (replies_to i queue) m
  replies_to-map i queue f same [] = refl
  replies_to-map i queue f same (e ∷ m) = ground (arith, same e, replies_to-map i queue f same m)

  replies_to-tap_entry :
      (i : ℕ) (queue : List (Message T)) (msgs : List T) (e : ℕ × Subsystem T S)
      → replies_to i queue (tap_entry msgs e) ≡ replies_to i queue e
  unfolding tap_entry is_tap put_messages
  replies_to-tap_entry i queue msgs (j, handler h) = refl
  replies_to-tap_entry i queue msgs (j, callback h) = refl
  replies_to-tap_entry i queue msgs (j, tap s) = refl
  replies_to-tap_entry i queue msgs (j, tap_sync s) = refl
  replies_to-tap_entry i queue msgs (j, translator t) = refl
  replies_to-tap_entry i queue msgs (j, translator_callback t) = refl

  replies_to-translate_entry :
      (i : ℕ) (queue : List (Message T)) (trail : Trail) (msg : T) (e : ℕ × Subsystem T S)
      → replies_to i queue (translate_entry trail msg e) ≡ replies_to i queue e
  unfolding translate_entry translate
  replies_to-translate_entry i queue trail msg (j, handler h) = refl
  replies_to-translate_entry i queue trail msg (j, callback h) = refl
  replies_to-translate_entry i queue trail msg (j, tap s) = refl
  replies_to-translate_entry i queue trail msg (j, tap_sync s) = refl
  replies_to-translate_entry i queue trail msg (j, translator t) =
      elim (Option-cases (t.translate msg)) [
        | inl e ↦ rw (e, replies_to) refl
        | inr (m, e) ↦ rw (e, replies_to) refl
      ]
  replies_to-translate_entry i queue trail msg (j, translator_callback t) = refl

  replies_to-translate_pass :
      (i : ℕ) (queue : List (Message T)) (id : BrokerId) (q : List (Message T))
      (m : Map (Subsystem T S))
      → flat_map (replies_to i queue) (translate_pass id q m).1 ≡ flat_map (replies_to i queue) m
  unfolding translate_pass
  replies_to-translate_pass i queue id [] m = refl
  replies_to-translate_pass i queue id (x ∷ q) m =
      let trail = trail_of x.0 ++ id ∷ [] in
      ground (
        arith,
        replies_to-translate_pass i queue id q m,
        replies_to-translate_pass i queue id q (map (translate_entry trail x.1) m),
        replies_to-map i queue (translate_entry trail x.1)
            (replies_to-translate_entry i queue trail x.1) m,
      )

  replies_to-tapped :
      (i : ℕ) (queue : List (Message T)) (n : Intern T S)
      → flat_map (replies_to i queue) (tapped n) ≡ flat_map (replies_to i queue) n.subsystems
  unfolding send_tap
  replies_to-tapped i queue n =
      let p = translate_pass n.id n.msg_queue n.subsystems in
      replies_to-map i queue (tap_entry (for_taps p.0))
        (replies_to-tap_entry i queue (for_taps p.0)) p.1
      ∙ replies_to-translate_pass i queue n.id n.msg_queue n.subsystems

  handle_queue-queue :
      (queue : List (Message T)) (n : Intern T S)
      → n.msg_queue ≡ queue
      → (handle_queue queue n).0.msg_queue
        ≡ (if is_empty queue then [] else flat_map (handle_replies queue) n.subsystems)
  unfolding handle_queue
  handle_queue-queue [] n e = e
  handle_queue-queue (m ∷ ms) n e = refl

  pub process_once-queue :
      (n : Intern T S)
      → (process_once n).msg_queue
        ≡ (if is_empty (kept n) then [] else flat_map (handle_replies (kept n)) (tapped n))
  unfolding serve send_tap
  process_once-queue n =
      let t = after_pass n [] (translate_pass n.id n.msg_queue n.subsystems) in
      ap (λ t. t.msg_queue) (process_once-serve n) ∙ handle_queue-queue (kept n) (send_tap t).0 refl

  -- What one round does to a handler, where no index of a subsystem stands twice. If the translators
  -- leave a message, the handler gets all that they leave as one batch, in order, without its own
  -- replies of the round before; else it is not called. After the round, what waits for it are the
  -- replies of all other handlers and callbacks to the batches that they got, in the order of the
  -- subsystems, but for what a callback marks as a reply of this handler, and none of its own.
  pub own_replies_skipped :
      (n : Intern T S) (i : ℕ) (h : Handler T)
      → IsDistinct (keys n.subsystems)
      → get i n.subsystems ≡ some (handler h)
      → (get i (process_once n).subsystems ≡ some (handler (handed i (kept n) h)))
        × (for_handler i (process_once n).msg_queue
            ≡ (if is_empty (kept n) then [] else flat_map (replies_to i (kept n)) n.subsystems))
  own_replies_skipped n i h d found = (
    process_once-handler n i h d found,
    ground (
      arith,
      process_once-queue n,
      for_handler-replies i (kept n) (tapped n),
      replies_to-tapped i (kept n) n,
    ),
  )
