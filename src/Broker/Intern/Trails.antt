-- ===== src/Broker/Intern/Trails.antt =====
-- flarch/src/broker.rs: what the trails of a broker's messages have in common, and that forwarding
-- keeps it.
pub mod Steps
use fledger.Prelude.{
  ℕ, zero, suc, Bool, true, false, not, Option, none, some, List, [], ◌∷◌, ◌++◌, ◌≡◌, refl, sym, ap,
  subst, inl, inr, arith, if◌then◌else◌, Bool-cases, if_cases, Option-cases, contains, map,
  flat_map, retain, All, All-append, All-map, All-flat_map, All-weaken, All-retain, reverse,
  is_empty, length,
}
use fledger.Prelude.Maps.{Map, remove_all, All-insert, All-remove_all}
use fledger.Broker.Subsystem.{
  BrokerId, Trail, Destination, all, no_tap, forwarded, handled, Message, Subsystem, Effect, tap,
  tap_sync, sent_all, send_each, handler, translator, callback, translator_callback, forward_to,
  settle_to, settled, put_messages, translate, settle, is_tap, is_handler,
}
use fledger.Broker.Intern.{
  Intern, InternMessage, SubsystemAction, subsystem, message, settle_all, add, remove_at, trail_of,
  subsystem_action, translate_entry, is_translated, process_translate_messages, tap_entry, send_tap,
  handle_entry, handle_replies, for_handler, or_empty, process_handle_messages, process_once,
  process_loop, process, receive, get_msg, run,
}
use fledger.Broker.Intern.Translating.{
  Pass, translate_pass, after_pass, process_translate_messages-pass,
}

-- A property of trails that the empty trail has, and that a broker which is not on the trail may add
-- itself under.
pub record IsGrowing (id : BrokerId) (P : Trail → Type 0) : Type 0 where
  pub empty : P []
  pub grows : (t : Trail) → contains t id ≡ false → P t → P (t ++ id ∷ [])

module _ {T : Type 0} (P : Trail → Type 0) where
  abbrev pub GoodMessage : Message T → Type 0
  GoodMessage m = P (trail_of m.0)

  replies-Good :
      P [] → (index : ℕ) (msgs : List T) → All (GoodMessage) (map (λ m. (handled index, m)) msgs)
  replies-Good e index [] = tt
  replies-Good e index (m ∷ msgs) = (e, replies-Good e index msgs)

sent_all-Good :
    (T : Type 0) (P : Trail → Type 0) (done : Bool)
    → All (GoodMessage P) (or_empty (sent_all {T = T} done))
sent_all-Good T P true = tt
sent_all-Good T P false = tt

module _ {S : Type 0} (P : Trail → Type 0) where
  abbrev pub GoodEffect : Effect S → Type 0
  GoodEffect (forward_to b t msg) = P t
  GoodEffect (settle_to b t) = Unit
  GoodEffect settled = Unit

module _ {T S : Type 0} (P : Trail → Type 0) where
  -- A callback chooses the destinations of its replies.
  abbrev pub GoodSubsystem : Subsystem T S → Type 0
  GoodSubsystem (callback h) =
      (past : List (List T)) (batch : List T) → All (GoodMessage P) (h.call past batch)
  GoodSubsystem (tap s) = Unit
  GoodSubsystem (tap_sync s) = Unit
  GoodSubsystem (handler h) = Unit
  GoodSubsystem (translator t) = Unit
  GoodSubsystem (translator_callback t) = Unit

  abbrev pub GoodEntry : ℕ × Subsystem T S → Type 0
  GoodEntry e = GoodSubsystem e.1

  abbrev pub GoodInput : InternMessage T S → Type 0
  GoodInput (subsystem (add k ss)) = GoodSubsystem ss
  GoodInput (subsystem (remove_at k)) = Unit
  GoodInput (message m) = GoodMessage P m
  GoodInput (settle_all callers) = Unit

  -- Every trail in a broker has the property.
  pub record Good (self : BrokerId) (n : Intern T S) : Type 0 where
    pub named : n.id ≡ self
    pub inputs : All GoodInput n.main_rx
    pub subsystems : All GoodEntry n.subsystems
    pub queue : All (GoodMessage P) n.msg_queue
    pub effects : All (GoodEffect P) n.effects

  translate-Good :
      (trail : Trail) (msg : T) (ss : Subsystem T S)
      → GoodSubsystem ss
      → GoodSubsystem (translate trail msg ss).0
  unfolding translate
  translate-Good trail msg (tap s) g = tt
  translate-Good trail msg (tap_sync s) g = tt
  translate-Good trail msg (handler h) g = tt
  translate-Good trail msg (callback h) g = g
  translate-Good trail msg (translator_callback t) g = tt
  translate-Good trail msg (translator t) g = elim (Option-cases (t.translate msg)) [
    | inl e ↦ rw (e, GoodSubsystem) tt
    | inr (m, e) ↦ rw (e, GoodSubsystem) tt
  ]

  translate_effects-Good :
      (trail : Trail) (msg : T) (ss : Subsystem T S)
      → P trail
      → All (GoodEffect P) (translate trail msg ss).1
  unfolding translate
  translate_effects-Good trail msg (tap s) g = tt
  translate_effects-Good trail msg (tap_sync s) g = tt
  translate_effects-Good trail msg (handler h) g = tt
  translate_effects-Good trail msg (callback h) g = tt
  translate_effects-Good trail msg (translator_callback t) g = tt
  translate_effects-Good trail msg (translator t) g = elim (Option-cases (t.translate msg)) [
    | inl e ↦ rw (e, All) tt
    | inr (m, e) ↦ rw (e, All) (g, tt)
  ]

  pub put_messages-Good :
      (index : ℕ) (msgs : List T) (ss : Subsystem T S)
      → GoodSubsystem ss
      → GoodSubsystem (put_messages index msgs ss).0
  unfolding put_messages
  put_messages-Good index msgs (tap s) g = tt
  put_messages-Good index msgs (tap_sync s) g = tt
  put_messages-Good index msgs (handler h) g = tt
  put_messages-Good index msgs (callback h) g = g
  put_messages-Good index msgs (translator_callback t) g = tt
  put_messages-Good index msgs (translator t) g = tt

  pub put_messages_replies-Good :
      P []
      → (index : ℕ) (msgs : List T) (ss : Subsystem T S) → GoodSubsystem ss
      → All (GoodMessage P) (or_empty (put_messages index msgs ss).1)
  unfolding put_messages
  put_messages_replies-Good e index msgs (tap s) g = sent_all-Good T P (send_each msgs s).1
  put_messages_replies-Good e index msgs (tap_sync s) g = sent_all-Good T P (send_each msgs s).1
  put_messages_replies-Good e index msgs (handler h) g =
      replies-Good P e index (h.messages h.batches msgs)
  put_messages_replies-Good e index msgs (callback h) g = g h.batches msgs
  put_messages_replies-Good e index msgs (translator_callback t) g = tt
  put_messages_replies-Good e index msgs (translator t) g = tt

  run_translators-Good :
      (trail : Trail) (msg : T) (m : Map (Subsystem T S))
      → All GoodEntry m
      → All GoodEntry (map (translate_entry trail msg) m)
  unfolding translate_entry
  run_translators-Good trail msg m g =
      All-map GoodEntry GoodEntry (translate_entry trail msg) m (λ e. translate-Good trail msg e.1)
        g

  abbrev GoodPass : Pass T S → Type 0
  GoodPass p = All (GoodMessage P) p.0 × All GoodEntry p.1 × All (GoodEffect P) p.2

  translate_pass-Good :
      (id : BrokerId)
      → IsGrowing id P
      → (queue : List (Message T)) (m : Map (Subsystem T S)) → All (GoodMessage P) queue
      → All GoodEntry m
      → GoodPass (translate_pass id queue m)
  unfolding translate_pass
  translate_pass-Good id growing [] m g h = (tt, h, tt)
  translate_pass-Good id growing (x ∷ queue) m g h =
      let trail = trail_of x.0 ++ id ∷ [] in
      let looped = translate_pass-Good id growing queue m g.1 h in
      let ran =
        translate_pass-Good id growing queue (map (translate_entry trail x.1) m) g.1
          (run_translators-Good trail x.1 m h) in
      let effects : contains (trail_of x.0) id ≡ false → _ = λ new.
        All-append (GoodEffect P) _ _
          (All-flat_map GoodEntry (GoodEffect P) (λ e. (translate trail x.1 e.1).1) m
            (λ e _. translate_effects-Good trail x.1 e.1 (growing.grows (trail_of x.0) new g.0)) h)
          ran.2 in
      if_cases GoodPass (contains (trail_of x.0) id) _ _
        (λ _. ((g.0, looped.0), looped.1, looped.2))
        (λ new.
          if_cases GoodPass (is_translated trail x.1 m) _ _ (λ _. (ran.0, ran.1, effects new))
            (λ _. ((g.0, ran.0), ran.1, effects new)))

  -- A broker adds itself to the trail of a message that it forwards, and does not forward a message
  -- with itself on the trail.
  pub process_translate_messages-Good :
      (self : BrokerId) (n : Intern T S)
      → IsGrowing self P
      → Good self n
      → Good self (process_translate_messages n)
  process_translate_messages-Good self n growing g =
      let p =
        translate_pass-Good n.id (rw g.named growing) n.msg_queue n.subsystems g.queue
          g.subsystems in
      rw (process_translate_messages-pass n) (record {
        named = g.named;
        inputs = g.inputs;
        subsystems = p.1;
        queue = p.0;
        effects = All-append (GoodEffect P) n.effects _ g.effects p.2;
      })
