-- ===== src/GossipEvents/Storage/Laws.antt =====
-- flmodules/src/gossip_events/core.rs: the categories do not touch one another.
use fledger.Prelude.{◌≡◌, false, refl, inl, inr, some, arith, Option-cases, ◌≢◌, [], subst}
use mathlib.Core.Option.{some-injective}
use fledger.NodeIds.{U256}
use fledger.GossipEvents.Events.{
  Category, CategoryConfig, text_message, node_info, Event, Events, insert,
}
use fledger.GossipEvents.Events.Acceptance.{insert_refused}
use fledger.GossipEvents.Events.Unique
use fledger.GossipEvents.Events.Unique.{insert-IsValid}
use fledger.GossipEvents.Storage.{EventsStorage, get_category, put_category, add_event, new}

module _ (get_id : Event → U256) where
  -- Every category that is there has valid events.
  abbrev pub IsValid : EventsStorage → Type 0
  IsValid s =
      (cat : Category) (es : Events) → get_category s cat ≡ some es → Unique.IsValid get_id es

  no_events-IsValid :
      (c : CategoryConfig) → Unique.IsValid get_id (record { config = c; events = [] })
  no_events-IsValid c = record {
    once = λ id. omega arith;
    named = tt;
    bounded = omega arith;
    one_per_source = λ u src. omega arith;
  }

  pub new-IsValid : IsValid new
  new-IsValid text_message es h =
      subst (Unique.IsValid get_id) (some-injective _ _ h) (no_events-IsValid _)
  new-IsValid node_info es h =
      subst (Unique.IsValid get_id) (some-injective _ _ h) (no_events-IsValid _)

  get-put_category :
      (s : EventsStorage) (cat : Category) (es : Events)
      → get_category (put_category s cat es) cat ≡ some es
  get-put_category s text_message es = refl
  get-put_category s node_info es = refl

  get-put_category_ne :
      (s : EventsStorage) (cat other : Category) (es : Events)
      → cat ≢ other
      → get_category (put_category s cat es) other ≡ get_category s other
  get-put_category_ne s text_message text_message es h = absurd (h refl)
  get-put_category_ne s text_message node_info es h = refl
  get-put_category_ne s node_info text_message es h = refl
  get-put_category_ne s node_info node_info es h = absurd (h refl)

  put_category-IsValid :
      (s : EventsStorage) (cat : Category) (es : Events)
      → IsValid s
      → Unique.IsValid get_id es
      → IsValid (put_category s cat es)
  put_category-IsValid s text_message es v w text_message fs h =
      subst (Unique.IsValid get_id) (ground arith) w
  put_category-IsValid s text_message es v w node_info fs h = v node_info fs h
  put_category-IsValid s node_info es v w text_message fs h = v text_message fs h
  put_category-IsValid s node_info es v w node_info fs h =
      subst (Unique.IsValid get_id) (ground arith) w

  pub add_event-IsValid :
      (s : EventsStorage) (msg : Event) → IsValid s → IsValid (add_event get_id s msg).0
  unfolding add_event
  add_event-IsValid s msg v = elim (Option-cases (get_category s msg.category)) [
    | inl missing ↦ rw (missing, add_event) v
    | inr (es, there) ↦
        rw (there, add_event)
          (put_category-IsValid s msg.category (insert get_id es msg).0 v
            (insert-IsValid get_id es msg (v msg.category es there)))
  ]

  -- An event changes its own category only.
  pub add_event_other :
      (s : EventsStorage) (msg : Event) (other : Category)
      → msg.category ≢ other
      → get_category (add_event get_id s msg).0 other ≡ get_category s other
  unfolding add_event
  add_event_other s msg other h = elim (Option-cases (get_category s msg.category)) [
    | inl missing ↦ rw (missing, add_event)
    | inr (es, there) ↦ rw (there, add_event) (get-put_category_ne s msg.category other _ h)
  ]

  pub add_event_there :
      (s : EventsStorage) (msg : Event) (es : Events)
      → get_category s msg.category ≡ some es
      → add_event get_id s msg
        ≡ (put_category s msg.category (insert get_id es msg).0, (insert get_id es msg).1)
  unfolding add_event
  add_event_there s msg es there = rw (there, add_event)

  pub get-add_event :
      (s : EventsStorage) (msg : Event) (es : Events)
      → get_category s msg.category ≡ some es
      → get_category (add_event get_id s msg).0 msg.category ≡ some (insert get_id es msg).0
  get-add_event s msg es there =
      rw (add_event_there s msg es there) (get-put_category s msg.category (insert get_id es msg).0)

  put_category_same :
      (s : EventsStorage) (cat : Category) (es : Events)
      → get_category s cat ≡ some es
      → put_category s cat es ≡ s
  put_category_same s text_message es h = ground arith
  put_category_same s node_info es h = ground arith

  -- An event that the storage does not take changes nothing.
  pub add_event_unchanged :
      (s : EventsStorage) (msg : Event)
      → (add_event get_id s msg).1 ≡ false
      → (add_event get_id s msg).0 ≡ s
  unfolding add_event
  add_event_unchanged s msg h = elim (Option-cases (get_category s msg.category)) [
    | inl e ↦ ground (arith, e)
    | inr (es, e) ↦
        let refused : (insert get_id es msg).1 ≡ false = ground (arith, h, e) in
        let same = (insert_refused get_id es msg refused).0 in
        ground (arith, e, same, put_category_same s msg.category es e)
  ]
