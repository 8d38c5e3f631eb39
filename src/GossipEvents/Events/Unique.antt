-- ===== src/GossipEvents/Events/Unique.antt =====
-- flmodules/src/gossip_events/core.rs: what `insert` accepts, and what stays true of the events.
use fledger.Prelude.{
  ◌+◌, ◌≤◌, ◌≡◌, refl, ap, inl, inr, Bool, true, not, none, some, List, [], ◌∷◌, ◌++◌, map, arith,
  leb, ◌==◌, ==_iff, ==-refl, if◌then◌else◌, Bool-cases, Option-cases, is_some, if_cases, length,
  find, All, All-retain, count, IsDistinct,
}
use fledger.Prelude.Int.{ltb_ℤ}
use fledger.Prelude.Maps.{
  Map, keys, get, insert as map_insert, remove, remove_all, get-remove, insert_new,
  insert-IsDistinct, remove-IsDistinct, All-insert, All-remove_all,
}
use fledger.NodeIds.{NodeId, U256}
use fledger.GossipEvents.Events.{
  Event, Events, surplus, limit, insert_simple, insert_unique, insert,
}
use fledger.GossipEvents.Events.Limit.{length-limit, limit-IsDistinct}

abbrev sources : Map Event → List NodeId
sources = map (λ e. e.1.src)

abbrev from : NodeId → U256 × Event → Bool
from src e = e.1.src == src

module _ (src : NodeId) where
  find-none : (m : Map Event) → find (from src) m ≡ none → count src (sources m) ≡ 0
  find-none [] h = refl
  find-none (e ∷ m) h = ground (arith, find-none m)

  count-sources-remove :
      (m : Map Event) (k : U256) → count src (sources (remove k m)) ≤ count src (sources m)
  count-sources-remove [] k = omega arith
  count-sources-remove (e ∷ m) k = ground (arith, count-sources-remove m k)

  -- Removing the event that was found takes one event of the source away.
  find-some :
      (m : Map Event) (e : U256 × Event)
      → find (from src) m ≡ some e
      → (e.1.src ≡ src) × (count src (sources (remove e.0 m)) + 1 ≤ count src (sources m))
  find-some [] e h = cc
  find-some (x ∷ m) e h = elim (Bool-cases (from src x)) [
    | inl here ↦
        let found : x ≡ e = ground arith in
        ground (
          arith,
          ==-refl e.0,
          count-sources-remove m e.0,
          ==_iff x.1.src src,
          ap (λ (y : U256 × Event). y.0) found,
        )
    | inr there ↦ ground (arith, find-some m e (ground arith))
  ]

count-sources-remove_all :
    (src : NodeId) (ks : List U256) (m : Map Event)
    → count src (sources (remove_all ks m)) ≤ count src (sources m)
count-sources-remove_all src [] m = omega arith
count-sources-remove_all src (k ∷ ks) m =
    omega (arith, count-sources-remove_all src ks (remove k m), count-sources-remove src m k)

count-sources-append :
    (src : NodeId) (m n : Map Event)
    → count src (sources (m ++ n)) ≡ count src (sources m) + count src (sources n)
count-sources-append src [] n = omega arith
count-sources-append src (e ∷ m) n = omega (arith, count-sources-append src m n)

module _ (get_id : Event → U256) where
  -- Every key is the identifier of its event, the number of events is within its bound, and a
  -- category with unique events holds one event of each source at most.
  pub record IsValid (es : Events) : Type 0 where
    pub once : IsDistinct (keys es.events)
    pub named : All (λ e. get_id e.1 ≡ e.0) es.events
    pub bounded : length es.events ≤ es.config.max_events
    pub one_per_source :
        es.config.unique ≡ true → (src : NodeId) → count src (map (λ e. e.1.src) es.events) ≤ 1

  -- What `insert_simple` needs of the events: all but the bound, and no event of the source.
  record IsReady (es : Events) (msg : Event) : Type 0 where
    once : IsDistinct (keys es.events)
    named : All (λ e. get_id e.1 ≡ e.0) es.events
    absent : get (get_id msg) es.events ≡ none
    no_other :
        es.config.unique ≡ true
        → (src : NodeId) → count src (sources es.events) + (if msg.src == src then 1 else 0) ≤ 1

  limit_same_config : (es : Events) → (limit es).config ≡ es.config
  unfolding limit
  limit_same_config es = ground arith

  All-limit :
      (es : Events)
      → All (λ e. get_id e.1 ≡ e.0) es.events
      → All (λ e. get_id e.1 ≡ e.0) (limit es).events
  unfolding limit
  All-limit es a = elim (Bool-cases (leb (length es.events) es.config.max_events)) [
    | inl few ↦ rw few a
    | inr many ↦ rw many (All-remove_all _ (surplus es) es.events a)
  ]

  count-sources-limit :
      (es : Events) (src : NodeId)
      → count src (sources (limit es).events) ≤ count src (sources es.events)
  unfolding limit
  count-sources-limit es src = ground (arith, count-sources-remove_all src (surplus es) es.events)

  count-sources-insert :
      (es : Events) (msg : Event) (src : NodeId)
      → IsReady es msg
      → count src (sources (map_insert (get_id msg) msg es.events))
        ≡ count src (sources es.events) + (if msg.src == src then 1 else 0)
  count-sources-insert es msg src ready =
      rw (insert_new (get_id msg) msg es.events ready.absent)
        (omega (arith, count-sources-append src es.events ((get_id msg, msg) ∷ [])))

  insert_simple-IsValid :
      (es : Events) (msg : Event) → IsReady es msg → IsValid (insert_simple get_id es msg).0
  unfolding insert_simple
  insert_simple-IsValid es msg ready =
      let wide = record es { events = map_insert (get_id msg) msg es.events } in
      let once = insert-IsDistinct (get_id msg) msg es.events ready.once in
      record {
        once = limit-IsDistinct wide once;
        named = All-limit wide (All-insert _ (get_id msg) msg es.events refl ready.named);
        bounded = rw limit_same_config (omega (arith, length-limit wide once));
        one_per_source = λ unique src.
            let u : es.config.unique ≡ true = ground (arith, limit_same_config wide) in
            omega (
              arith,
              count-sources-limit wide src,
              count-sources-insert es msg src ready,
              ready.no_other u src,
            );
      }

  removed-IsReady :
      (es : Events) (msg : Event) (e : U256 × Event)
      → IsValid es
      → get (get_id msg) es.events ≡ none
      → es.config.unique ≡ true
      → find (λ e. e.1.src == msg.src) es.events ≡ some e
      → IsReady (record es { events = remove e.0 es.events }) msg
  removed-IsReady es msg e v absent unique found = record {
    once = remove-IsDistinct e.0 es.events v.once;
    named = All-retain _ (λ x. not (x.0 == e.0)) es.events v.named;
    absent = ground (arith, get-remove e.0 (get_id msg) es.events);
    no_other = λ u src. ground (
      arith,
      find-some msg.src es.events e found,
      count-sources-remove src es.events e.0,
      v.one_per_source u src,
      ==_iff msg.src src,
    );
  }

  abbrev Accepted : Events × Bool → Type 0
  Accepted r = IsValid r.0

  insert_unique-IsValid :
      (es : Events) (msg : Event)
      → IsValid es
      → get (get_id msg) es.events ≡ none
      → es.config.unique ≡ true
      → IsValid (insert_unique get_id es msg).0
  unfolding insert_unique
  insert_unique-IsValid es msg v absent unique =
      elim (Option-cases (find (λ e. e.1.src == msg.src) es.events)) [
        | inl new_source ↦
            rw (insert_unique, new_source)
              (insert_simple-IsValid es msg (record {
                once = v.once;
                named = v.named;
                absent = absent;
                no_other = λ u src. ground (
                  arith,
                  v.one_per_source u src,
                  find-none msg.src es.events new_source,
                  ==_iff msg.src src,
                );
              }))
        | inr (e, found) ↦
            rw (insert_unique, found)
              (if_cases Accepted (ltb_ℤ msg.created e.1.created) _ _ (λ newer. v)
                (λ older.
                  insert_simple-IsValid _ msg (removed-IsReady es msg e v absent unique found)))
      ]

  -- `insert` keeps the events valid, whether it accepts the new one or not.
  pub insert-IsValid : (es : Events) (msg : Event) → IsValid es → IsValid (insert get_id es msg).0
  unfolding insert
  insert-IsValid es msg v =
      if_cases Accepted (is_some (get (get_id msg) es.events)) _ _ (λ stored. v)
        λ new.
          let absent : get (get_id msg) es.events ≡ none = ground arith in
          if_cases Accepted es.config.unique _ _
            (λ unique. insert_unique-IsValid es msg v absent unique)
            (λ simple.
              insert_simple-IsValid es msg (record {
                once = v.once;
                named = v.named;
                absent = absent;
                no_other = λ u src. cc;
              }))
