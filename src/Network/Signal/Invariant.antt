-- ===== src/Network/Signal/Invariant.antt =====
-- flmodules/src/network/signal.rs: every connection has its time, under every message.
use fledger.Prelude.{
  ℕ, ◌+◌, ◌^◌, ◌≤◌, ◌<◌, ◌≡◌, subst, true, false, Option, none, some, List, [], ◌∷◌, arith, ◌==◌,
  ==_iff, is_some, Option-cases, Bool-cases, inl, inr, if_cases, IsDistinct,
}
use fledger.Prelude.Maps.{
  Map, keys, get, get-insert, get-remove, insert-IsDistinct, remove-IsDistinct,
}
use fledger.NodeIds.{U256, to_bytes}
use fledger.NodeInfo.{NodeInfo, get_id, verify}
use fledger.WebRtc.Messages.{PeerInfo, get_remote}
use fledger.WebRtc.Websocket.{
  WsServerOutput, out_message, new_connection, disconnection, stopped, server_output, server_input,
}
use fledger.Network.Messages.{
  MessageAnnounce, WsSignalMessageFromNode, announce, list_ids_request, from_peer_setup, node_stats,
}
use fledger.Network.Signal.{
  Env, BiMapLaws, SignalServer, SignalMessage, input, output, ws_server, timer, new, Handled,
  remove_node, ws_announce, ws_peer_setup, ws_list_ids, ws_node_stats, msg_ws_process,
  msg_ws_connect, renew, with_rng, msg_wss, msg_in_timer, message, messages,
}
use fledger.Network.Signal.Timer.{minutes-timer, timer-entry, timer-IsDistinct}

-- The server's configured time fits a `u64` and is not zero, no connection is out of time or has more
-- than the configured time, and every connection with an identifier has a time.
pub record IsTimed (env : Env) (s : SignalServer env) : Type 0 where
  pub minutes : (0 < s.ttl_minutes) × (s.ttl_minutes < 2 ^ 64)
  pub once : IsDistinct (keys s.ttl)
  pub in_time : (k t : ℕ) → get k s.ttl ≡ some t → (0 < t) × (t ≤ s.ttl_minutes)
  pub timed :
      (k : ℕ) (id : U256)
      → env.get_by_right s.connection_ids k ≡ some id
      → is_some (get k s.ttl) ≡ true

module _ (env : Env) (laws : BiMapLaws env) where
  -- An identifier of another connection was there before the insertion.
  still_there :
      (m : env.BiMap) (l : U256) (r k : ℕ) (id : U256)
      → env.get_by_right (env.insert_pair m l r) k ≡ some id
      → (r == k) ≡ false
      → (old : U256) × (env.get_by_right m k ≡ some old)
  still_there m l r k id e other = elim (Option-cases (env.get_by_right m k)) [
    | inl away ↦ absurd (ground (arith, laws.right_insert m l r k))
    | inr found ↦ found
  ]

module _ (env : Env) (laws : BiMapLaws env) where
  open env use {Rng}

  -- The server starts that way.
  pub new-IsTimed : (n : ℕ) → n + 2 < 2 ^ 64 → IsTimed env (new env n)
  new-IsTimed n h = record {
    minutes = omega arith;
    once = λ k. omega arith;
    in_time = λ k t e. cc;
    timed = λ k id e. ground (arith, laws.right_empty k);
  }

  module _ (s : SignalServer env) (v : IsTimed env s) where
    renew-IsTimed : (index : ℕ) → IsTimed env (renew env s index)
    renew-IsTimed index =
        if_cases (IsTimed env) (is_some (get index s.ttl)) _ _
          (λ there. record {
            minutes = v.minutes;
            once = insert-IsDistinct index s.ttl_minutes s.ttl v.once;
            in_time = λ k t e.
                ground (arith, get-insert index k s.ttl_minutes s.ttl, v.in_time k t, v.minutes);
            timed = λ k id e. ground (arith, get-insert index k s.ttl_minutes s.ttl, v.timed k id);
          })
          (λ away. v)

    remove_node-IsTimed : (index : ℕ) → IsTimed env (remove_node env s index)
    unfolding remove_node
    remove_node-IsTimed index = record {
      minutes = v.minutes;
      once = remove-IsDistinct index s.ttl v.once;
      in_time = λ k t e. ground (arith, get-remove index k s.ttl, v.in_time k t);
      timed = λ k id e. ground (
        arith,
        get-remove index k s.ttl,
        laws.right_remove s.connection_ids index k,
        v.timed k id,
      );
    }

    connect-IsTimed : (rng : Rng) (index : ℕ) → IsTimed env (msg_ws_connect env rng s index).0
    unfolding msg_ws_connect
    connect-IsTimed rng index = record {
      minutes = v.minutes;
      once = insert-IsDistinct index s.ttl_minutes s.ttl v.once;
      in_time =
          λ k t e. ground (arith, get-insert index k s.ttl_minutes s.ttl, v.in_time k t, v.minutes);
      timed = λ k id e. elim (Bool-cases (index == k)) [
        | inl own ↦ ground (arith, get-insert index k s.ttl_minutes s.ttl)
        | inr other ↦
            let (old, before) =
              still_there env laws s.connection_ids (env.rnd rng).0 index k id e other in
            ground (arith, get-insert index k s.ttl_minutes s.ttl, v.timed k old before)
      ];
    }

    timer-IsTimed : IsTimed env (msg_in_timer env s)
    timer-IsTimed = record {
      minutes = rw minutes-timer v.minutes;
      once = timer-IsDistinct env laws s v.once;
      in_time = λ k t e. elim (Option-cases (get k s.ttl)) [
        | inl away ↦ absurd (ground (arith, (timer-entry env laws s v.once k).0))
        | inr (old, before) ↦ ground (
          arith,
          (timer-entry env laws s v.once k).0,
          v.in_time k old before,
          v.minutes,
          minutes-timer env s,
        )
      ];
      timed = λ k id e. elim (Option-cases (env.get_by_right s.connection_ids k)) [
        | inl away ↦ absurd (ground (arith, (timer-entry env laws s v.once k).1))
        | inr (old, before) ↦ ground (arith, timer-entry env laws s v.once k, v.timed k old before)
      ];
    }

    registered-IsTimed :
        (id previous : U256) (index : ℕ) (info : Map NodeInfo)
        → env.get_by_right s.connection_ids index ≡ some previous
        → IsTimed env
            (record s { connection_ids = env.insert_pair s.connection_ids id index; info = info })
    registered-IsTimed id previous index info had = record {
      minutes = v.minutes;
      once = v.once;
      in_time = v.in_time;
      timed = λ k other e. elim (Bool-cases (index == k)) [
        | inl own ↦ ground (arith, v.timed index previous had, ==_iff index k)
        | inr away ↦
            let (old, before) = still_there env laws s.connection_ids id index k other e away in
            v.timed k old before
      ];
    }

    abbrev TimedResult : Option (Handled env) → Type 0
    TimedResult none = Unit
    TimedResult (some h) = IsTimed env h.0

    announce-IsTimed :
        (index : ℕ) (msg : MessageAnnounce) → TimedResult (ws_announce env s index msg)
    unfolding ws_announce
    announce-IsTimed index msg = elim (Option-cases (env.get_by_right s.connection_ids index)) [
      | inl unknown ↦ rw (unknown, ws_announce) v
      | inr (previous, had) ↦
          elim (Option-cases (verify env.ed25519 msg.node_info (to_bytes previous) msg.signature)) [
            | inl unreadable ↦ rw (had, ws_announce, unreadable) tt
            | inr (false, wrong) ↦ rw (had, ws_announce, wrong) v
            | inr (true, right) ↦ elim (Option-cases (get_id msg.node_info)) [
              | inl short ↦ rw (had, ws_announce, right, short) tt
              | inr (id, named) ↦
                  rw (had, ws_announce, right, named) (registered-IsTimed id previous index _ had)
            ]
          ]
    ]

    peer_setup-IsTimed : (index : ℕ) (pi : PeerInfo) → IsTimed env (ws_peer_setup env s index pi).0
    unfolding ws_peer_setup
    peer_setup-IsTimed index pi = elim (Option-cases (env.get_by_right s.connection_ids index)) [
      | inl unknown ↦ rw (unknown, ws_peer_setup) v
      | inr (id, had) ↦ elim (Option-cases (get_remote pi id)) [
        | inl stranger ↦ rw (had, ws_peer_setup, stranger) v
        | inr (dst, remote) ↦ elim (Option-cases (env.get_by_left s.connection_ids dst)) [
          | inl away ↦ rw (had, ws_peer_setup, remote, away) v
          | inr (dst_index, there) ↦ rw (had, ws_peer_setup, remote, there) v
        ]
      ]
    ]

    process-IsTimed :
        (index : ℕ) (msg : WsSignalMessageFromNode) → TimedResult (msg_ws_process env s index msg)
    unfolding msg_ws_process ws_list_ids ws_node_stats
    process-IsTimed index (announce ann) = announce-IsTimed index ann
    process-IsTimed index list_ids_request = v
    process-IsTimed index (from_peer_setup pi) = peer_setup-IsTimed index pi
    process-IsTimed index (node_stats ns) = v

  abbrev TimedRun : Option (SignalServer env × List SignalMessage × Rng) → Type 0
  TimedRun none = Unit
  TimedRun (some h) = IsTimed env h.0

  with_rng-IsTimed :
      (rng : Rng) (s : SignalServer env) (v : IsTimed env s) (h : Option (Handled env))
      → TimedResult s v h
      → TimedRun (with_rng env rng h)
  unfolding with_rng
  with_rng-IsTimed rng s v none t = tt
  with_rng-IsTimed rng s v (some h) t = t

  wss-IsTimed :
      (rng : Rng) (s : SignalServer env) (msg : WsServerOutput)
      → IsTimed env s
      → TimedRun (msg_wss env rng s msg)
  unfolding msg_wss
  wss-IsTimed rng s (out_message index text) v =
      let w = renew-IsTimed s v index in
      elim (Option-cases (env.from_str text)) [
        | inl unreadable ↦ rw (unreadable, msg_wss) w
        | inr (msg, e) ↦
            rw (e, msg_wss)
              (with_rng-IsTimed rng (renew env s index) w _
                (process-IsTimed (renew env s index) w index msg))
      ]
  wss-IsTimed rng s (new_connection index) v = connect-IsTimed s v rng index
  wss-IsTimed rng s (disconnection index) v = remove_node-IsTimed s v index
  wss-IsTimed rng s stopped v = v

  message-IsTimed :
      (rng : Rng) (s : SignalServer env) (msg : SignalMessage)
      → IsTimed env s
      → TimedRun (message env rng s msg)
  unfolding message
  message-IsTimed rng s (input timer) v = timer-IsTimed s v
  message-IsTimed rng s (output msg) v = v
  message-IsTimed rng s (ws_server (server_output msg)) v = wss-IsTimed rng s msg v
  message-IsTimed rng s (ws_server (server_input msg)) v = v

  messages_timed :
      (rng : Rng) (s : SignalServer env) (msgs : List SignalMessage)
      → IsTimed env s
      → TimedRun (messages env rng s msgs)
  unfolding messages
  messages_timed rng s [] v = v
  messages_timed rng s (msg ∷ msgs) v = elim (Option-cases (message env rng s msg)) [
    | inl stopped_now ↦ rw (stopped_now, messages) tt
    | inr ((s', out, rng'), e) ↦
        let later = messages_timed rng' s' msgs (subst TimedRun e (message-IsTimed rng s msg v)) in
        elim (Option-cases (messages env rng' s' msgs)) [
          | inl stopped_later ↦ rw (e, messages, stopped_later) tt
          | inr ((s'', rest, rng''), f) ↦ rw (e, messages, f) (subst TimedRun f later)
        ]
  ]

  -- From a state in which it is so, however websockets come and go and whatever their nodes send,
  -- in a run that does not panic every connection with an identifier has a time, which is not zero
  -- and at most the configured one: the subtraction of the timer does not wrap.
  pub messages-IsTimed :
      (rng rng' : Rng) (s s' : SignalServer env) (msgs out : List SignalMessage)
      → IsTimed env s
      → messages env rng s msgs ≡ some (s', out, rng')
      → IsTimed env s'
  messages-IsTimed rng rng' s s' msgs out v h = subst TimedRun h (messages_timed rng s msgs v)
