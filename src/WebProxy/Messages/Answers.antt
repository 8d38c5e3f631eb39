-- ===== src/WebProxy/Messages/Answers.antt =====
-- flmodules/src/web_proxy: an answer on its way from the node that makes the web request to the node
-- that asked for it.
use fledger.Prelude.{
  ℕ, suc, ◌+◌, ◌%◌, ◌^◌, ◌<◌, length, add_u32, Option, none, some, List, [], ◌∷◌, ◌++◌, ◌≡◌, refl,
  ap, sym, subst, ◌∙◌, arith, map, filter_map, filter_map-append, ==-refl,
}
use fledger.Prelude.Maps.{get, remove, get-remove}
use fledger.NodeIds.{NodeId, U256}
use fledger.WebProxy.Core.{
  Bytes, ResponseHeader, ResponseMessage, header, body, done, WebProxyCore, WebProxyStorage,
  count_packet, handle_response, answer,
}
use fledger.WebProxy.Messages.{
  WebProxyIn, WebProxyOut, from_network, to_network, response_get, update_storage, response,
  Handled, process_node_message, process_message, process_messages,
}

-- What a node sends over the network arrives as an input of the other one.
abbrev pub arrives : NodeId → WebProxyOut → Option WebProxyIn
arrives src (to_network dst msg) = some (from_network src msg)
arrives src (response_get n nonce h) = none
arrives src (update_storage s) = none

abbrev header_of : WebProxyOut → Option (NodeId × U256 × ResponseHeader)
header_of (to_network dst msg) = none
header_of (response_get n nonce h) = some (n, nonce, h)
header_of (update_storage s) = none

-- The counters after a number of packets, modulo 2 ^ 32.
abbrev pub packets_more : ℕ → WebProxyStorage → WebProxyStorage
packets_more n s = record s {
  counters = record s.counters { rx_packets = (s.counters.rx_packets + n) % 2 ^ 32 };
}

-- A batch is processed without a panic, makes no web request, sends on these bodies, reports these
-- headers, and leaves this state.
abbrev pub Ends :
    WebProxyCore
    → List WebProxyIn
    → List (U256 × Bytes)
    → List (NodeId × U256 × ResponseHeader)
    → WebProxyCore
    → Type 0
Ends c inputs bodies headers after =
    (r : Handled) × (process_messages c inputs ≡ some r)
    × (r.bodies ≡ bodies)
    × (filter_map header_of r.out ≡ headers)
    × (r.requests ≡ [])
    × (r.core ≡ after)

step :
    (c after : WebProxyCore) (i : WebProxyIn) (rest : List WebProxyIn) (h : Handled)
    (bodies : List (U256 × Bytes)) (headers : List (NodeId × U256 × ResponseHeader))
    → process_message c i ≡ some h
    → h.requests ≡ []
    → Ends h.core rest bodies headers after
    → Ends c (i ∷ rest) (h.bodies ++ bodies) (filter_map header_of h.out ++ headers) after
unfolding process_messages
step c after i rest h bodies headers e none_asked (r, ran, same, reported, none_more, left) = (
  record {
    core = r.core;
    out = h.out ++ r.out;
    bodies = h.bodies ++ r.bodies;
    requests = h.requests ++ r.requests;
  },
  ground (arith, e, ran),
  ap (λ b. h.bodies ++ b) same,
  filter_map-append header_of h.out r.out ∙ ap (λ hs. filter_map header_of h.out ++ hs) reported,
  ground (arith, none_asked, none_more),
  left,
)

module _ (src : NodeId) (nonce : U256) where
  abbrev input_for : ResponseMessage → WebProxyIn
  input_for m = from_network src (response nonce m)

  module _ (c : WebProxyCore) where
    -- An answer to a request that does not wait.
    late :
        get nonce c.requests ≡ none
        → process_message c (input_for done)
          ≡ some
              (record { core = c; out = update_storage c.storage ∷ []; bodies = []; requests = [] })
    unfolding process_message process_node_message handle_response
    late e = ground (arith, e)

    module _ (node : NodeId) (tx : U256) (e : get nonce c.requests ≡ some (node, tx)) where
      abbrev counted : WebProxyCore
      counted = record c { storage = count_packet c.storage }

      abbrev closed : WebProxyCore
      closed = record c { requests = remove nonce c.requests }

      on_header :
          (h : ResponseHeader)
          → process_message c (input_for (header h))
            ≡ some (record {
              core = counted;
              out = response_get src nonce h ∷ update_storage counted.storage ∷ [];
              bodies = [];
              requests = [];
            })
      unfolding process_message process_node_message handle_response answer
      on_header h = ground (arith, e)

      on_body :
          (b : Bytes)
          → process_message c (input_for (body b))
            ≡ some (record {
              core = counted;
              out = update_storage counted.storage ∷ [];
              bodies = (tx, b) ∷ [];
              requests = [];
            })
      unfolding process_message process_node_message handle_response answer
      on_body b = ground (arith, e)

      on_done :
          process_message c (input_for done)
          ≡ some (record {
            core = closed;
            out = update_storage c.storage ∷ [];
            bodies = [];
            requests = [];
          })
      unfolding process_message process_node_message handle_response answer
      on_done = ground (arith, e)

      closed-get : get nonce closed.requests ≡ none
      closed-get = ground (arith, get-remove nonce nonce c.requests, ==-refl nonce)

  -- The state after an answer of a number of packets.
  abbrev after_answer : ℕ → WebProxyCore → WebProxyCore
  after_answer n c = record c {
    storage = packets_more n c.storage;
    requests = remove nonce c.requests;
  }

  more_packets :
      (n : ℕ) (s : WebProxyStorage) → packets_more n (count_packet s) ≡ packets_more (suc n) s
  more_packets n s =
      let sum : (add_u32 s.counters.rx_packets 1 + n) % 2 ^ 32
          ≡ (s.counters.rx_packets + suc n) % 2 ^ 32 =
        omega arith in
      ap (λ k. record s { counters = record s.counters { rx_packets = k } }) sum

  no_packets : (s : WebProxyStorage) → s.counters.rx_packets < 2 ^ 32 → packets_more 0 s ≡ s
  no_packets s small =
      let same : (s.counters.rx_packets + 0) % 2 ^ 32 ≡ s.counters.rx_packets =
        omega (arith, small) in
      ap (λ k. record s { counters = record s.counters { rx_packets = k } }) same

  ended : (c : WebProxyCore) → get nonce c.requests ≡ none → Ends c (input_for done ∷ []) [] [] c
  unfolding process_messages
  ended c e =
      step c c (input_for done) [] _ [] [] (late c e) refl
        (record { core = c; out = []; bodies = []; requests = [] }, refl, refl, refl, refl, refl)

  bodies_end :
      (node : NodeId) (tx : U256) (chunks : List Bytes) (c : WebProxyCore)
      → get nonce c.requests ≡ some (node, tx)
      → c.storage.counters.rx_packets < 2 ^ 32
      → Ends c
          (map input_for (map body chunks ++ done ∷ done ∷ []))
          (map (λ b. (tx, b)) chunks)
          []
          (after_answer (length chunks) c)
  bodies_end node tx [] c e small =
      subst
        (λ s.
          Ends c (input_for done ∷ input_for done ∷ []) [] []
            (record c { storage = s; requests = remove nonce c.requests }))
        (sym (no_packets c.storage small))
        (step c _ (input_for done) (input_for done ∷ []) _ [] [] (on_done c node tx e) refl
          (ended (closed c node tx e) (closed-get c node tx e)))
  bodies_end node tx (b ∷ chunks) c e small =
      subst
        (λ s.
          Ends c (map input_for (map body (b ∷ chunks) ++ done ∷ done ∷ []))
            (map (λ b. (tx, b)) (b ∷ chunks)) []
            (record c { storage = s; requests = remove nonce c.requests }))
        (more_packets (length chunks) c.storage)
        (step c _ (input_for (body b)) _ _ _ [] (on_body c node tx e b) refl
          (bodies_end node tx chunks (counted c node tx e) e (omega arith)))

  answered :
      (node : NodeId) (tx : U256) (h : ResponseHeader) (chunks : List Bytes) (c : WebProxyCore)
      → get nonce c.requests ≡ some (node, tx)
      → Ends c
          (map input_for (header h ∷ (map body chunks ++ done ∷ done ∷ [])))
          (map (λ b. (tx, b)) chunks)
          ((src, nonce, h) ∷ [])
          (after_answer (suc (length chunks)) c)
  answered node tx h chunks c e =
      subst
        (λ s.
          Ends c (map input_for (header h ∷ (map body chunks ++ done ∷ done ∷ [])))
            (map (λ b. (tx, b)) chunks) ((src, nonce, h) ∷ [])
            (record c { storage = s; requests = remove nonce c.requests }))
        (more_packets (length chunks) c.storage)
        (step c _ (input_for (header h)) _ _ _ [] (on_header c node tx e h) refl
          (bodies_end node tx chunks (counted c node tx e) e (omega arith)))
