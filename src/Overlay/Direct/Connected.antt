-- ===== src/Overlay/Direct/Connected.antt =====
-- flmodules/src/overlay/broker.rs: which nodes `OverlayDirect` holds as connected.
use fledger.Prelude.{
  Bool, true, false, not, some, List, [], ◌∷◌, ◌≡◌, sym, ap, ◌∙◌, inl, inr, arith, ◌==◌, ==_iff,
  ◌&&◌, ◌||◌, if◌then◌else◌, Bool-cases, Option-cases, contains, contains-append, contains-retain,
  any,
}
use fledger.NodeIds.{U256}
use fledger.NodeInfo.{NodeInfo, id_of, get_id}
use fledger.Overlay.{OverlayMessage, connected, disconnected, available, input, output, internal}
use fledger.Overlay.Direct.{
  OverlayDirect, is_available, available_connected, handle_internal, handle_all, outputs, messages,
}

-- Whether a list of nodes has a node with this identifier.
abbrev lists_node : U256 → List NodeInfo → Bool
lists_node id = any (λ info. id_of info == id)

is_available-lists_node :
    (id : U256) (infos : List NodeInfo) (b : Bool)
    → is_available id infos ≡ some b
    → b ≡ lists_node id infos
unfolding is_available get_id
is_available-lists_node id [] b h = ground arith
is_available-lists_node id (info ∷ infos) b h =
    ground (arith, h, is_available-lists_node id infos b)

-- A node is connected once it is reported as connected while the last list of nodes has it, and
-- until it is reported as disconnected. This reads the messages alone.
unfoldable pub is_connected : U256 → List NodeInfo → Bool → List OverlayMessage → Bool
is_connected id infos c [] = c
is_connected id infos c (input msg ∷ msgs) = is_connected id infos c msgs
is_connected id infos c (output msg ∷ msgs) = is_connected id infos c msgs
is_connected id infos c (internal (connected k) ∷ msgs) =
    is_connected id infos (c || ((k == id) && lists_node id infos)) msgs
is_connected id infos c (internal (disconnected k) ∷ msgs) =
    is_connected id infos (c && not (k == id)) msgs
is_connected id infos c (internal (available list) ∷ msgs) = is_connected id list c msgs

module _ (id : U256) where
  connected-step :
      (od od' : OverlayDirect) (k : U256) (r : Bool)
      → handle_internal od (connected k) ≡ some (od', r)
      → (contains od'.nodes_connected id
          ≡ (contains od.nodes_connected id || ((k == id) && lists_node id od.nodes_available)))
        × (od'.nodes_available ≡ od.nodes_available)
  unfolding handle_internal available_connected
  connected-step od od' k r h = elim (Option-cases (is_available k od.nodes_available)) [
    | inl e ↦ absurd (ground (arith, h, e))
    | inr (a, e) ↦
        let found = is_available-lists_node k od.nodes_available a e in
        (
          elim (Bool-cases (k == id)) [
            | inl same ↦
                let it : k ≡ id = (==_iff k id).0 same in
                ground (
                  arith,
                  h,
                  e,
                  same,
                  found,
                  contains-append od.nodes_connected (k ∷ []) id,
                  ap (λ x. lists_node x od.nodes_available) it,
                  ap (contains od.nodes_connected) it,
                )
            | inr other ↦
                ground (arith, h, e, other, contains-append od.nodes_connected (k ∷ []) id)
          ],
          ground (arith, h, e),
        )
  ]

  disconnected-step :
      (od od' : OverlayDirect) (k : U256) (r : Bool)
      → handle_internal od (disconnected k) ≡ some (od', r)
      → (contains od'.nodes_connected id ≡ (contains od.nodes_connected id && not (k == id)))
        × (od'.nodes_available ≡ od.nodes_available)
  unfolding handle_internal available_connected
  disconnected-step od od' k r h = elim (Option-cases (is_available k od.nodes_available)) [
    | inl e ↦ absurd (ground (arith, h, e))
    | inr (a, e) ↦ (
      elim (Bool-cases (k == id)) [
        | inl same ↦
            let it : k ≡ id = (==_iff k id).0 same in
            ground (
              arith,
              h,
              e,
              same,
              ==_iff id k,
              contains-retain (λ other. not (other == k)) od.nodes_connected id,
              ap (contains od.nodes_connected) it,
            )
        | inr other ↦ ground (
          arith,
          h,
          e,
          other,
          ==_iff id k,
          ==_iff k id,
          contains-retain (λ other. not (other == k)) od.nodes_connected id,
        )
      ],
      ground (arith, h, e),
    )
  ]

  handle_all-is_connected :
      (od od' : OverlayDirect) (ret r : Bool) (msgs : List OverlayMessage)
      → handle_all od ret msgs ≡ some (od', r)
      → contains od'.nodes_connected id
        ≡ is_connected id od.nodes_available (contains od.nodes_connected id) msgs
  unfolding handle_all is_connected
  handle_all-is_connected od od' ret r [] h = ground (arith, h)
  handle_all-is_connected od od' ret r (input msg ∷ msgs) h =
      handle_all-is_connected od od' ret r msgs h
  handle_all-is_connected od od' ret r (output msg ∷ msgs) h =
      handle_all-is_connected od od' ret r msgs h
  handle_all-is_connected od od' ret r (internal (connected k) ∷ msgs) h =
      elim (Option-cases (handle_internal od (connected k))) [
        | inl e ↦ absurd (ground (arith, h, e))
        | inr ((mid, changed), e) ↦
            let (now, same) = connected-step od mid k changed e in
            let rest : handle_all mid (if changed then true else ret) msgs ≡ some (od', r) =
              ground (arith, h, e) in
            handle_all-is_connected mid od' _ r msgs rest
            ∙ (λ i. is_connected id (same i) (now i) msgs)
      ]
  handle_all-is_connected od od' ret r (internal (disconnected k) ∷ msgs) h =
      elim (Option-cases (handle_internal od (disconnected k))) [
        | inl e ↦ absurd (ground (arith, h, e))
        | inr ((mid, changed), e) ↦
            let (now, same) = disconnected-step od mid k changed e in
            let rest : handle_all mid (if changed then true else ret) msgs ≡ some (od', r) =
              ground (arith, h, e) in
            handle_all-is_connected mid od' _ r msgs rest
            ∙ (λ i. is_connected id (same i) (now i) msgs)
      ]
  handle_all-is_connected od od' ret r (internal (available infos) ∷ msgs) h =
      handle_all-is_connected (record od { nodes_available = infos }) od' true r msgs
        (ground (arith, h))

  -- What `OverlayDirect` holds as connected after a batch is what the messages themselves say, node
  -- by node: the list that it keeps and changes in place implements that description.
  pub messages-is_connected :
      (od od' : OverlayDirect) (msgs out : List OverlayMessage)
      → messages od msgs ≡ some (od', out)
      → contains od'.nodes_connected id
        ≡ is_connected id od.nodes_available (contains od.nodes_connected id) msgs
  unfolding messages
  messages-is_connected od od' msgs out h = elim (Option-cases (handle_all od false msgs)) [
    | inl e ↦ absurd (ground (arith, h, e))
    | inr ((mid, r), e) ↦
        let kept = handle_all-is_connected od mid false r msgs e in
        elim (Bool-cases r) [
          | inr quiet ↦ ground (arith, h, e, quiet, kept)
          | inl loud ↦ elim (Option-cases (outputs mid)) [
            | inl f ↦ absurd (ground (arith, h, e, loud, f))
            | inr (os, f) ↦
                let same : mid ≡ od' = ground (arith, h, e, loud, f) in
                ap (λ o. contains o.nodes_connected id) (sym same) ∙ kept
          ]
        ]
  ]
