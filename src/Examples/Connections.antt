-- ===== src/Examples/Connections.antt =====
-- flarch/src/web_rtc/node_connection.rs, the bytes of identifiers, and the equality of nodes.
use fledger.Prelude.{ℕ, ◌≡◌, ◌⊎◌, String, true, List, [], ◌∷◌, ◌++◌, some}
use fledger.NodeInfo.{NodeInfo}
use fledger.WebRtc.Messages.{out_connected, rtc_output, Direction}
use fledger.WebRtc.NodeConnection.{
  NcMessage, text, input, from_outgoing, NodeConnection, on_connection, is_open, open_state,
  message, messages, new,
}
use fledger.WebRtc.NodeConnection.Queue.{sent, texts_in_order}
use fledger.WebRtc.NodeConnection.Opening.{queue_empties}

abbrev talk : List NcMessage
talk =
    input (text "a")
    ∷ input (text "b")
    ∷ from_outgoing (rtc_output out_connected)
    ∷ input (text "c")
    ∷ []

texts_in_order_example :
    sent (messages new talk).1 ++ (messages new talk).0.msg_queue ≡ "a" ∷ "b" ∷ "c" ∷ []
texts_in_order_example = texts_in_order new talk

abbrev opened : NodeConnection
opened = record new { state_outgoing = some open_state }

queue_empties_example :
    ((t : String)
      → (is_open opened.state_outgoing ≡ true) ⊎ (is_open opened.state_incoming ≡ true)
      → (message opened (input (text t))).0.msg_queue ≡ [])
    × ((dir : Direction)
        → (message opened (on_connection dir (rtc_output out_connected))).0.msg_queue ≡ [])
queue_empties_example = queue_empties opened

abbrev eight : ℕ → List ℕ
eight n = n ∷ 0 ∷ 0 ∷ 255 ∷ 1 ∷ 2 ∷ 3 ∷ 4 ∷ []

abbrev key : ℕ → List ℕ
key n = eight n ++ eight 5 ++ eight 6 ++ eight 7

abbrev pub named : String → ℕ → NodeInfo
named name n = record { name = name; client = "test"; pubkey = key n; modules = 0 }
