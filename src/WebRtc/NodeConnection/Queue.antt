-- ===== src/WebRtc/NodeConnection/Queue.antt =====
-- flarch/src/web_rtc/node_connection.rs: no text is lost, repeated or overtaken in the queue.
use mathlib.Core.List.{append_assoc, append-nil}
use fledger.Prelude.{
  ◌≡◌, refl, ap, ◌∙◌, sym, String, not, Option, none, some, List, [], ◌∷◌, ◌++◌, map, is_empty,
  is_some, if_cases,
}
use fledger.WebRtc.Messages.{
  ConnectionStateMap, out_connected, out_disconnected, out_text, out_setup, out_state, out_error,
  in_text, in_setup, in_flush, in_update_state, in_reset, in_disconnect, WebRtcMessage, rtc_output,
  rtc_input, Direction, incoming, outgoing,
}
use fledger.WebRtc.NodeConnection.{
  NcInput, text, disconnect, get_states, setup, NcMessage, output, input, from_incoming,
  from_outgoing, NodeConnection, Handled, on_connection, is_open, send, send_waiting, send_queue,
  state_list, msg_in, put_state, open_state, reset, msg_conn, message, messages,
}

abbrev rtc_texts : WebRtcMessage → List String
rtc_texts (rtc_output msg) = []
rtc_texts (rtc_input (in_text t)) = t ∷ []
rtc_texts (rtc_input (in_setup pm)) = []
rtc_texts (rtc_input in_flush) = []
rtc_texts (rtc_input in_update_state) = []
rtc_texts (rtc_input in_reset) = []
rtc_texts (rtc_input in_disconnect) = []

-- The text that a message carries to one of the two connections.
abbrev texts_of : NcMessage → List String
texts_of (output msg) = []
texts_of (input msg) = []
texts_of (from_incoming msg) = rtc_texts msg
texts_of (from_outgoing msg) = rtc_texts msg

-- The texts that a list of messages hands to the connections, in order.
abbrev pub sent : List NcMessage → List String
sent [] = []
sent (msg ∷ msgs) = texts_of msg ++ sent msgs

abbrev asked_of : NcMessage → List String
asked_of (output msg) = []
asked_of (input (text t)) = t ∷ []
asked_of (input disconnect) = []
asked_of (input get_states) = []
asked_of (input (setup dir pm)) = []
asked_of (from_incoming msg) = []
asked_of (from_outgoing msg) = []

-- The texts that the user asks to be sent, in order.
abbrev pub asked : List NcMessage → List String
asked [] = []
asked (msg ∷ msgs) = asked_of msg ++ asked msgs

sent-append : (a b : List NcMessage) → sent (a ++ b) ≡ sent a ++ sent b
sent-append [] b = refl
sent-append (m ∷ a) b =
    ap (λ l. texts_of m ++ l) (sent-append a b) ∙ sym (append_assoc (texts_of m) (sent a) (sent b))

sent-texts :
    (dir : Direction) (ts : List String)
    → sent (map (λ msg. on_connection dir (rtc_input (in_text msg))) ts) ≡ ts
sent-texts dir [] = refl
sent-texts incoming (t ∷ ts) = ap (◌∷◌ t) (sent-texts incoming ts)
sent-texts outgoing (t ∷ ts) = ap (◌∷◌ t) (sent-texts outgoing ts)

-- What is handed on and what stays in the queue, one after the other.
abbrev pub passed : Handled → List String
passed h = sent h.1 ++ h.0.msg_queue

passed-send :
    (nc : NodeConnection) (dir : Direction) (state : Option ConnectionStateMap)
    → passed (send nc dir state) ≡ nc.msg_queue
unfolding send
passed-send nc dir state =
    if_cases (λ (h : Handled). passed h ≡ nc.msg_queue) (is_open state) _ _
      (λ is. append-nil _ ∙ sent-texts dir nc.msg_queue) (λ not_open. refl)

passed-send_waiting :
    (nc : NodeConnection) (dir : Direction) (state : Option ConnectionStateMap)
    → passed (send_waiting nc dir state) ≡ nc.msg_queue
unfolding send_waiting
passed-send_waiting nc dir state =
    if_cases (λ (h : Handled). passed h ≡ nc.msg_queue) (not (is_empty nc.msg_queue)) _ _
      (λ some_text. passed-send nc dir state) (λ no_text. refl)

passed-send_queue : (nc : NodeConnection) → passed (send_queue nc) ≡ nc.msg_queue
unfolding send_queue
passed-send_queue nc =
    let first = send_waiting nc outgoing nc.state_outgoing in
    let second = send_waiting first.0 incoming first.0.state_incoming in
    ap (λ l. l ++ second.0.msg_queue) (sent-append first.1 second.1)
    ∙ append_assoc (sent first.1) (sent second.1) second.0.msg_queue
    ∙ ap (λ l. sent first.1 ++ l) (passed-send_waiting first.0 incoming first.0.state_incoming)
    ∙ passed-send_waiting nc outgoing nc.state_outgoing

sent-state_list :
    (dir : Direction) (state : Option ConnectionStateMap) → sent (state_list dir state) ≡ []
sent-state_list dir none = refl
sent-state_list dir (some state) = refl

passed-msg_in :
    (nc : NodeConnection) (msg : NcInput)
    → passed (msg_in nc msg) ≡ nc.msg_queue ++ asked_of (input msg)
unfolding msg_in
passed-msg_in nc (text t) =
    let h = send_queue (record nc { msg_queue = nc.msg_queue ++ t ∷ [] }) in
    if_cases (λ (r : Handled). passed r ≡ nc.msg_queue ++ t ∷ []) (is_some h.0.state_outgoing) _ _
      (λ started. passed-send_queue _)
      (λ fresh.
        ap (λ l. l ++ h.0.msg_queue) (sent-append h.1 _ ∙ append-nil (sent h.1))
        ∙ passed-send_queue _)
passed-msg_in nc disconnect = sym (append-nil nc.msg_queue)
passed-msg_in nc get_states =
    ap (λ l. l ++ nc.msg_queue)
      (sent-append (state_list incoming nc.state_incoming) (state_list outgoing nc.state_outgoing)
        ∙ ap (λ l. l ++ sent (state_list outgoing nc.state_outgoing))
            (sent-state_list incoming nc.state_incoming)
        ∙ sent-state_list outgoing nc.state_outgoing)
    ∙ sym (append-nil nc.msg_queue)
passed-msg_in nc (setup incoming pm) = sym (append-nil nc.msg_queue)
passed-msg_in nc (setup outgoing pm) = sym (append-nil nc.msg_queue)

queue-put_state :
    (nc : NodeConnection) (dir : Direction) (state : Option ConnectionStateMap)
    → (put_state nc dir state).msg_queue ≡ nc.msg_queue
queue-put_state nc incoming state = refl
queue-put_state nc outgoing state = refl

passed-reset : (nc : NodeConnection) (dir : Direction) → passed (reset nc dir) ≡ nc.msg_queue
unfolding reset
passed-reset nc incoming = refl
passed-reset nc outgoing = refl

passed-msg_conn :
    (nc : NodeConnection) (dir : Direction) (msg : WebRtcMessage)
    → passed (msg_conn nc dir msg) ≡ nc.msg_queue
unfolding msg_conn reset
passed-msg_conn nc dir (rtc_output out_connected) =
    passed-send_queue _ ∙ queue-put_state nc dir (some open_state)
passed-msg_conn nc dir (rtc_output out_disconnected) = passed-reset nc dir
passed-msg_conn nc dir (rtc_output (out_text t)) = refl
passed-msg_conn nc dir (rtc_output (out_setup pm)) = refl
passed-msg_conn nc dir (rtc_output (out_state state)) = queue-put_state nc dir (some state)
passed-msg_conn nc dir (rtc_output (out_error e)) = passed-reset nc dir
passed-msg_conn nc dir (rtc_input msg) = refl

passed-message :
    (nc : NodeConnection) (msg : NcMessage) → passed (message nc msg) ≡ nc.msg_queue ++ asked_of msg
unfolding message
passed-message nc (output msg) = sym (append-nil nc.msg_queue)
passed-message nc (input msg) = passed-msg_in nc msg
passed-message nc (from_incoming msg) =
    passed-msg_conn nc incoming msg ∙ sym (append-nil nc.msg_queue)
passed-message nc (from_outgoing msg) =
    passed-msg_conn nc outgoing msg ∙ sym (append-nil nc.msg_queue)

-- Over any sequence of messages, what was handed to the connections followed by what still waits is
-- what waited at first followed by what was asked to be sent: no text is lost, repeated or overtaken.
pub texts_in_order :
    (nc : NodeConnection) (msgs : List NcMessage)
    → sent (messages nc msgs).1 ++ (messages nc msgs).0.msg_queue ≡ nc.msg_queue ++ asked msgs
unfolding messages
texts_in_order nc [] = sym (append-nil nc.msg_queue)
texts_in_order nc (msg ∷ msgs) =
    let first = message nc msg in
    let rest = messages first.0 msgs in
    ap (λ l. l ++ rest.0.msg_queue) (sent-append first.1 rest.1)
    ∙ append_assoc (sent first.1) (sent rest.1) rest.0.msg_queue
    ∙ ap (λ l. sent first.1 ++ l) (texts_in_order first.0 msgs)
    ∙ sym (append_assoc (sent first.1) first.0.msg_queue (asked msgs))
    ∙ ap (λ l. l ++ asked msgs) (passed-message nc msg)
    ∙ append_assoc nc.msg_queue (asked_of msg) (asked msgs)
