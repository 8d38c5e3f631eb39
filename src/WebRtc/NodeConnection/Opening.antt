-- ===== src/WebRtc/NodeConnection/Opening.antt =====
-- flarch/src/web_rtc/node_connection.rs: when the queue empties, and when a connection is set up.
use mathlib.Core.List.{append_assoc, append-nil}
use fledger.Prelude.{
  ◌≡◌, refl, ap, ◌∙◌, sym, String, true, false, not, Option, some, List, [], ◌∷◌, ◌++◌, map, arith,
  is_empty, is_some, if_cases, if◌then◌else◌, inl, inr, ◌⊎◌,
}
use fledger.WebRtc.Messages
use fledger.WebRtc.Messages.{
  ConnectionStateMap, init, out_connected, in_setup, rtc_output, rtc_input, Direction, incoming,
  outgoing, data_open,
}
use fledger.WebRtc.NodeConnection.{
  text, input, from_outgoing, NodeConnection, Handled, on_connection, is_open, send, send_waiting,
  send_queue, msg_in, open_state, msg_conn, message, messages, new,
}

empty_queue : (l : List String) → not (is_empty l) ≡ false → l ≡ []
empty_queue [] h = refl
empty_queue (x ∷ l) h = cc

module _ (nc : NodeConnection) (dir : Direction) (state : Option ConnectionStateMap) where
  Empties : Handled → Type 0
  Empties h = h.0.msg_queue ≡ []

  send_waiting_open : is_open state ≡ true → (send_waiting nc dir state).0.msg_queue ≡ []
  unfolding send_waiting send Empties
  send_waiting_open is =
      if_cases Empties (not (is_empty nc.msg_queue)) _ _ (λ some_text. rw is refl)
        (λ no_text. empty_queue nc.msg_queue no_text)

  send_waiting_closed : is_open state ≡ false → send_waiting nc dir state ≡ (nc, [])
  unfolding send_waiting send
  send_waiting_closed shut =
      if_cases (λ (h : Handled). h ≡ (nc, [])) (not (is_empty nc.msg_queue)) _ _
        (λ some_text. rw shut refl) (λ no_text. refl)

  send_waiting_none : nc.msg_queue ≡ [] → send_waiting nc dir state ≡ (nc, [])
  unfolding send_waiting
  send_waiting_none h = rw h refl

  send_waiting_keeps :
      ((send_waiting nc dir state).0.state_incoming ≡ nc.state_incoming)
      × ((send_waiting nc dir state).0.state_outgoing ≡ nc.state_outgoing)
  unfolding send_waiting send
  send_waiting_keeps = ground arith

-- An open connection, in either direction, empties the queue.
send_queue_open :
    (nc : NodeConnection)
    → (is_open nc.state_outgoing ≡ true) ⊎ (is_open nc.state_incoming ≡ true)
    → (send_queue nc).0.msg_queue ≡ []
unfolding send_queue
send_queue_open nc (inl is) =
    let first = send_waiting nc outgoing nc.state_outgoing in
    let none_left = send_waiting_open nc outgoing nc.state_outgoing is in
    ap (λ (h : Handled). h.0.msg_queue)
      (send_waiting_none first.0 incoming first.0.state_incoming none_left)
    ∙ none_left
send_queue_open nc (inr is) =
    let first = send_waiting nc outgoing nc.state_outgoing in
    send_waiting_open first.0 incoming first.0.state_incoming
      (ap is_open (send_waiting_keeps nc outgoing nc.state_outgoing).0 ∙ is)

-- A text over a connection that is open in either direction leaves nothing in the queue, nor does
-- the message that a connection has opened.
pub queue_empties :
    (nc : NodeConnection)
    → ((t : String)
        → (is_open nc.state_outgoing ≡ true) ⊎ (is_open nc.state_incoming ≡ true)
        → (message nc (input (text t))).0.msg_queue ≡ [])
      × ((dir : Direction)
          → (message nc (on_connection dir (rtc_output out_connected))).0.msg_queue ≡ [])
unfolding message msg_in msg_conn
queue_empties nc = (
  λ t is.
      if_cases (λ (h : Handled). h.0.msg_queue ≡ [])
        (is_some (send_queue (record nc { msg_queue = nc.msg_queue ++ t ∷ [] })).0.state_outgoing) _
        _ (λ started. send_queue_open (record nc { msg_queue = nc.msg_queue ++ t ∷ [] }) is)
        (λ fresh. send_queue_open (record nc { msg_queue = nc.msg_queue ++ t ∷ [] }) is),
  opened,
)
  where
    opened :
        (dir : Direction)
        → (message nc (on_connection dir (rtc_output out_connected))).0.msg_queue ≡ []
    opened incoming = send_queue_open (record nc { state_incoming = some open_state }) (inr refl)
    opened outgoing = send_queue_open (record nc { state_outgoing = some open_state }) (inl refl)

send_queue_closed :
    (nc : NodeConnection)
    → is_open nc.state_outgoing ≡ false
    → is_open nc.state_incoming ≡ false
    → send_queue nc ≡ (nc, [])
unfolding send_queue
send_queue_closed nc no_out no_in =
    rw
      (
        send_waiting_closed nc outgoing nc.state_outgoing no_out,
        send_waiting_closed nc incoming nc.state_incoming no_in,
      )
      refl

abbrev in_setup_with : List String → NodeConnection
in_setup_with q = record new { msg_queue = q; state_outgoing = some Messages.default }

text_waits :
    (q : List String) (t : String)
    → message (in_setup_with q) (input (text t)) ≡ (in_setup_with (q ++ t ∷ []), [])
unfolding message msg_in
text_waits q t =
    ap
      (λ (h : Handled). if is_some h.0.state_outgoing then h else (
        record h.0 { state_outgoing = some Messages.default },
        h.1 ++ from_outgoing (rtc_input (in_setup init)) ∷ [],
      ))
      (send_queue_closed (in_setup_with (q ++ t ∷ [])) refl refl)

-- While the setup runs, the texts wait in order, and nothing is sent.
waiting_setup :
    (q ts : List String)
    → messages (in_setup_with q) (map (λ t. input (text t)) ts) ≡ (in_setup_with (q ++ ts), [])
unfolding messages
waiting_setup q [] = ap (λ l. (in_setup_with l, [])) (sym (append-nil q))
waiting_setup q (t ∷ ts) =
    ap
      (λ (h : Handled).
        let rest = messages h.0 (map (λ t. input (text t)) ts) in (rest.0, h.1 ++ rest.1))
      (text_waits q t)
    ∙ waiting_setup (q ++ t ∷ []) ts
    ∙ ap (λ l. (in_setup_with l, [])) (append_assoc q (t ∷ []) ts)

-- A new connection keeps the texts in order until it opens, and starts the setup of the outgoing
-- connection once, with the first of them.
new_connection_waits :
    (t : String) (ts : List String)
    → messages new (map (λ t. input (text t)) (t ∷ ts))
      ≡ (in_setup_with (t ∷ ts), from_outgoing (rtc_input (in_setup init)) ∷ [])
unfolding messages message msg_in
new_connection_waits t ts =
    ap (λ (h : Handled). (h.0, from_outgoing (rtc_input (in_setup init)) ∷ h.1))
      (waiting_setup (t ∷ []) ts)
