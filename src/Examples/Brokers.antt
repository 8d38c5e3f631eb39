-- ===== src/Examples/Brokers.antt =====
-- flarch/src/broker.rs with concrete brokers: two that are linked with one another, and one with a
-- handler and a tap.
use fledger.Prelude.{
  ℕ, zero, suc, ◌≡◌, refl, true, false, some, List, [], ◌∷◌, arith, if◌then◌else◌, is_empty,
  flat_map, IsDistinct, ==_iff,
}
use fledger.Prelude.Maps.{get, keys}
use fledger.Broker.Subsystem.{forward_to, all, forwarded, Handler, Sender, tap, handler, translator}
use fledger.Broker.Intern.{
  Intern, message, for_handler, process_once, process, process_translate_messages,
}
use fledger.Broker.Intern.Translating.{translate_pass, after_pass, process_translate_messages-pass}
use fledger.Broker.Intern.Ending.{IsBelow, process_ends}
use fledger.Broker.Intern.Dispatch.{but_no_tap, kept, tapped_by, process_once-tap}
use fledger.Broker.Intern.Dispatch.Replies.{handed, replies_to, own_replies_skipped}
use fledger.Broker.Links.{Brokers, here, next}
use fledger.Broker.Links.LoopFree.{IsStart}
use fledger.Broker.Handle.{Broker, new, add_subsystem}
use fledger.Broker.Handle.Indices.{uses}
use fledger.Broker.Handle.Indices.Fresh
use fledger.Broker.Handle.Indices.Fresh.{Uses, add_subsystem_fresh}

-- A broker with a link to another one.
abbrev linked_to : ℕ → ℕ → Intern ℕ ℕ
linked_to id other = record {
  main_rx = [];
  subsystems = (1, translator (record { broker = other; translate = λ m. some m })) ∷ [];
  msg_queue = [];
  id = id;
  effects = [];
}

abbrev ring : Brokers ℕ
ring = (1, linked_to 1 2) ∷ (2, linked_to 2 1) ∷ []

abbrev first_asked : Intern ℕ ℕ
first_asked = record (linked_to 1 2) { main_rx = message (all, 7) ∷ [] }

abbrev first_ran : Intern ℕ ℕ
first_ran = record (linked_to 1 2) { effects = forward_to 2 (1 ∷ []) 7 ∷ [] }

abbrev second_got : Intern ℕ ℕ
second_got = record (linked_to 2 1) { main_rx = message (forwarded (1 ∷ []), 7) ∷ [] }

abbrev passed : Brokers ℕ
passed = (1, linked_to 1 2) ∷ (2, second_got) ∷ []

abbrev ring_starts : IsStart ring
ring_starts = (
  record { named = refl; inputs = tt; subsystems = (tt, tt); queue = tt; effects = tt },
  (record { named = refl; inputs = tt; subsystems = (tt, tt); queue = tt; effects = tt }, tt),
)

-- A message that is forwarded, one that the broker had before, and another one.
abbrev forwarding : Intern ℕ ℕ
forwarding = record (linked_to 1 2) {
  msg_queue = (all, 7) ∷ (forwarded (1 ∷ []), 8) ∷ (all, 9) ∷ [];
}

process_translate_messages-pass_example :
    process_translate_messages forwarding
    ≡ after_pass forwarding [] (translate_pass 1 forwarding.msg_queue forwarding.subsystems)
process_translate_messages-pass_example = process_translate_messages-pass forwarding

abbrev lower : List ℕ → List ℕ
lower [] = []
lower (zero ∷ ms) = lower ms
lower (suc m ∷ ms) = m ∷ lower ms

lower-IsBelow : (k : ℕ) (ms : List ℕ) → IsBelow (λ m. m) (suc k) ms → IsBelow (λ m. m) k (lower ms)
lower-IsBelow k [] b = tt
lower-IsBelow k (zero ∷ ms) b = lower-IsBelow k ms b.1
lower-IsBelow k (suc m ∷ ms) b = (omega (arith, b.0), lower-IsBelow k ms b.1)

-- A handler that answers a number by the number below it, and a tap.
abbrev count_down : Handler ℕ
count_down = record { messages = λ past batch. lower batch; batches = [] }

abbrev listener : Sender ℕ
listener = record { is_open = true; received = [] }

abbrev counting : Intern ℕ ℕ
counting = record {
  main_rx = [];
  subsystems = (1, handler count_down) ∷ (2, tap listener) ∷ [];
  msg_queue = (all, 2) ∷ [];
  id = 9;
  effects = [];
}

counting-IsDistinct : IsDistinct (keys counting.subsystems)
counting-IsDistinct = λ y. ground (arith, ==_iff 1 y, ==_iff 2 y)

process_ends_example : (r : Intern ℕ ℕ × ℕ) × (process 3 counting ≡ some r) × (r.0.msg_queue ≡ [])
process_ends_example =
    process_ends (λ m. m) 2 counting (omega arith, tt)
      (λ k past batch b. lower-IsBelow k batch b, (tt, tt))

process_once-tap_example :
    get 2 (process_once counting).subsystems ≡ tapped_by (but_no_tap (kept counting)) false listener
process_once-tap_example = process_once-tap counting 2 false listener counting-IsDistinct refl

-- Two handlers that answer, each for itself.
abbrev answering : Intern ℕ ℕ
answering = record counting {
  subsystems = (1, handler count_down) ∷ (3, handler count_down) ∷ (2, tap listener) ∷ [];
}

answering-IsDistinct : IsDistinct (keys answering.subsystems)
answering-IsDistinct = λ y. ground (arith, ==_iff 1 y, ==_iff 2 y, ==_iff 3 y)

own_replies_skipped_example :
    (get 1 (process_once answering).subsystems
      ≡ some (handler (handed 1 (kept answering) count_down)))
    × (for_handler 1 (process_once answering).msg_queue ≡ (
        if is_empty (kept answering)
        then []
        else flat_map (replies_to 1 (kept answering)) answering.subsystems))
own_replies_skipped_example = own_replies_skipped answering 1 count_down answering-IsDistinct refl

-- A broker with one tap.
abbrev tapped_once : Broker ℕ ℕ
tapped_once = (add_subsystem (tap listener) (new 3)).0

add_subsystem_fresh_example :
    (uses 2 tapped_once.intern ≡ 0)
    × (uses 2 (add_subsystem (handler count_down) tapped_once).0.intern ≡ 1)
unfolding add_subsystem new
add_subsystem_fresh_example =
    add_subsystem_fresh 3 tapped_once (Fresh.next Fresh.here (Fresh.adds (tap listener) refl))
      (omega arith) (handler count_down) 2 refl
