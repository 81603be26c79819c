-- ===== src/Broker/Tests.antt =====
-- The broker run on small inputs, and its theorems at them.
use mathlib.Core.Bool.{false≢true}
use libvirt_rest_api.Base.{
  pos, text_eq_iff, ℕ, ◌+◌, ◌≡◌, refl, ◌≢◌, true, false, inl, [], ◌∷◌, none, some, arith, text,
  length, drop, select, text_eq, cut, has_byte, format_uint, parse_uint, hex_encode, Option, map,
  Text,
}
use libvirt_rest_api.Channel.{send, close, receive, send_all}
use libvirt_rest_api.Broker.{
  LifecycleEvent, EventBroker, new_event_broker, Subscription, cursor, stamp, trim, deliver,
  publish, after_cursor, has_gap, reset_notice, backlog, subscribe, cancel, close_each,
  close_broker,
}
use libvirt_rest_api.Broker.Cursor.{after_cursor-cursor, after_cursor_foreign}
use libvirt_rest_api.Broker.Streams.{Follows}
use libvirt_rest_api.Broker.System.{
  System, Reach, start, later, init, after_publish, lifecycle_event, published, subscribed, closed,
}
use libvirt_rest_api.Broker.Invariant.{HasLog, given}
use libvirt_rest_api.Broker.Delivery.{
  operations_succeed, client_stream, client_numbers, history_of_log, resume-drop, resume_reset,
  closed_for_good,
}

-- A name for all that a run unfolds.
events_go : Unit {0}
unfolding new_event_broker cursor stamp trim deliver publish after_cursor has_gap reset_notice
    backlog subscribe cancel close_each close_broker send close receive send_all text_eq format_uint
    parse_uint hex_encode select cut text has_byte
events_go = tt

abbrev or_else {ℓ} : {A : Type ℓ} → Option A → A → A
or_else none a = a
or_else (some a) _ = a

-- Two events are published, a client joins after the first, receives, and the broker closes.
abbrev fresh : System
fresh = init (some (0xab ∷ [])) 7

abbrev started : LifecycleEvent
started = lifecycle_event (text "web") (text "u1") (text "started") (pos 0)

abbrev one : System
one = after_publish fresh started 100 (or_else (publish fresh.broker started 100) fresh.broker)

abbrev two : System
two = after_publish one started 200 (or_else (publish one.broker started 200) one.broker)

abbrev position : Text
position = cursor two.broker.generation 1

abbrev joined : EventBroker × Subscription
joined =
    or_else (subscribe two.broker position 300)
      (two.broker, record { events = 0; cancellable = false })

abbrev three : System
three = record two { broker = joined.0 }

abbrev done : System
done = record three { broker = or_else (close_broker three.broker) three.broker }

two_reach : Reach two
unfolding events_go
two_reach =
    later
      (later (start (some (0xab ∷ [])) 7)
        (published (text "web") (text "u1") (text "started") (pos 0) 100 (omega arith) refl))
      (published (text "web") (text "u1") (text "started") (pos 0) 200 (omega arith) refl)

three_reach : Reach three
unfolding events_go
three_reach = later two_reach (subscribed position 300 refl)

done_reach : Reach done
unfolding events_go
done_reach = later three_reach (closed refl)

-- The client that joins after event 1 finds event 2, and the cursor is the text of its number.
joined_finds : (map (λ e. e.id) (given three 0) ≡ 2 ∷ []) × (position ≡ text "ab:1")
unfolding events_go
joined_finds = (refl, refl)

-- A client of another process finds a reset notice; a fresh one finds the whole history.
others_find :
    (map (λ e. e.stream_reset) (backlog two.broker (text "cd:1") 300) ≡ true ∷ [])
    × (map (λ e. e.stream_reset) (backlog two.broker (text "ab:3") 300) ≡ true ∷ [])
    × (map (λ e. e.stream_reset) (backlog two.broker (text "ab") 300) ≡ true ∷ [])
    × (map (λ e. e.id) (backlog two.broker [] 300) ≡ 1 ∷ 2 ∷ [])
unfolding events_go
others_find = (refl, refl, refl, refl)

operations_succeed_example : (b : EventBroker) × (close_broker three.broker ≡ some b)
operations_succeed_example = (operations_succeed three_reach).3

client_numbers_example :
    let st = client_stream three_reach 0 in
    Follows (length st.before) st.seen (length st.before + length st.seen)
    × ((three.broker.channels 0).is_open ≡ true
        → length st.before + length st.seen ≡ three.broker.next_id)
client_numbers_example = client_numbers three_reach 0

history_of_log_example : HasLog three.broker three.log
history_of_log_example = history_of_log three_reach

resume-drop_example : (joined.0.channels joined.1.events).buffer ≡ drop 1 two.log
unfolding events_go
resume-drop_example = resume-drop two_reach 300 1 refl (omega arith) (omega arith) refl

abbrev stranger : EventBroker × Subscription
stranger =
    or_else (subscribe two.broker (cursor (text "cd") 1) 300)
      (two.broker, record { events = 0; cancellable = false })

other_process : text "cd" ≢ two.broker.generation
unfolding events_go
other_process e = false≢true ((text_eq_iff (text "cd") two.broker.generation).1 e)

resume_reset_example :
    (stranger.0.channels stranger.1.events).buffer ≡ reset_notice two.broker 300 ∷ []
unfolding events_go
resume_reset_example =
    resume_reset two_reach 300 1 (text "cd") refl refl (omega arith) (inl other_process) refl

abbrev too_late : System
too_late = after_publish done started 400 done.broker

closed_for_good_example :
    (too_late.broker.closed ≡ true)
    × ((j : ℕ) → (too_late.broker.channels j).is_open ≡ false)
    × (too_late.log ≡ done.log)
    × (too_late.broker.next_id ≡ done.broker.next_id)
    × (too_late.broker.history ≡ done.broker.history)
    × ((j : ℕ) → given too_late j ≡ given done j)
unfolding events_go
closed_for_good_example =
    closed_for_good done_reach refl
      (published (text "web") (text "u1") (text "started") (pos 0) 400 (omega arith) refl)

after_cursor-cursor_example : after_cursor two.broker (cursor two.broker.generation 1) ≡ (1, false)
unfolding events_go
after_cursor-cursor_example = after_cursor-cursor two.broker 1 refl (omega arith) (omega arith)

after_cursor_foreign_example : after_cursor two.broker (cursor (text "cd") 1) ≡ (0, true)
unfolding events_go
after_cursor_foreign_example =
    after_cursor_foreign two.broker (text "cd") 1 refl (omega arith) (inl other_process)
