-- ===== src/Telink/Queue/Order.antt =====
-- The order of the commands of `_CommandDispatcher`, over every interleaving of its pieces of code.
use tuya_ble_mesh.Prelude.{ℕ, ◌≤◌, ◌<◌, arith, refl, true, false, [], ◌∷◌}
use tuya_ble_mesh.Prelude.{◌++◌, length, not, if-cases, subst, All}
use tuya_ble_mesh.Telink.Queue.{new_command_dispatcher, start_worker}
use tuya_ble_mesh.Telink.Queue.{queued_command, begin_send, end_send, cancel_worker, drain_queue}
use tuya_ble_mesh.Prelude.Subsequence.{Subsequence, done}
use tuya_ble_mesh.Telink.Queue.History.{
  History, Step, enqueues, polls, waits, sends, ends, starts, cancels, drains, Reach, here, onward,
  in_hand, commands_of, Timely, Ordered,
}
use tuya_ble_mesh.Telink.Queue.Pieces.{
  enqueue_command_ok, enqueue-Ordered, poll-Ordered, drop-Ordered, send-Ordered, drain-Ordered,
  run-Ordered,
}

Step-Ordered :
    (max_size ttl : ℕ)
    → 0 < max_size
    → {a b : History} → Step a b
    → Ordered max_size ttl a
    → Ordered max_size ttl b
unfolding begin_send end_send start_worker cancel_worker drain_queue
Step-Ordered max_size ttl positive {a} (enqueues d opcode params dest_id now e) o =
    let (room, same) =
      enqueue_command_ok a.dispatcher d opcode params dest_id now
        (omega (arith, positive, o.size_set)) e in
    subst
      (λ d. Ordered max_size ttl (record a {
        dispatcher = d;
        accepted = a.accepted ++ (queued_command opcode params dest_id now ∷ []);
      }))
      same
      (enqueue-Ordered max_size ttl a (queued_command opcode params dest_id now)
        (omega (arith, room, o.size_set)) o)
Step-Ordered max_size ttl positive {a} (polls now free) o = poll-Ordered max_size ttl a now free o
Step-Ordered max_size ttl positive {a} (waits command holds) o =
    if-cases (λ d. Ordered max_size ttl (record a { dispatcher = d })) (not a.dispatcher.running) _
      _ (λ off. drop-Ordered max_size ttl a a.dispatcher.running o) (λ on. o)
Step-Ordered max_size ttl positive {a} (sends command holds on) o =
    rw on (send-Ordered max_size ttl a command true holds o)
Step-Ordered max_size ttl positive {a} (ends command busy) o =
    drop-Ordered max_size ttl a a.dispatcher.running o
Step-Ordered max_size ttl positive {a} starts o =
    if-cases (λ d. Ordered max_size ttl (record a { dispatcher = d })) a.dispatcher.running _ _
      (λ on. o) (λ off. run-Ordered max_size ttl a true o)
Step-Ordered max_size ttl positive {a} cancels o =
    if-cases (λ d. Ordered max_size ttl (record a { dispatcher = d })) a.dispatcher.running _ _
      (λ on. drop-Ordered max_size ttl a false o) (λ off. o)
Step-Ordered max_size ttl positive {a} drains o = drain-Ordered max_size ttl a o

Reach-Ordered :
    (max_size ttl : ℕ)
    → 0 < max_size
    → {a b : History} → Reach a b
    → Ordered max_size ttl a
    → Ordered max_size ttl b
Reach-Ordered max_size ttl positive here o = o
Reach-Ordered max_size ttl positive (onward run s) o =
    Step-Ordered max_size ttl positive s (Reach-Ordered max_size ttl positive run o)

-- Before anything happened.
abbrev pub new_history : ℕ → ℕ → History
new_history max_size ttl = record {
  dispatcher = new_command_dispatcher max_size ttl;
  accepted = [];
  sent = [];
  got = 0;
}

-- With a positive maximal size, after any sequence of steps from a new dispatcher: the queue has at
-- most that many commands; the commands whose sending began, then the one that waits for a
-- connection, then the queue are a subsequence of the accepted commands, in their order; and the
-- worker got each that it began to send when that was at most `ttl` old.
pub Reach-new_command_dispatcher :
    (max_size ttl : ℕ) (h : History)
    → 0 < max_size
    → Reach (new_history max_size ttl) h
    → (length h.dispatcher.queue ≤ max_size)
      × (Subsequence
            (commands_of h.sent ++ (in_hand h.dispatcher.worker ++ h.dispatcher.queue))
            h.accepted
          × All (Timely ttl) h.sent)
unfolding new_command_dispatcher
Reach-new_command_dispatcher max_size ttl h positive run =
    let o = Reach-Ordered max_size ttl positive run (record {
      size_set = refl;
      ttl_set = refl;
      small = omega arith;
      order = done;
      timely = tt;
      held = λ command e. cc;
    }) in
    (o.small, (o.order, o.timely))
