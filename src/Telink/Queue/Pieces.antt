-- ===== src/Telink/Queue/Pieces.antt =====
-- What each piece of the code of `_CommandDispatcher` keeps.
use tuya_ble_mesh.Prelude.{ℕ, ◌+◌, ◌<◌, ◌≡◌, arith, Bool, List, [], ◌∷◌}
use tuya_ble_mesh.Prelude.{◌++◌, length, ltb, if-cases, ok, subst, sym, All-append}
use tuya_ble_mesh.Prelude.{append_assoc, length-append}
use tuya_ble_mesh.Prelude.Int.{ℤ}
use tuya_ble_mesh.Bytes.{Bytes}
use tuya_ble_mesh.Telink.Queue.{
  QueuedCommand, idle, holding, sending, CommandDispatcher, enqueue_command, take_command,
}
use tuya_ble_mesh.Telink.Queue.{queued_command, get_command, poll_queue}
use tuya_ble_mesh.Prelude.Subsequence.{
  Subsequence, Subsequence-append, Subsequence-trans, Subsequence-empty, Subsequence-after,
  Subsequence-behind,
}
use tuya_ble_mesh.Telink.Queue.History.{
  History, in_hand, commands_of, commands_of-append, Timely, Ordered,
}

pub enqueue_command_ok :
    (d e : CommandDispatcher) (opcode : ℤ) (params : Bytes) (dest_id : ℤ) (now : ℕ)
    → 0 < d.max_size
    → enqueue_command d opcode params dest_id now ≡ ok e
    → (length d.queue < d.max_size)
      × (record d { queue = d.queue ++ (queued_command opcode params dest_id now ∷ []) } ≡ e)
unfolding enqueue_command
enqueue_command_ok d e opcode params dest_id now positive accepted = ground arith

append_thrice {ℓ} :
    {A : Type ℓ} (ws xs ys zs : List A) → (ws ++ (xs ++ ys)) ++ zs ≡ ws ++ (xs ++ (ys ++ zs))
append_thrice ws xs ys zs = simp (append_assoc)

pub enqueue-Ordered :
    (max_size ttl : ℕ) (h : History) (c : QueuedCommand)
    → length h.dispatcher.queue < max_size
    → Ordered max_size ttl h
    → Ordered max_size ttl (record h {
      dispatcher = record h.dispatcher { queue = h.dispatcher.queue ++ (c ∷ []) };
      accepted = h.accepted ++ (c ∷ []);
    })
enqueue-Ordered max_size ttl h c room o = record {
  size_set = o.size_set;
  ttl_set = o.ttl_set;
  small = rw length-append (omega (arith, room));
  order =
      subst (λ all. Subsequence all (h.accepted ++ (c ∷ [])))
        (append_thrice (commands_of h.sent) (in_hand h.dispatcher.worker) h.dispatcher.queue
          (c ∷ []))
        (Subsequence-append c o.order);
  timely = o.timely;
  held = o.held;
}

get-Ordered :
    (max_size ttl : ℕ) (h : History) (queue : List QueuedCommand) (now : ℕ)
    → Ordered max_size ttl
        (record h { dispatcher = record h.dispatcher { queue = queue; worker = idle } })
    → Ordered max_size ttl (record h {
      dispatcher =
          get_command (record h.dispatcher { queue = queue; worker = idle }) queue idle now;
      got = now;
    })
unfolding get_command take_command
get-Ordered max_size ttl h [] now o = record {
  size_set = o.size_set;
  ttl_set = o.ttl_set;
  small = o.small;
  order = o.order;
  timely = o.timely;
  held = λ command e. cc;
}
get-Ordered max_size ttl h (c ∷ queue) now o =
    if-cases (λ d. Ordered max_size ttl (record h { dispatcher = d; got = now }))
      (ltb (c.created_at + h.dispatcher.ttl) now) _ _
      (λ late. record {
        size_set = o.size_set;
        ttl_set = o.ttl_set;
        small = omega (arith, o.small);
        order =
            Subsequence-trans
              (Subsequence-after (commands_of h.sent) (Subsequence-behind (c ∷ []) queue)) o.order;
        timely = o.timely;
        held = λ command e. cc;
      })
      (λ early. record {
        size_set = o.size_set;
        ttl_set = o.ttl_set;
        small = omega (arith, o.small);
        order = o.order;
        timely = o.timely;
        held = λ command e. ground (arith, e, early, o.ttl_set);
      })

pub poll-Ordered :
    (max_size ttl : ℕ) (h : History) (now : ℕ)
    → h.dispatcher.worker ≡ idle
    → Ordered max_size ttl h
    → Ordered max_size ttl (record h { dispatcher = poll_queue h.dispatcher now; got = now })
unfolding poll_queue
poll-Ordered max_size ttl h now free o =
    if-cases (λ d. Ordered max_size ttl (record h { dispatcher = d; got = now }))
      h.dispatcher.running _ _
      (λ on.
        subst
          (λ w.
            Ordered max_size ttl (record h { dispatcher = record h.dispatcher { worker = w } })
            → Ordered max_size ttl (record h {
              dispatcher =
                  get_command (record h.dispatcher { worker = w }) h.dispatcher.queue w now;
              got = now;
            }))
          (sym free) (get-Ordered max_size ttl h h.dispatcher.queue now) o)
      (λ off. record {
        size_set = o.size_set;
        ttl_set = o.ttl_set;
        small = o.small;
        order = o.order;
        timely = o.timely;
        held = λ command e. cc;
      })

pub drop-Ordered :
    (max_size ttl : ℕ) (h : History) (running : Bool)
    → Ordered max_size ttl h
    → Ordered max_size ttl
        (record h { dispatcher = record h.dispatcher { running = running; worker = idle } })
drop-Ordered max_size ttl h running o = record {
  size_set = o.size_set;
  ttl_set = o.ttl_set;
  small = o.small;
  order =
      Subsequence-trans
        (Subsequence-after (commands_of h.sent)
          (Subsequence-behind (in_hand h.dispatcher.worker) h.dispatcher.queue))
        o.order;
  timely = o.timely;
  held = λ command e. cc;
}

pub send-Ordered :
    (max_size ttl : ℕ) (h : History) (command : QueuedCommand) (running : Bool)
    → h.dispatcher.worker ≡ holding command
    → Ordered max_size ttl h
    → Ordered max_size ttl (record h {
      dispatcher = record h.dispatcher { worker = sending command; running = running };
      sent = h.sent ++ ((command, h.got) ∷ []);
    })
send-Ordered max_size ttl h command running holds o = record {
  size_set = o.size_set;
  ttl_set = o.ttl_set;
  small = o.small;
  order = rw (commands_of-append h.sent command h.got h.dispatcher.queue) (
      subst (λ w. Subsequence (commands_of h.sent ++ (in_hand w ++ h.dispatcher.queue)) h.accepted)
        holds o.order);
  timely =
      All-append (Timely ttl) h.sent ((command, h.got) ∷ []) o.timely (o.held command holds, tt);
  held = λ other e. cc;
}

pub drain-Ordered :
    (max_size ttl : ℕ) (h : History)
    → Ordered max_size ttl h
    → Ordered max_size ttl (record h { dispatcher = record h.dispatcher { queue = [] } })
drain-Ordered max_size ttl h o = record {
  size_set = o.size_set;
  ttl_set = o.ttl_set;
  small = omega arith;
  order =
      Subsequence-trans
        (Subsequence-after (commands_of h.sent)
          (Subsequence-after (in_hand h.dispatcher.worker) (Subsequence-empty h.dispatcher.queue)))
        o.order;
  timely = o.timely;
  held = o.held;
}

pub run-Ordered :
    (max_size ttl : ℕ) (h : History) (running : Bool)
    → Ordered max_size ttl h
    → Ordered max_size ttl (record h { dispatcher = record h.dispatcher { running = running } })
run-Ordered max_size ttl h running o = record {
  size_set = o.size_set;
  ttl_set = o.ttl_set;
  small = o.small;
  order = o.order;
  timely = o.timely;
  held = o.held;
}
