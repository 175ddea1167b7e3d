-- ===== src/Telink/Queue/History.antt =====
-- The runs of `_CommandDispatcher`: every interleaving of its pieces of code, with what it accepted
-- and what it sent.
use tuya_ble_mesh.Prelude.{ℕ, ◌+◌, ◌≤◌, ◌≡◌, refl, true, false, List, [], ◌∷◌}
use tuya_ble_mesh.Prelude.{◌++◌, length, ok, ap, All}
use tuya_ble_mesh.Prelude.Int.{ℤ}
use tuya_ble_mesh.Bytes.{Bytes}
use tuya_ble_mesh.Telink.Queue.{
  QueuedCommand, Worker, idle, holding, sending, CommandDispatcher, start_worker, enqueue_command,
}
use tuya_ble_mesh.Telink.Queue.{
  queued_command, poll_queue, begin_send, end_send, cancel_worker, drain_queue,
}
use tuya_ble_mesh.Prelude.Subsequence.{Subsequence}

-- The dispatcher, the commands that it accepted and those whose sending began, the latest last, each
-- of these with the time at which the worker got it; `got` is the time of the last poll.
pub record History : Type 0 where
  pub dispatcher : CommandDispatcher
  pub accepted : List QueuedCommand
  pub sent : List (QueuedCommand × ℕ)
  pub got : ℕ

-- The code between two points of suspension.
pub data Step : History → History → Type 0 where
  enqueues :
      {h : History} (d : CommandDispatcher) (opcode : ℤ) (params : Bytes) (dest_id : ℤ) (now : ℕ)
      → enqueue_command h.dispatcher opcode params dest_id now ≡ ok d
      → Step h (record h {
        dispatcher = d;
        accepted = h.accepted ++ (queued_command opcode params dest_id now ∷ []);
      })
  polls :
      {h : History} (now : ℕ)
      → h.dispatcher.worker ≡ idle
      → Step h (record h { dispatcher = poll_queue h.dispatcher now; got = now })
  waits :
      {h : History} (command : QueuedCommand)
      → h.dispatcher.worker ≡ holding command
      → Step h (record h { dispatcher = begin_send h.dispatcher command false })
  sends :
      {h : History} (command : QueuedCommand)
      → h.dispatcher.worker ≡ holding command
      → h.dispatcher.running ≡ true
      → Step h (record h {
        dispatcher = begin_send h.dispatcher command true;
        sent = h.sent ++ ((command, h.got) ∷ []);
      })
  ends :
      {h : History} (command : QueuedCommand)
      → h.dispatcher.worker ≡ sending command
      → Step h (record h { dispatcher = end_send h.dispatcher })
  starts : {h : History} → Step h (record h { dispatcher = start_worker h.dispatcher })
  cancels : {h : History} → Step h (record h { dispatcher = cancel_worker h.dispatcher })
  drains : {h : History} → Step h (record h { dispatcher = drain_queue h.dispatcher })

pub data Reach (a : History) : History → Type 0 where
  here : Reach a a
  onward : {b c : History} → Reach a b → Step b c → Reach a c

-- The command that the worker may still send.
abbrev pub in_hand : Worker → List QueuedCommand
in_hand idle = []
in_hand (holding command) = command ∷ []
in_hand (sending command) = []

abbrev pub commands_of : List (QueuedCommand × ℕ) → List QueuedCommand
commands_of [] = []
commands_of ((command, got) ∷ sent) = command ∷ commands_of sent

pub commands_of-append :
    (sent : List (QueuedCommand × ℕ)) (command : QueuedCommand) (got : ℕ)
    (rest : List QueuedCommand)
    → commands_of (sent ++ ((command, got) ∷ [])) ++ rest ≡ commands_of sent ++ (command ∷ rest)
commands_of-append [] command got rest = refl
commands_of-append ((c, g) ∷ sent) command got rest =
    ap (λ cs. c ∷ cs) (commands_of-append sent command got rest)

-- The worker got the command before it was too old.
abbrev pub Timely : ℕ → QueuedCommand × ℕ → Type 0
Timely ttl (command, got) = got ≤ command.created_at + ttl

-- What the dispatcher keeps to: its parts one by one, as in the limits on requests.
pub record Ordered (max_size ttl : ℕ) (h : History) : Type 0 where
  pub size_set : h.dispatcher.max_size ≡ max_size
  pub ttl_set : h.dispatcher.ttl ≡ ttl
  pub small : length h.dispatcher.queue ≤ max_size
  pub order :
      Subsequence
        (commands_of h.sent ++ (in_hand h.dispatcher.worker ++ h.dispatcher.queue))
        h.accepted
  pub timely : All (Timely ttl) h.sent
  pub held :
      (command : QueuedCommand)
      → h.dispatcher.worker ≡ holding command
      → Timely ttl (command, h.got)
