-- ===== src/Telink/Queue.antt =====
-- `lib/tuya_ble_mesh/device_dispatcher.py`: the queue of `_CommandDispatcher` and what each piece of
-- its code between two points of suspension does to it. `time.monotonic()` is the argument `now`.
pub mod History
mod Pieces
pub mod Order
mod Tests
use tuya_ble_mesh.Prelude.{ℕ, ◌+◌, Bool, true, false, not, List, [], ◌∷◌, ◌++◌, ltb, leb, length}
use tuya_ble_mesh.Prelude.{if◌then◌else◌, Result, ok, err, ◌>>◌, raise_if, command_queue_full_error}
use tuya_ble_mesh.Prelude.Int.{ℤ}
use tuya_ble_mesh.Bytes.{Bytes}

pub record QueuedCommand : Type 0 where
  pub opcode : ℤ
  pub params : Bytes
  pub dest_id : ℤ
  pub created_at : ℕ

unfoldable pub queued_command : ℤ → Bytes → ℤ → ℕ → QueuedCommand
queued_command opcode params dest_id now = record {
  opcode = opcode;
  params = params;
  dest_id = dest_id;
  created_at = now;
}

-- Where the worker is suspended: at `queue.get()`, in the wait for a connection, or in `_send_now`.
pub data Worker : Type 0 where
  idle : Worker
  holding sending : QueuedCommand → Worker

pub record CommandDispatcher : Type 0 where
  pub max_size : ℕ
  pub ttl : ℕ
  pub queue : List QueuedCommand
  pub worker : Worker
  pub running : Bool

unfoldable pub new_command_dispatcher : ℕ → ℕ → CommandDispatcher
new_command_dispatcher max_size ttl = record {
  max_size = max_size;
  ttl = ttl;
  queue = [];
  worker = idle;
  running = false;
}

unfoldable pub start_worker : CommandDispatcher → CommandDispatcher
start_worker d = if d.running then d else record d { running = true }

-- `enqueue`. An `asyncio.Queue` whose `maxsize` is 0 is never full.
unfoldable pub enqueue_command : CommandDispatcher → ℤ → Bytes → ℤ → ℕ → Result CommandDispatcher
unfolding queued_command
enqueue_command d opcode params dest_id now = do
  raise_if (if ltb 0 d.max_size then leb d.max_size (length d.queue) else false)
      command_queue_full_error
  ok (record d { queue = d.queue ++ (queued_command opcode params dest_id now ∷ []) })

-- The worker got a command: one that is too old is dropped.
unfoldable pub take_command : CommandDispatcher → QueuedCommand → ℕ → CommandDispatcher
take_command d command now =
    if ltb (command.created_at + d.ttl) now then d else record d { worker = holding command }

unfoldable pub get_command : CommandDispatcher → List QueuedCommand → Worker → ℕ → CommandDispatcher
unfolding take_command
get_command d (command ∷ queue) idle now = take_command (record d { queue = queue }) command now
get_command d [] idle now = d
get_command d queue (holding command) now = d
get_command d queue (sending command) now = d

-- The worker at the top of its loop.
unfoldable pub poll_queue : CommandDispatcher → ℕ → CommandDispatcher
unfolding get_command
poll_queue d now = if d.running then get_command d d.queue d.worker now else d

-- A round of the wait for a connection, and the start of `_send_now`.
unfoldable pub begin_send : CommandDispatcher → QueuedCommand → Bool → CommandDispatcher
begin_send d command is_connected =
    if not d.running
    then record d { worker = idle }
    else if is_connected
    then record d { worker = sending command }
    else d

-- `_send_now` returned or raised: the command is done either way.
unfoldable pub end_send : CommandDispatcher → CommandDispatcher
end_send d = record d { worker = idle }

-- `stop`, up to the end of the cancelled worker.
unfoldable pub cancel_worker : CommandDispatcher → CommandDispatcher
cancel_worker d = if d.running then record d { running = false; worker = idle } else d

-- The rest of `stop`.
unfoldable pub drain_queue : CommandDispatcher → CommandDispatcher
drain_queue d = record d { queue = [] }

unfoldable pub stop_worker : CommandDispatcher → CommandDispatcher
unfolding cancel_worker drain_queue
stop_worker d = if d.running then drain_queue (cancel_worker d) else d
