-- ===== src/Telink/Queue/Tests.antt =====
-- Two commands through `_CommandDispatcher`.
use tuya_ble_mesh.Prelude.{◌≤◌, refl, arith, true, [], ◌∷◌, ◌++◌, length, All}
use tuya_ble_mesh.Prelude.Int.{pos}
use tuya_ble_mesh.Prelude.Subsequence.{Subsequence}
use tuya_ble_mesh.Telink.Queue.{queued_command, QueuedCommand, CommandDispatcher}
use tuya_ble_mesh.Telink.Queue.{
  enqueue_command, poll_queue, get_command, take_command, start_worker, begin_send,
}
use tuya_ble_mesh.Telink.Queue.{new_command_dispatcher}
use tuya_ble_mesh.Telink.Queue.History.{
  History, Reach, here, onward, enqueues, polls, sends, starts, commands_of, in_hand, Timely,
}
use tuya_ble_mesh.Telink.Queue.Order.{new_history, Reach-new_command_dispatcher}

abbrev lamp_on : QueuedCommand
lamp_on = queued_command (pos 0xd2) (121 ∷ 1 ∷ []) (pos 5) 10

abbrev lamp_off : QueuedCommand
lamp_off = queued_command (pos 0xd2) (121 ∷ 0 ∷ []) (pos 5) 11

abbrev with_one : CommandDispatcher
with_one = record (new_command_dispatcher 2 60) { queue = lamp_on ∷ [] }

abbrev with_two : CommandDispatcher
with_two = record (new_command_dispatcher 2 60) { queue = lamp_on ∷ lamp_off ∷ [] }

-- Both are accepted, and the first is sent.
abbrev first_sent : History
first_sent = record {
  dispatcher = begin_send (poll_queue (start_worker with_two) 20) lamp_on true;
  accepted = lamp_on ∷ lamp_off ∷ [];
  sent = (lamp_on, 20) ∷ [];
  got = 20;
}

sends_first : Reach (new_history 2 60) first_sent
unfolding new_command_dispatcher enqueue_command queued_command poll_queue get_command take_command
    start_worker
sends_first =
    onward
      (onward
        (onward
          (onward (onward here (enqueues with_one (pos 0xd2) (121 ∷ 1 ∷ []) (pos 5) 10 refl))
            (enqueues with_two (pos 0xd2) (121 ∷ 0 ∷ []) (pos 5) 11 refl))
          starts)
        (polls 20 refl))
      (sends lamp_on refl refl)

Reach-new_command_dispatcher_example :
    (length first_sent.dispatcher.queue ≤ 2)
    × (Subsequence
          (commands_of first_sent.sent
            ++ (in_hand first_sent.dispatcher.worker ++ first_sent.dispatcher.queue))
          first_sent.accepted
        × All (Timely 60) first_sent.sent)
Reach-new_command_dispatcher_example =
    Reach-new_command_dispatcher 2 60 first_sent (omega arith) sends_first
