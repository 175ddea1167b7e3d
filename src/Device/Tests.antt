-- ===== src/Device/Tests.antt =====
-- Witnesses for the device: a lamp that two devices with the same keys know.
use tuya_ble_mesh.Prelude.{ℕ, zero, suc, ◌^◌, refl, arith, true, none, some, [], ◌∷◌, replicate}
use tuya_ble_mesh.Prelude.{bleak_error, Option, Error}
use tuya_ble_mesh.Mesh.Transport.{MeshKeys}
use tuya_ble_mesh.Mesh.ToyCipher.{zero_tag, key16}
use tuya_ble_mesh.Device.State.{Device, new_device}
use tuya_ble_mesh.Device.Receive.{process_notify}
use tuya_ble_mesh.Device.Receive.Buffers.{Tidy, process_notify-Tidy}
use tuya_ble_mesh.Device.Sequence.{new_store, set_seq, save, load, next_seq, next_seqs}
use tuya_ble_mesh.Device.Sequence.Fresh.{
  History, takes, reserves, saves, restarts, Reach, here, onward, Below, Descending,
  sequence_numbers-Descending,
}
use tuya_ble_mesh.Device.Send.{is_write_error, send_power}
use tuya_ble_mesh.Device.Send.Delivery.{Through, send_power-Through}

abbrev lamp_keys : MeshKeys
lamp_keys = record {
  net_key = key16;
  dev_key = key16;
  app_key = some key16;
  iv_index = 3;
  nid = 0x2a;
  enc_key = key16;
  priv_key = key16;
  network_id = replicate 8 1;
  key_aid = 5;
}

abbrev lamp : Device
lamp = record (new_device 0x00aa 0x0001 2000 0x00aa 0x1002) {
  has_client = true;
  keys = some lamp_keys;
  tid = 255;
}

-- The first write fails.
abbrev second_write : ℕ → Option Error
second_write zero = none
second_write (suc zero) = some bleak_error
second_write (suc (suc n)) = none

send_power-Through_example :
    Through zero_tag lamp_keys
      (record lamp { tid = 0 })
      (0x82 ∷ 0x02 ∷ 1 ∷ 255 ∷ [])
      2
      []
      (send_power zero_tag lamp true 3 second_write)
unfolding new_device is_write_error
send_power-Through_example =
    send_power-Through zero_tag lamp_keys 1 3 true second_write lamp key16 refl refl refl
      (record { enc_key = refl; priv_key = refl; nid = omega arith; iv_index = omega arith }) refl
      (omega arith) (omega arith) (omega arith) (omega arith) ((bleak_error, refl, refl), refl)

process_notify-Tidy_example :
    Tidy (process_notify zero_tag lamp (0x00 ∷ 0x2a ∷ replicate 20 9) 50).0.segment_buffers
unfolding new_device
process_notify-Tidy_example =
    process_notify-Tidy zero_tag lamp (0x00 ∷ 0x2a ∷ replicate 20 9) 50
      (record { keys = tt; all = tt })

-- Two numbers, a save, a range of three, and a restart.
abbrev before_restart : History
before_restart = record {
  store = set_seq 5 (save (set_seq 2 (set_seq 1 (new_store 0 none))));
  used = 4 ∷ 3 ∷ 2 ∷ 1 ∷ 0 ∷ [];
}

runs :
    Reach
      (record { store = new_store 0 none; used = [] })
      (record { store = load (λ _. none) none (new_store 0 (some 2)); used = before_restart.used })
unfolding new_store set_seq save next_seq next_seqs
runs =
    onward
      (onward (onward (onward (onward here (takes 0 1 refl)) (takes 1 2 refl)) saves)
        (reserves 3 2 5 refl))
      (restarts (λ _. none) none 0 2 refl (omega arith))

sequence_numbers-Descending_example :
    Descending (4 ∷ 3 ∷ 2 ∷ 1 ∷ 0 ∷ []) × Below (2 ^ 24) (4 ∷ 3 ∷ 2 ∷ 1 ∷ 0 ∷ [])
sequence_numbers-Descending_example = sequence_numbers-Descending 0 none _ runs
