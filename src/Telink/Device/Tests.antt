-- ===== src/Telink/Device/Tests.antt =====
-- A command of a Telink device whose first write fails.
use tuya_ble_mesh.Prelude.{
  ℕ, zero, suc, replicate, ◌+◌, ◌≡◌, refl, arith, some, none, [], ◌∷◌, length, ok,
}
use tuya_ble_mesh.Prelude.{mesh_connection_error}
use tuya_ble_mesh.Prelude.Int.{pos}
use tuya_ble_mesh.Telink.ToyCipher.{sum_cipher, key16, address}
use tuya_ble_mesh.Telink.Device.{
  TelinkDevice, new_telink_device, WriteAttempt, is_retried, send_now,
}
use tuya_ble_mesh.Telink.Device.Delivery.{Carry, send_now-Carry}

abbrev lamp : TelinkDevice
lamp = new_telink_device (pos 0) (0x11 ∷ 2 ∷ []) address

-- The first write loses the connection; after a new one, with another key, the second takes the last
-- number before the counter wraps.
abbrev second_writes : ℕ → WriteAttempt
second_writes n = record {
  session_key = some (elim n [ suc zero ↦ key16 | _ ↦ replicate 16 2 ]);
  sequence = 0xfffffd + n;
  write = elim n [ suc zero ↦ some mesh_connection_error | _ ↦ none ];
}

send_now-Carry_example :
    let sent = send_now sum_cipher 3 second_writes 1 lamp (pos 0xd0) (1 ∷ 0 ∷ []) (pos 5) in
    (sent.outcome ≡ ok tt)
    × ((length sent.packets ≡ 2)
        × Carry sum_cipher address refl second_writes 1 5 0xd0 0x11 2 (1 ∷ 0 ∷ []) sent.packets)
unfolding new_telink_device is_retried
send_now-Carry_example =
    send_now-Carry sum_cipher address refl 1 3 1 second_writes lamp 5 0xd0 0x11 2 (1 ∷ 0 ∷ []) refl
      refl (omega arith) (omega arith) (omega arith) (omega arith)
      (
        (key16, refl, refl, omega arith),
        ((mesh_connection_error, (refl, refl)), ((replicate 16 2, refl, refl, omega arith), refl)),
      )
