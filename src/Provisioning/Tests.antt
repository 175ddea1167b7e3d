-- ===== src/Provisioning/Tests.antt =====
-- Witnesses for provisioning: a device that agrees on a fixed secret.
use tuya_ble_mesh.Prelude.{
  ◌≤◌, ◌≡◌, ◌⊎◌, refl, arith, true, false, some, List, [], ◌∷◌, ok, All, length, replicate,
}
use tuya_ble_mesh.Bytes.{Bytes}
use tuya_ble_mesh.Mesh.ToyCipher.{zero_tag, key16}
use tuya_ble_mesh.Provisioning.Data.{Provisioner}
use tuya_ble_mesh.Provisioning.Bearer.{Received, wrap_provisioning_pdu, receive_all}
use tuya_ble_mesh.Provisioning.Bearer.RoundTrip.{receive_all-wrap_provisioning_pdu}
use tuya_ble_mesh.Provisioning.Exchange.{run_exchange}
use tuya_ble_mesh.Provisioning.Exchange.Peer.{Peer, answer}
use tuya_ble_mesh.Provisioning.Exchange.Agreement.{Agreed, run_exchange-Agreed}
use tuya_ble_mesh.Provisioning.Exchange.Guarded.{NoData, Authenticated, run_exchange-guards}

abbrev empty_handed : Received
empty_handed = record { rx_buffer = []; rx_sar_buffer = 1 ∷ []; rx_event = false }

receive_all-wrap_provisioning_pdu_example :
    (segments : List Bytes) × (wrap_provisioning_pdu (replicate 65 7) 23 ≡ ok segments)
    × (All (λ s. length s ≤ 20) segments)
    × ((receive_all empty_handed segments).rx_buffer ≡ replicate 65 7)
    × ((receive_all empty_handed segments).rx_event ≡ true)
receive_all-wrap_provisioning_pdu_example =
    receive_all-wrap_provisioning_pdu (replicate 65 7) 23 empty_handed (omega arith)

abbrev plug : Peer
plug = record {
  secret = replicate 32 5;
  capabilities = replicate 11 1;
  public_key = replicate 64 2;
  random = replicate 16 3;
}

abbrev hub : Provisioner
hub = record {
  our_pub_key_bytes = replicate 64 4;
  agree = λ x y. some (replicate 32 5);
  net_key = key16;
  app_key = key16;
  net_key_index = 0;
  iv_index = 0;
  flags = 0;
  unicast_addr = 0x00aa;
}

run_exchange-Agreed_example : Agreed zero_tag hub plug (replicate 16 6)
run_exchange-Agreed_example =
    run_exchange-Agreed zero_tag hub plug (replicate 16 6) refl refl
      (record { index = omega arith; flags = omega arith; iv = omega arith; address = omega arith })

run_exchange-guards_example :
    NoData (run_exchange zero_tag (answer zero_tag plug) hub (replicate 16 6) []).0
    ⊎ Authenticated zero_tag (answer zero_tag plug) hub (replicate 16 6)
run_exchange-guards_example =
    run_exchange-guards zero_tag (answer zero_tag plug) hub (replicate 16 6)
