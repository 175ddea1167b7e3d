-- ===== src/Bridge/Tests.antt =====
-- A daemon that takes a command and is not there at the second poll.
use tuya_ble_mesh.Prelude.{zero, suc, ◌+◌, ◌≡◌, refl, arith, true, false, none, ok, err}
use tuya_ble_mesh.Prelude.{[], ◌∷◌, ◌++◌, os_error, mesh_connection_error}
use tuya_ble_mesh.Bridge.{
  Reply, Daemon, SigBridge, new_sig_bridge, new_link, power_command, send_power, is_sig_fresh,
  is_action,
}
use tuya_ble_mesh.Bridge.Bounds.{Spent, send_power-Spent}
use tuya_ble_mesh.Bridge.Lost.{send_power-lost}

abbrev no_result : Reply
no_result = record {
  is_healthy = true;
  action = none;
  has_timestamp = false;
  is_telink = false;
  success = false;
  is_on = false;
}

abbrev vanishing : Daemon
vanishing n = elim n [ zero ↦ ok no_result | suc zero ↦ ok no_result | _ ↦ err os_error ]

abbrev plug : SigBridge
plug = let b = new_sig_bridge 0x00b0 in record b { link = record b.link { connected = true } }

send_power-Spent_example :
    Spent 3
      (power_command plug true)
      plug.link
      plug.told
      plug.last_on_state
      (send_power 3 vanishing true plug)
send_power-Spent_example = send_power-Spent 3 vanishing true plug

send_power-lost_example : send_power 3 vanishing true plug ≡ record {
  device = record plug {
    link = record plug.link {
      asked = plug.link.asked + (1 + 2);
      posted = plug.link.posted ++ (power_command plug true ∷ []);
    };
  };
  outcome = err mesh_connection_error;
}
unfolding new_sig_bridge new_link is_sig_fresh is_action
send_power-lost_example =
    send_power-lost 1 3 vanishing true plug no_result refl (omega arith) (omega arith) refl
      ((no_result, (refl, refl)), refl)
