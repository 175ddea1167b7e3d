-- ===== src/Integration/Coordinator/Life.antt =====
-- The life of a `TuyaBLEMeshCoordinator`: every sequence of what the device, the connection manager and
-- the entities make it do.
use tuya_ble_mesh.Prelude.{ℕ, ◌<◌, ◌≡◌, false}
use tuya_ble_mesh.Prelude.{Bool, Option, List, All}
use tuya_ble_mesh.Prelude.Int.{ℤ, pos_part}
use tuya_ble_mesh.Bytes.{Bytes}
use tuya_ble_mesh.Telink.Packet.{StatusResponse}
use tuya_ble_mesh.Integration.Manager.{ConnectionManager}
use tuya_ble_mesh.Integration.Manager.Kept.{Kept}
use tuya_ble_mesh.Integration.Manager.Life.{Step}
use tuya_ble_mesh.Integration.Polling.{rssi_round}
use tuya_ble_mesh.Integration.Polling.Slower.{Slower}
use tuya_ble_mesh.Integration.Coordinator.{Entry, Coordinator, add_listener, unregister}
use tuya_ble_mesh.Integration.Coordinator.Updates.{
  on_level_update, on_onoff_update, on_status_update,
}
use tuya_ble_mesh.Integration.Coordinator.Lifecycle.{
  on_vendor_update, on_composition_update, on_disconnect, handle_reconnected,
  handle_conn_state_update, Probe, watch, set_scene_id, assume_state,
}
use tuya_ble_mesh.Integration.Coordinator.Listeners.{is_listed}
use tuya_ble_mesh.Integration.Coordinator.Coherent.{ByteStatus, ByteEntry}
use tuya_ble_mesh.Integration.Coordinator.Fit.{Fit}

-- A round of `_rssi_loop`; its callback `_handle_conn_state_update` is an act of its own.
unfoldable pub poll_signal : ℕ → Option ℤ → Coordinator → Coordinator
poll_signal clock rssi c = record c {
  manager = (rssi_round clock rssi (c.manager, c.polling)).0;
  polling = (rssi_round clock rssi (c.manager, c.polling)).1;
}

-- What happens to a coordinator. The device sends levels of 16 bits and values of a byte, an entity
-- assumes values of a byte, and a listener registers once.
pub data Act (raises : ℕ → Bool) : Coordinator → Coordinator → Type 0 where
  levels :
      {c : Coordinator} (now : ℕ) (level : ℤ)
      → pos_part level < 32768
      → Act raises c (on_level_update raises now level c)
  switches :
      {c : Coordinator} (now : ℕ) (on : Bool) → Act raises c (on_onoff_update raises now on c)
  reports :
      {c : Coordinator} (now : ℕ) (status : StatusResponse)
      → ByteStatus status
      → Act raises c (on_status_update raises now status c)
  measures :
      {c : Coordinator} (now opcode : ℕ) (params : Bytes)
      → Act raises c (on_vendor_update raises now opcode params c)
  composes :
      {c : Coordinator} (firmware_version : Option (List ℕ))
      → Act raises c (on_composition_update raises firmware_version c)
  leaves : {c : Coordinator} (clock : ℕ) → Act raises c (on_disconnect raises clock c)
  returns :
      {c : Coordinator} (firmware_version : Option (List ℕ))
      → Act raises c (handle_reconnected raises firmware_version c)
  hears : {c : Coordinator} → Act raises c (handle_conn_state_update raises c)
  watches :
      {c : Coordinator} (now probed : ℕ) (probe : Probe)
      → Act raises c (watch raises now probed probe c)
  scenes : {c : Coordinator} (scene_id : ℕ) → Act raises c (set_scene_id raises scene_id c)
  assumes :
      {c : Coordinator} (now : ℕ) (desired sent : List Entry)
      → All ByteEntry sent
      → Act raises c (assume_state raises now desired sent c)
  listens :
      {c : Coordinator} (l : ℕ)
      → is_listed l c.standalone_listeners ≡ false
      → Act raises c (add_listener l c)
  unlistens : {c : Coordinator} (l : ℕ) → Act raises c (unregister l c)
  manages :
      {c : Coordinator} {m : ConnectionManager}
      → Step c.manager m
      → Act raises c (record c { manager = m })
  polls : {c : Coordinator} (clock : ℕ) (rssi : Option ℤ) → Act raises c (poll_signal clock rssi c)

-- A sequence of them, in which the listeners may behave differently each time.
pub data Acts (a : Coordinator) : Coordinator → Type 0 where
  begins : Acts a a
  then_act : {b c : Coordinator} (raises : ℕ → Bool) → Acts a b → Act raises b c → Acts a c
