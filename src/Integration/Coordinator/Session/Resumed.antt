-- ===== src/Integration/Coordinator/Session/Resumed.antt =====
-- `coordinator.py`: a stop, and the start of the next coordinator on the same stores.
use tuya_ble_mesh.Prelude.{ℕ, ◌≡◌, Bool, true, false}
use tuya_ble_mesh.Prelude.{Option, none, some, [], Error, is_some}
use tuya_ble_mesh.Device.Sequence.{SequenceStore, new_store, save}
use tuya_ble_mesh.Integration.Coordinator.{Coordinator}
use tuya_ble_mesh.Integration.Coordinator.Session.{Session, Stopping}

-- The next sequence number of the device.
unfoldable pub number_in : Option SequenceStore → ℕ → ℕ
number_in none device_seq = device_seq
number_in (some store) device_seq = store.seq

unfoldable pub number : Session → ℕ
unfolding number_in
number s = number_in s.shared s.device_seq

-- No task and no callback is left, and the device is unavailable.
unfoldable pub Stopped : Session → Type 0
Stopped s =
    (s.coordinator.manager.running ≡ false)
    × (s.coordinator.manager.rssi_task ≡ false)
    × (s.coordinator.manager.reconnect_task ≡ false)
    × (s.coordinator.state.available ≡ false)
    × (s.staleness_task ≡ false)
    × (s.seq_persist_task ≡ false)
    × (s.registered ≡ [])

-- The store of a new process, on the file of the one before.
unfoldable pub reopened : ℕ → Option SequenceStore → Option SequenceStore
reopened initial none = none
reopened initial (some store) = some (new_store initial store.saved)

-- A new coordinator and a new device for the same entry, in a new process. (In one process
-- `get_ha_sequence_store` returns the store that is loaded, with its number.)
unfoldable pub restarted : ℕ → Coordinator → Session → Session
unfolding reopened
restarted initial c s = record s {
  coordinator = c;
  shared = reopened initial s.shared;
  own_store = false;
  device_seq = 0;
  registered = [];
  connected = false;
  staleness_task = false;
  seq_persist_task = false;
}

-- The number is kept: in the shared store, or in one of the coordinator's own.
unfoldable pub KeptIn : Option SequenceStore → Coordinator → Session → Type 0
KeptIn (some store) c s = Unit
KeptIn none c s = (s.own_store ≡ true) × (is_some s.entry_id ≡ true) × (c.has_hass ≡ true)

-- A stop whose write does not raise, and whose waits are not cancelled.
abbrev pub uncancelled : Option Error → Bool → Stopping
uncancelled tasks disconnects = record {
  save = none;
  watchdog = none;
  persist = none;
  tasks = tasks;
  disconnects = disconnects;
}
