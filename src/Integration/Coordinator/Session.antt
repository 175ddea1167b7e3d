-- ===== src/Integration/Coordinator/Session.antt =====
-- `coordinator.py`: the start and the stop of a coordinator, and the sequence number that it loads and
-- saves. The device keeps its number in the shared store where there is one.
mod Resumed
mod Tests
use tuya_ble_mesh.Prelude.{ℕ, ◌+◌, Bool, true, false, ◌&&◌, Option, none, some, List, [], ◌∷◌, ◌++◌}
use tuya_ble_mesh.Prelude.{if◌then◌else◌, not, is_some, Error}
use tuya_ble_mesh.Prelude.Int.{ℤ}
use tuya_ble_mesh.Device.Sequence.{SequenceStore, set_seq, load, save}
use tuya_ble_mesh.Integration.Manager.{ConnectionManager, async_connect, cancel_tasks}
use tuya_ble_mesh.Integration.Coordinator.{DeviceState, Coordinator, dispatch_update}

pub data Callback : Type 0 where
  onoff level vendor composition status disconnected : Callback

-- `own_store` tells whether the coordinator made a store of its own, `own_file` is what that store
-- holds, and `device_seq` is the number of a device that has no shared store. `has_callback` are the
-- capabilities of the device, and `registered` the callbacks that it was given.
pub record Session : Type 0 where
  pub coordinator : Coordinator
  pub has_sig_sequence : Bool
  pub has_callback : Callback → Bool
  pub entry_id : Option ℕ
  pub shared : Option SequenceStore
  pub own_store : Bool
  pub own_file : Option ℕ
  pub device_seq : ℕ
  pub registered : List Callback
  pub connected : Bool
  pub staleness_task : Bool
  pub seq_persist_task : Bool

-- `self._device.set_seq(data["seq"] + _SEQ_SAFETY_MARGIN)`, where there is a number.
unfoldable pub restore_own : Option ℕ → Session → Session
restore_own none s = s
restore_own (some seq) s = record s { device_seq = seq + 100 }

-- The store that is loaded, by which one there is.
unfoldable pub load_from : (ℕ → Option ℕ) → Option SequenceStore → Session → Session
unfolding restore_own
load_from legacy (some store) s =
    let loaded = load legacy s.entry_id store in
    record s { shared = some (set_seq loaded.seq loaded) }
load_from legacy none s =
    if s.coordinator.has_hass && is_some s.entry_id
    then restore_own s.own_file (record s { own_store = true })
    else s

unfoldable pub load_seq : (ℕ → Option ℕ) → Session → Session
unfolding load_from
load_seq legacy s = if s.has_sig_sequence then load_from legacy s.shared s else s

-- The callbacks that a device may have, in the order in which they are registered.
abbrev pub notified : List Callback
notified = onoff ∷ level ∷ vendor ∷ composition ∷ status ∷ []

-- What a step leaves, and the exception that it raises.
abbrev pub Left : Type 0
Left = Session × Option Error

-- The store that is saved; the write may raise.
unfoldable pub save_to : Option Error → Option SequenceStore → Session → Left
save_to (some e) (some store) s = (s, some e)
save_to none (some store) s = (record s { shared = some (save store) }, none)
save_to fails none s =
    if s.own_store
    then (elim fails [ none ↦ record s { own_file = some s.device_seq } | some e ↦ s ], fails)
    else (s, none)

unfoldable pub save_seq : Option Error → Session → Left
unfolding save_to
save_seq fails s = if s.has_sig_sequence then save_to fails s.shared s else (s, none)

unfoldable pub register_callbacks : List Callback → Session → Session
register_callbacks [] s = s
register_callbacks (callback ∷ callbacks) s = register_callbacks callbacks (
    if s.has_callback callback
    then record s { registered = s.registered ++ (callback ∷ []) }
    else s)

-- `self._conn_mgr.running = ...`
unfoldable pub set_running : Bool → Session → Session
set_running running s = record s {
  coordinator = record s.coordinator {
    manager = record s.coordinator.manager { running = running };
  };
}

-- A connection that was made: how long it took, the time, and what the device says of itself.
pub record Made : Type 0 where
  pub response_time : ℕ
  pub clock : ℕ
  pub rssi : Option ℤ
  pub firmware_version : Option (List ℕ)

-- The end of `async_initial_connect`, after the connection.
unfoldable pub after_connected : (ℕ → Bool) → Made → Session → Session
unfolding async_connect dispatch_update
after_connected raises made s =
    let c = s.coordinator in
    record s {
      connected = true;
      staleness_task = true;
      coordinator = dispatch_update raises (record c {
        manager = async_connect made.response_time made.clock made.rssi c.manager;
        state = record c.state {
          available = true;
          firmware_version = made.firmware_version;
          last_seen = some made.clock;
        };
      });
    }

-- What the device's `connect` comes to.
pub data ConnectOutcome : Type 0 where
  refused : Error → ConnectOutcome
  made : Made → ConnectOutcome

unfoldable pub finish_connect : (ℕ → Bool) → ConnectOutcome → Session → Left
unfolding after_connected
finish_connect raises (refused e) s = (s, some e)
finish_connect raises (made m) s = (after_connected raises m s, none)

-- `async_initial_connect`, whose stores can be read.
unfoldable pub initial_connect : (ℕ → Bool) → (ℕ → Option ℕ) → ConnectOutcome → Session → Left
unfolding set_running load_seq register_callbacks finish_connect
initial_connect raises legacy outcome s =
    let loaded = load_seq legacy (set_running true s) in
    let ready = register_callbacks notified loaded in
    finish_connect raises outcome
      (record ready { registered = ready.registered ++ (disconnected ∷ []) })

-- What `async_stop` meets: an exception of the write of the number, of each of the two waits for a
-- task that it has cancelled, and of the end of the manager's tasks, after the manager has dropped
-- them; and whether the device disconnects, whose exceptions are ignored.
pub record Stopping : Type 0 where
  pub save : Option Error
  pub watchdog : Option Error
  pub persist : Option Error
  pub tasks : Option Error
  pub disconnects : Bool

-- The `finally` of `async_stop`, with the tasks ended before it.
unfoldable pub close : Bool → Session → Session
unfolding cancel_tasks
close disconnects s = record s {
  staleness_task = false;
  seq_persist_task = false;
  registered = [];
  connected = s.connected && not disconnects;
  coordinator = record s.coordinator {
    manager = cancel_tasks s.coordinator.manager;
    state = record s.coordinator.state { available = false };
  };
}

unfoldable pub end_stop : Stopping → Session → Left
unfolding close
end_stop stopping s = (close stopping.disconnects s, stopping.tasks)

-- The wait for a task, where there is one; a wait that is cancelled ends the stop.
unfoldable pub wait_for : Option Error → Bool → Session → (Session → Left) → Left
wait_for none task s rest = rest s
wait_for (some e) task s rest = if task then (s, some e) else rest s

unfoldable pub after_watchdog : Stopping → Session → Left
unfolding wait_for end_stop
after_watchdog stopping s =
    wait_for stopping.persist s.seq_persist_task (record s { staleness_task = false })
      (end_stop stopping)

unfoldable pub after_save : Stopping → Left → Left
unfolding wait_for after_watchdog
after_save stopping (s, some e) = (s, some e)
after_save stopping (s, none) =
    wait_for stopping.watchdog s.staleness_task s (after_watchdog stopping)

unfoldable pub async_stop : Stopping → Session → Left
unfolding set_running save_seq after_save
async_stop stopping s = after_save stopping (save_seq stopping.save (set_running false s))
