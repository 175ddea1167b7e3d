-- ===== src/Integration/Coordinator.antt =====
-- `coordinator.py`: the state that `TuyaBLEMeshCoordinator` keeps of a device, what a notification or
-- the connection does to it, and the listeners. Times are numbers of milliseconds, a confidence is
-- a number of tenths, a power of tenths of a watt, an energy of hundredths of a kilowatt-hour.
pub mod Updates
pub mod Lifecycle
pub mod Session
mod Told
mod Listeners
mod Dropped
mod Coherent
mod Fit
mod Life
mod Tests
use tuya_ble_mesh.Prelude.{ℕ, zero, suc, ◌+◌, Bool, true, false, Option, none, some, List, [], ◌∷◌}
use tuya_ble_mesh.Prelude.{◌++◌, if◌then◌else◌, leb, ◌==◌}
use native.Mathlib.Decide.{ℕ_discrete}
use tuya_ble_mesh.Prelude.Int.{ℤ}
use tuya_ble_mesh.Prelude.Dict.{lookup, insert, erase}
use tuya_ble_mesh.Integration.Classify.{ErrorClass}
use tuya_ble_mesh.Integration.Manager.{ConnectionManager, new_manager}
use tuya_ble_mesh.Integration.Polling.{Polling, new_polling}

pub data StateUpdateSource : Type 0 where
  notify poll command_echo assumed : StateUpdateSource

pub data DeviceAvailabilityState : Type 0 where
  unknown_state available_state stale assumed_online unreachable reprovision_required :
      DeviceAvailabilityState

-- An entry of `desired_state`, `last_sent_state` or `last_confirmed_state`.
pub data Entry : Type 0 where
  is_on_entry : Bool → Entry
  mode_entry brightness_entry color_temp_entry red_entry green_entry blue_entry : ℕ → Entry
  color_brightness_entry power_entry energy_entry : ℕ → Entry

-- The texts of `degraded_reason`.
pub data Reason : Type 0 where
  permanent_error : ErrorClass → Reason
  last_failure : ErrorClass → List ℕ → Reason
  no_updates : Reason

pub record DeviceState : Type 0 where
  pub is_on : Bool
  pub brightness : ℕ
  pub color_temp : ℕ
  pub mode : ℕ
  pub red : ℕ
  pub green : ℕ
  pub blue : ℕ
  pub color_brightness : ℕ
  pub rssi : Option ℤ
  pub firmware_version : Option (List ℕ)
  pub power_w : Option ℕ
  pub energy_kwh : Option ℕ
  pub available : Bool
  pub scene_id : ℕ
  pub last_seen : Option ℕ
  pub desired_state : List Entry
  pub last_sent_state : List Entry
  pub last_confirmed_state : List Entry
  pub state_confidence : ℕ
  pub last_update_source : StateUpdateSource
  pub last_update_time : Option ℕ
  pub device_availability : DeviceAvailabilityState
  pub consecutive_write_failures : ℕ
  pub degraded_reason : Option Reason

-- A listener is the number that `id` gives it. `updates` counts the times that Home Assistant or
-- the listeners were told, `saves` the tasks that save the sequence number, and `replies` the answers to a
-- device that asks for the time; `looping` tells whether there is an event loop.
pub record Coordinator : Type 0 where
  pub manager : ConnectionManager
  pub polling : Polling
  pub state : DeviceState
  pub has_hass : Bool
  pub looping : Bool
  pub seq_command_count : ℕ
  pub saves : ℕ
  pub replies : ℕ
  pub updates : ℕ
  pub standalone_listeners : List ℕ
  pub listener_error_counts : List (ℕ × ℕ)

unfoldable pub new_state : DeviceState
new_state = record {
  is_on = false;
  brightness = 0;
  color_temp = 0;
  mode = 0;
  red = 0;
  green = 0;
  blue = 0;
  color_brightness = 0;
  rssi = none;
  firmware_version = none;
  power_w = none;
  energy_kwh = none;
  available = false;
  scene_id = 0;
  last_seen = none;
  desired_state = [];
  last_sent_state = [];
  last_confirmed_state = [];
  state_confidence = 0;
  last_update_source = assumed;
  last_update_time = none;
  device_availability = unknown_state;
  consecutive_write_failures = 0;
  degraded_reason = none;
}

-- `__init__`, with both callbacks of the manager.
unfoldable pub new_coordinator : Bool → Bool → Bool → Bool → Coordinator
unfolding new_state
new_coordinator is_bridge has_entry has_hass looping = record {
  manager = new_manager is_bridge has_entry true;
  polling = new_polling;
  state = new_state;
  has_hass = has_hass;
  looping = looping;
  seq_command_count = 0;
  saves = 0;
  replies = 0;
  updates = 0;
  standalone_listeners = [];
  listener_error_counts = [];
}

unfoldable pub add_listener : ℕ → Coordinator → Coordinator
add_listener listener c = record c {
  standalone_listeners = c.standalone_listeners ++ (listener ∷ []);
}

-- `list.remove`, where a missing element is not an error.
unfoldable pub remove_listener : ℕ → List ℕ → List ℕ
remove_listener listener [] = []
remove_listener listener (l ∷ ls) =
    let rest = remove_listener listener ls in if l == listener then ls else l ∷ rest

-- `_remove`, which `add_listener` returns.
unfoldable pub unregister : ℕ → Coordinator → Coordinator
unfolding remove_listener
unregister listener c = record c {
  standalone_listeners = remove_listener listener c.standalone_listeners;
  listener_error_counts = erase ℕ_discrete listener c.listener_error_counts;
}

-- `self._listener_error_counts.get(cb_id, 0)`
unfoldable pub error_count : ℕ → List (ℕ × ℕ) → ℕ
error_count listener counts = elim (lookup ℕ_discrete listener counts) [ none ↦ 0 | some n ↦ n ]

-- A listener has raised.
unfoldable pub note_listener_error : ℕ → Coordinator → Coordinator
unfolding unregister error_count
note_listener_error listener c =
    let count = error_count listener c.listener_error_counts + 1 in
    let counted = record c {
      listener_error_counts = insert ℕ_discrete listener count c.listener_error_counts;
    } in
    if leb 3 count then unregister listener counted else counted

-- A listener is called, which raises or not and does nothing else to the coordinator.
unfoldable pub call_listener : (ℕ → Bool) → ℕ → Coordinator → Coordinator
unfolding note_listener_error
call_listener raises listener c =
    if raises listener
    then note_listener_error listener c
    else record c { listener_error_counts = erase ℕ_discrete listener c.listener_error_counts }

-- The loop of `_notify_listeners` over the copy of the list.
unfoldable pub call_each : (ℕ → Bool) → List ℕ → Coordinator → Coordinator
unfolding call_listener
call_each raises [] c = c
call_each raises (listener ∷ listeners) c =
    call_each raises listeners (call_listener raises listener c)

unfoldable pub notify_listeners : (ℕ → Bool) → Coordinator → Coordinator
unfolding call_each
notify_listeners raises c = call_each raises c.standalone_listeners c

unfoldable pub dispatch_update : (ℕ → Bool) → Coordinator → Coordinator
unfolding notify_listeners
dispatch_update raises c =
    let told = record c { updates = c.updates + 1 } in
    if c.has_hass then told else notify_listeners raises told
