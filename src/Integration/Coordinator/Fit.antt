-- ===== src/Integration/Coordinator/Fit.antt =====
-- What each handler of `TuyaBLEMeshCoordinator` keeps.
use tuya_ble_mesh.Prelude.{ℕ, ◌+◌, ◌<◌, refl, arith, true, false, ◌&&◌}
use tuya_ble_mesh.Prelude.{Bool, Option, List, [], ◌∷◌, if-cases, leb}
use tuya_ble_mesh.Prelude.{◌==◌}
use tuya_ble_mesh.Prelude.Int.{ℤ, pos_part}
use tuya_ble_mesh.Bytes.{Bytes}
use tuya_ble_mesh.Mesh.Codec.{TuyaVendorFrame, parse_tuya_vendor_frame}
use tuya_ble_mesh.Telink.Packet.{StatusResponse}
use tuya_ble_mesh.Integration.Manager.{ConnectionManager, start_rssi_polling, handle_disconnect}
use tuya_ble_mesh.Integration.Manager.Kept.{Kept}
use tuya_ble_mesh.Integration.Manager.Life.{Step, Step-Kept, disconnects, start_rssi_polling-Kept}
use tuya_ble_mesh.Integration.Polling.Slower.{Steady, Slower, record_state_change-Slower}
use tuya_ble_mesh.Integration.Coordinator.{
  DeviceState, Coordinator, unregister, note_listener_error, call_listener, call_each,
  notify_listeners, dispatch_update,
}
use tuya_ble_mesh.Integration.Coordinator.Updates.{
  dispatch_if, settle, maybe_persist_seq, on_level_update, on_onoff_update, on_status_update,
  level_state, onoff_state, status_state,
}
use tuya_ble_mesh.Integration.Coordinator.Lifecycle.{
  Measured, measure, note_measured, on_vendor_frame, on_vendor_update, on_disconnect,
  handle_reconnected, Probe, found, connection_active, failed, probe_device, is_overdue,
  after_probe, watch,
}
use tuya_ble_mesh.Integration.Coordinator.Listeners.{Sound, call_listener-Sound}
use tuya_ble_mesh.Integration.Coordinator.Coherent.{
  Coherent, ByteStatus, level_state-Coherent, onoff_state-Coherent, status_state-Coherent,
}

-- What the coordinator keeps beside its listeners: the bounds of its manager and of the polling, a
-- count that waits for the next save, and a state that is coherent.
abbrev pub Rest : Coordinator → Type 0
Rest c = Kept c.manager × Steady c.polling × (c.seq_command_count < 10) × Coherent c.state

abbrev pub Fit : Coordinator → Type 0
Fit c = Rest c × Sound c

call_listener-Fit :
    (raises : ℕ → Bool) (l : ℕ) (c : Coordinator) → Fit c → Fit (call_listener raises l c)
unfolding call_listener note_listener_error unregister
call_listener-Fit raises l c (rest, sound) = (
  if-cases Rest (raises l) _ _
      (λ raised. if-cases Rest (leb 3 _) _ _ (λ last. rest) (λ again. rest)) (λ fine. rest),
  call_listener-Sound raises l c sound,
)

call_each-Fit :
    (raises : ℕ → Bool) (ls : List ℕ) (c : Coordinator) → Fit c → Fit (call_each raises ls c)
unfolding call_each
call_each-Fit raises [] c h = h
call_each-Fit raises (l ∷ ls) c h =
    call_each-Fit raises ls (call_listener raises l c) (call_listener-Fit raises l c h)

dispatch_update-Fit : (raises : ℕ → Bool) (c : Coordinator) → Fit c → Fit (dispatch_update raises c)
unfolding dispatch_update notify_listeners Sound
dispatch_update-Fit raises c h =
    if-cases Fit c.has_hass _ _ (λ hass. h)
      (λ alone.
        call_each-Fit raises c.standalone_listeners (record c { updates = c.updates + 1 }) h)

dispatch_if-Fit :
    (raises : ℕ → Bool) (told : Bool) (c : Coordinator) → Fit c → Fit (dispatch_if raises told c)
unfolding dispatch_if
dispatch_if-Fit raises true c h = dispatch_update-Fit raises c h
dispatch_if-Fit raises false c h = h

settle-Fit :
    (changed : Bool) (s : DeviceState) (c : Coordinator)
    → Coherent s
    → Fit c
    → Fit (settle changed s c)
unfolding settle Slower Sound
settle-Fit changed s c coherent ((((adds, (low, high)), t), steady, count, _), sound) = (
  (
    ((adds, (omega arith, ground arith)), t),
    if-cases Steady changed _ _ (λ new. (record_state_change-Slower c.polling steady).0)
        (λ old. steady),
    count,
    coherent,
  ),
  sound,
)

maybe_persist_seq-Fit : (c : Coordinator) → Fit c → Fit (maybe_persist_seq c)
unfolding maybe_persist_seq Sound
maybe_persist_seq-Fit c ((kept, steady, count, coherent), sound) =
    if-cases Fit (leb 10 (c.seq_command_count + 1)) _ _
      (λ full. ((kept, steady, omega arith, coherent), sound))
      (λ more. ((kept, steady, ground arith, coherent), sound))

pub on_level_update-Fit :
    (raises : ℕ → Bool) (now : ℕ) (level : ℤ) (c : Coordinator)
    → pos_part level < 32768
    → Fit c
    → Fit (on_level_update raises now level c)
unfolding on_level_update
on_level_update-Fit raises now level c range (rest, sound) = dispatch_if-Fit raises _ _ (
    maybe_persist_seq-Fit _ (
      settle-Fit _ (level_state now level c.state) c
        (level_state-Coherent now level c.state range rest.3) (rest, sound)))

pub on_onoff_update-Fit :
    (raises : ℕ → Bool) (now : ℕ) (on : Bool) (c : Coordinator)
    → Fit c
    → Fit (on_onoff_update raises now on c)
unfolding on_onoff_update
on_onoff_update-Fit raises now on c (rest, sound) = dispatch_if-Fit raises _ _ (
    maybe_persist_seq-Fit _ (
      settle-Fit _ (onoff_state now on c.state) c (onoff_state-Coherent now on c.state rest.3)
        (rest, sound)))

pub on_status_update-Fit :
    (raises : ℕ → Bool) (now : ℕ) (status : StatusResponse) (c : Coordinator)
    → ByteStatus status
    → Fit c
    → Fit (on_status_update raises now status c)
unfolding on_status_update
on_status_update-Fit raises now status c bytes h = dispatch_if-Fit raises _ _ (
    settle-Fit _ (status_state now status c.state) c
      (status_state-Coherent now status c.state bytes) h)

-- A change of the state alone.
pub with_state-Fit :
    (raises : ℕ → Bool) (s : DeviceState) (c : Coordinator)
    → Coherent s
    → Fit c
    → Fit (dispatch_update raises (record c { state = s }))
unfolding Sound
with_state-Fit raises s c coherent ((kept, steady, count, _), sound) =
    dispatch_update-Fit raises (record c { state = s }) ((kept, steady, count, coherent), sound)

note_measured-Fit :
    (raises : ℕ → Bool) (now : ℕ) (m : Measured) (c : Coordinator)
    → Fit c
    → Fit (note_measured raises now m c)
unfolding note_measured dispatch_if
note_measured-Fit raises now (power_w, energy_kwh, true) c (rest, sound) =
    let (source, reason, range) = rest.3 in
    with_state-Fit raises _ c (refl, reason, range) (rest, sound)
note_measured-Fit raises now (power_w, energy_kwh, false) c h = h

on_vendor_frame-Fit :
    (raises : ℕ → Bool) (now : ℕ) (frame : TuyaVendorFrame) (c : Coordinator)
    → Fit c
    → Fit (on_vendor_frame raises now frame c)
unfolding on_vendor_frame Sound
on_vendor_frame-Fit raises now frame c h =
    let measured = measure frame.dps (c.state.power_w, c.state.energy_kwh, false) in
    if-cases Fit (frame.command == 0x02) (record c { replies = c.replies + 1 })
      (note_measured raises now measured c) (λ time. h)
      (λ dps. note_measured-Fit raises now measured c h)

pub on_vendor_update-Fit :
    (raises : ℕ → Bool) (now opcode : ℕ) (params : Bytes) (c : Coordinator)
    → Fit c
    → Fit (on_vendor_update raises now opcode params c)
unfolding on_vendor_update
on_vendor_update-Fit raises now opcode params c h =
    if-cases Fit (opcode == 0xCDD007)
      (on_vendor_frame raises now (parse_tuya_vendor_frame params) c) c
      (λ vendor. on_vendor_frame-Fit raises now (parse_tuya_vendor_frame params) c h) (λ other. h)

-- A step of the manager, of which the coordinator is told nothing.
pub with_manager-Fit :
    (m : ConnectionManager) (c : Coordinator)
    → Step c.manager m
    → Fit c
    → Fit (record c { manager = m })
unfolding Sound
with_manager-Fit m c s ((kept, steady, count, coherent), sound) =
    ((Step-Kept s kept, steady, count, coherent), sound)

pub on_disconnect-Fit :
    (raises : ℕ → Bool) (clock : ℕ) (c : Coordinator) → Fit c → Fit (on_disconnect raises clock c)
unfolding on_disconnect Sound
on_disconnect-Fit raises clock c ((kept, steady, count, coherent), sound) =
    dispatch_update-Fit raises
      (record c {
        state = record c.state { available = false };
        manager = handle_disconnect clock c.manager;
      })
      ((Step-Kept {a = c.manager} (disconnects clock) kept, steady, count, coherent), sound)

pub handle_reconnected-Fit :
    (raises : ℕ → Bool) (firmware_version : Option (List ℕ)) (c : Coordinator)
    → Fit c
    → Fit (handle_reconnected raises firmware_version c)
unfolding handle_reconnected Sound
handle_reconnected-Fit raises firmware_version c ((kept, steady, count, coherent), sound) =
    dispatch_update-Fit raises
      (record c {
        state = record c.state { available = true; firmware_version = firmware_version };
        manager = start_rssi_polling c.manager;
      })
      ((start_rssi_polling-Kept c.manager kept, steady, count, coherent), sound)

after_probe-Fit :
    (raises : ℕ → Bool) (probed : ℕ) (probe : Probe) (c : Coordinator)
    → Fit c
    → Fit (after_probe raises (probe_device probed probe c.state) c)
unfolding after_probe probe_device Sound
after_probe-Fit raises probed (found rssi) c h = h
after_probe-Fit raises probed connection_active c h = h
after_probe-Fit raises probed failed c (rest, sound) =
    let (source, reason, range) = rest.3 in
    with_state-Fit raises _ c (source, refl, range) (rest, sound)

pub watch-Fit :
    (raises : ℕ → Bool) (now probed : ℕ) (probe : Probe) (c : Coordinator)
    → Fit c
    → Fit (watch raises now probed probe c)
unfolding watch
watch-Fit raises now probed probe c h =
    if-cases Fit (c.state.available && is_overdue now c.state.last_seen)
      (after_probe raises (probe_device probed probe c.state) c) c
      (λ overdue. after_probe-Fit raises probed probe c h) (λ seen. h)
