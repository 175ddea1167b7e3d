-- ===== src/Integration/Coordinator/Coherent.antt =====
-- `coordinator.py`: what the fields of a device's state say of each other.
use tuya_ble_mesh.Prelude.{ℕ, ◌≤◌, ◌<◌, ◌≡◌, refl, arith, true, not, ◌&&◌}
use tuya_ble_mesh.Prelude.{Bool, Option, none, some, List, [], ◌∷◌, All, is_some, if-cases, leb}
use tuya_ble_mesh.Prelude.Int.{ℤ, pos_part, pos, negsuc}
use tuya_ble_mesh.Telink.Packet.{StatusResponse}
use tuya_ble_mesh.Integration.Manager.{ConnectionManager}
use tuya_ble_mesh.Integration.Coordinator.{
  StateUpdateSource, notify, poll, command_echo, assumed, DeviceAvailabilityState, unknown_state,
  available_state, stale, assumed_online, unreachable, reprovision_required, Entry, is_on_entry,
  mode_entry, brightness_entry, color_temp_entry, red_entry, green_entry, blue_entry,
  color_brightness_entry, power_entry, energy_entry, Reason, last_failure, DeviceState, new_state,
}
use tuya_ble_mesh.Integration.Coordinator.Updates.{
  make_notify_state, level_brightness, level_state, onoff_state, status_state,
}
use tuya_ble_mesh.Integration.Coordinator.Lifecycle.{
  is_permanent_class, is_mesh_auth, shown_error, degrade, take_rssi, apply_sent,
}

-- The confidence of a source, in tenths.
abbrev pub Sourced : StateUpdateSource → ℕ → Type 0
Sourced notify n = n ≡ 10
Sourced assumed n = n ≤ 3
Sourced poll n = ⊥
Sourced command_echo n = ⊥

-- Where a device is degraded there is a reason, where it is available there is none.
abbrev pub Explained : DeviceAvailabilityState → Option Reason → Type 0
Explained unknown_state reason = reason ≡ none
Explained available_state reason = reason ≡ none
Explained assumed_online reason = Unit
Explained stale reason = is_some reason ≡ true
Explained unreachable reason = is_some reason ≡ true
Explained reprovision_required reason = is_some reason ≡ true

-- The values of a lamp are bytes.
abbrev pub InRange : DeviceState → Type 0
InRange s =
    (s.brightness < 256)
    × (s.color_temp < 256)
    × (s.mode < 256)
    × (s.red < 256)
    × (s.green < 256)
    × (s.blue < 256)
    × (s.color_brightness < 256)

abbrev pub Coherent : DeviceState → Type 0
Coherent s =
    Sourced s.last_update_source s.state_confidence
    × Explained s.device_availability s.degraded_reason
    × InRange s

abbrev pub ByteStatus : StatusResponse → Type 0
ByteStatus status =
    (status.white_brightness < 256)
    × (status.white_temp < 256)
    × (status.mode < 256)
    × (status.red < 256)
    × (status.green < 256)
    × (status.blue < 256)
    × (status.color_brightness < 256)

abbrev pub ByteEntry : Entry → Type 0
ByteEntry (is_on_entry on) = Unit
ByteEntry (mode_entry n) = n < 256
ByteEntry (brightness_entry n) = n < 256
ByteEntry (color_temp_entry n) = n < 256
ByteEntry (red_entry n) = n < 256
ByteEntry (green_entry n) = n < 256
ByteEntry (blue_entry n) = n < 256
ByteEntry (color_brightness_entry n) = n < 256
ByteEntry (power_entry n) = Unit
ByteEntry (energy_entry n) = Unit

pub new_state-Coherent : Coherent new_state
unfolding new_state
new_state-Coherent = ground arith

level_brightness_lt : (level : ℤ) → pos_part level < 32768 → level_brightness level < 256
unfolding level_brightness
level_brightness_lt (pos n) h = omega arith
level_brightness_lt (negsuc n) h = omega arith

pub level_state-Coherent :
    (now : ℕ) (level : ℤ) (s : DeviceState)
    → pos_part level < 32768
    → Coherent s
    → Coherent (level_state now level s)
unfolding level_state make_notify_state
level_state-Coherent now level s h (_, _, (br, ct, m, r, g, bl, cb)) =
    (refl, refl, (level_brightness_lt level h, ct, m, r, g, bl, cb))

pub onoff_state-Coherent :
    (now : ℕ) (on : Bool) (s : DeviceState) → Coherent s → Coherent (onoff_state now on s)
unfolding onoff_state make_notify_state
onoff_state-Coherent now on s (_, _, range) = (refl, refl, range)

pub status_state-Coherent :
    (now : ℕ) (status : StatusResponse) (s : DeviceState)
    → ByteStatus status
    → Coherent (status_state now status s)
unfolding status_state make_notify_state
status_state-Coherent now status s range = (refl, refl, range)

pub degrade-Coherent :
    (m : ConnectionManager) (s : DeviceState) → Coherent s → Coherent (degrade m s)
unfolding degrade
degrade-Coherent m s (source, reason, range) =
    let error_class = m.stats.last_error_class in
    if-cases Coherent (is_permanent_class error_class) _ _ (λ lasting. (source, refl, range))
      (λ other.
        if-cases Coherent (not s.available && leb 1 m.consecutive_failures) _ _
          (λ down. (
            source,
            if-cases
                (λ a.
                  Explained a (some (last_failure error_class (shown_error m.stats.last_error))))
                (is_mesh_auth error_class) reprovision_required unreachable (λ auth. refl)
                (λ lost. refl),
            range,
          ))
          (λ up. (source, reason, range)))

pub take_rssi-Coherent :
    (rssi : Option ℤ) (s : DeviceState) → Coherent s → Coherent (take_rssi rssi s)
unfolding take_rssi
take_rssi-Coherent none s h = h
take_rssi-Coherent (some rssi) s h = h

pub apply_sent-Coherent :
    (sent : List Entry) (s : DeviceState)
    → All ByteEntry sent
    → Coherent s
    → Coherent (apply_sent sent s)
unfolding apply_sent
apply_sent-Coherent [] s bytes h = h
apply_sent-Coherent (is_on_entry on ∷ sent) s (b, bytes) h = apply_sent-Coherent sent _ bytes h
apply_sent-Coherent (mode_entry n ∷ sent) s (b, bytes) (source, reason, (br, ct, m, r, g, bl, cb)) =
    apply_sent-Coherent sent _ bytes (source, reason, (br, ct, b, r, g, bl, cb))
apply_sent-Coherent (brightness_entry n ∷ sent) s (b, bytes)
      (source, reason, (br, ct, m, r, g, bl, cb)) =
    apply_sent-Coherent sent _ bytes (source, reason, (b, ct, m, r, g, bl, cb))
apply_sent-Coherent (color_temp_entry n ∷ sent) s (b, bytes)
      (source, reason, (br, ct, m, r, g, bl, cb)) =
    apply_sent-Coherent sent _ bytes (source, reason, (br, b, m, r, g, bl, cb))
apply_sent-Coherent (red_entry n ∷ sent) s (b, bytes) (source, reason, (br, ct, m, r, g, bl, cb)) =
    apply_sent-Coherent sent _ bytes (source, reason, (br, ct, m, b, g, bl, cb))
apply_sent-Coherent (green_entry n ∷ sent) s (b, bytes)
      (source, reason, (br, ct, m, r, g, bl, cb)) =
    apply_sent-Coherent sent _ bytes (source, reason, (br, ct, m, r, b, bl, cb))
apply_sent-Coherent (blue_entry n ∷ sent) s (b, bytes) (source, reason, (br, ct, m, r, g, bl, cb)) =
    apply_sent-Coherent sent _ bytes (source, reason, (br, ct, m, r, g, b, cb))
apply_sent-Coherent (color_brightness_entry n ∷ sent) s (b, bytes)
      (source, reason, (br, ct, m, r, g, bl, cb)) =
    apply_sent-Coherent sent _ bytes (source, reason, (br, ct, m, r, g, bl, b))
apply_sent-Coherent (power_entry n ∷ sent) s (b, bytes) h = apply_sent-Coherent sent s bytes h
apply_sent-Coherent (energy_entry n ∷ sent) s (b, bytes) h = apply_sent-Coherent sent s bytes h
