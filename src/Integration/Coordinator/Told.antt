-- ===== src/Integration/Coordinator/Told.antt =====
-- `coordinator.py`: the notifications that Home Assistant or the listeners are told of.
use tuya_ble_mesh.Prelude.{ℕ, ◌+◌, ◌≡◌, refl, arith, Bool, true, false, not, ◌&&◌, ◌||◌}
use tuya_ble_mesh.Prelude.{List, [], ◌∷◌, if◌then◌else◌, ltb, ◌==◌, ◌∙◌, if-cases}
use tuya_ble_mesh.Prelude.Int.{ℤ}
use tuya_ble_mesh.Telink.Packet.{StatusResponse}
use tuya_ble_mesh.Integration.Coordinator.{
  DeviceState, Coordinator, dispatch_update, notify_listeners, call_each, call_listener,
  note_listener_error, unregister,
}
use tuya_ble_mesh.Integration.Coordinator.Updates.{
  same_bool, level_brightness, level_state, onoff_state, on_level_update, on_onoff_update,
  on_status_update, status_is_on, dispatch_if, settle, maybe_persist_seq, make_notify_state,
  status_changed, status_state,
}

-- What the coordinator's lamps report.
pub data Notification : Type 0 where
  level_status : ℤ → Notification
  onoff_status : Bool → Notification
  lamp_status : StatusResponse → Notification

unfoldable pub receive : (ℕ → Bool) → ℕ → Notification → Coordinator → Coordinator
unfolding on_level_update on_onoff_update on_status_update
receive raises now (level_status level) c = on_level_update raises now level c
receive raises now (onoff_status on) c = on_onoff_update raises now on c
receive raises now (lamp_status status) c = on_status_update raises now status c

-- The values of the lamp and whether it is available are the same. The other fields, such as
-- `last_seen` and what the state rests on, are left out.
unfoldable pub same_light : DeviceState → DeviceState → Bool
same_light s t =
    (s.mode == t.mode)
    && (s.brightness == t.brightness)
    && (s.color_temp == t.color_temp)
    && (s.red == t.red)
    && (s.green == t.green)
    && (s.blue == t.blue)
    && (s.color_brightness == t.color_brightness)
    && same_bool s.is_on t.is_on
    && same_bool s.available t.available

-- A lamp that is on by its brightness; only its status does not compare whether it is on.
unfoldable pub LitByBrightness : Notification → DeviceState → Type 0
LitByBrightness (lamp_status status) s = s.is_on ≡ (ltb 0 s.brightness || ltb 0 s.color_brightness)
LitByBrightness n s = Unit

-- Telling the listeners changes neither the state nor the number of times they were told.
unfoldable pub Untouched : Coordinator → Coordinator → Type 0
Untouched c d = (d.state ≡ c.state) × (d.updates ≡ c.updates)

note_listener_error-Untouched : (l : ℕ) (c : Coordinator) → Untouched c (note_listener_error l c)
unfolding Untouched note_listener_error unregister
note_listener_error-Untouched l c =
    if-cases (Untouched c) _ _ _ (λ _. (refl, refl)) (λ _. (refl, refl))

call_listener-Untouched :
    (raises : ℕ → Bool) (l : ℕ) (c : Coordinator) → Untouched c (call_listener raises l c)
unfolding Untouched call_listener
call_listener-Untouched raises l c =
    if-cases (Untouched c) (raises l) _ _ (λ _. note_listener_error-Untouched l c)
      (λ _. (refl, refl))

call_each-Untouched :
    (raises : ℕ → Bool) (ls : List ℕ) (c : Coordinator) → Untouched c (call_each raises ls c)
unfolding Untouched call_each
call_each-Untouched raises [] c = (refl, refl)
call_each-Untouched raises (l ∷ ls) c =
    let (state, updates) = call_listener-Untouched raises l c in
    let (states, more) = call_each-Untouched raises ls (call_listener raises l c) in
    (states ∙ state, more ∙ updates)

dispatch_update_told :
    (raises : ℕ → Bool) (c : Coordinator)
    → ((dispatch_update raises c).state ≡ c.state)
      × ((dispatch_update raises c).updates ≡ c.updates + 1)
unfolding dispatch_update notify_listeners Untouched
dispatch_update_told raises c =
    if-cases {A = Coordinator} (λ d. (d.state ≡ c.state) × (d.updates ≡ c.updates + 1)) c.has_hass _
      _ (λ _. (refl, refl))
      (λ _.
        call_each-Untouched raises c.standalone_listeners (record c { updates = c.updates + 1 }))

dispatch_if_told :
    (raises : ℕ → Bool) (told : Bool) (c : Coordinator)
    → ((dispatch_if raises told c).state ≡ c.state)
      × ((dispatch_if raises told c).updates ≡ c.updates + (if told then 1 else 0))
unfolding dispatch_if
dispatch_if_told raises true c = dispatch_update_told raises c
dispatch_if_told raises false c = (refl, omega arith)

maybe_persist_seq-Untouched : (c : Coordinator) → Untouched c (maybe_persist_seq c)
unfolding maybe_persist_seq Untouched
maybe_persist_seq-Untouched c = if-cases (Untouched c) _ _ _ (λ _. (refl, refl)) (λ _. (refl, refl))

if_not : (b : Bool) (n : ℕ) → n + (if not b then 1 else 0) ≡ n + (if b then 0 else 1)
if_not true n = refl
if_not false n = refl

-- A handler whose test is that the light is a new one.
told_by_light :
    (raises : ℕ → Bool) (told : Bool) (s t : DeviceState) (n : ℕ) (d : Coordinator)
    → told ≡ not (same_light s t)
    → d.state ≡ t
    → d.updates ≡ n
    → (dispatch_if raises told d).updates
      ≡ n + (if same_light s (dispatch_if raises told d).state then 0 else 1)
told_by_light raises told s t n d h same count =
    let (state, updates) = dispatch_if_told raises told d in
    rw (state, updates, same, count, h) (if_not (same_light s t) n)

same_level :
    (now : ℕ) (level : ℤ) (s : DeviceState)
    → ((not (s.brightness == level_brightness level)
          || not (same_bool s.is_on (ltb 0 (level_brightness level))))
        || not s.available)
      ≡ not (same_light s (level_state now level s))
unfolding same_light level_state make_notify_state
same_level now level s = ground arith

same_onoff :
    (now : ℕ) (on : Bool) (s : DeviceState)
    → (not (same_bool s.is_on on) || not s.available) ≡ not (same_light s (onoff_state now on s))
unfolding same_light onoff_state make_notify_state
same_onoff now on s = ground arith

same_status :
    (now : ℕ) (status : StatusResponse) (s : DeviceState)
    → s.is_on ≡ (ltb 0 s.brightness || ltb 0 s.color_brightness)
    → (status_changed status s || not s.available) ≡ not (same_light s (status_state now status s))
unfolding same_light status_changed status_state status_is_on make_notify_state
same_status now status s h = ground arith

-- The listeners are told of a notification exactly when it changes the values of the lamp or makes it
-- available; a change of `last_seen` alone is not told. A status needs that the lamp was held to be on
-- exactly where one of its brightnesses is over 0.
pub receive-updates :
    (raises : ℕ → Bool) (now : ℕ) (n : Notification) (c : Coordinator)
    → LitByBrightness n c.state
    → (receive raises now n c).updates
      ≡ c.updates + (if same_light c.state (receive raises now n c).state then 0 else 1)
unfolding receive on_level_update on_onoff_update on_status_update settle Untouched LitByBrightness
receive-updates raises now (level_status level) c h =
    let state = level_state now level c.state in
    let changed =
      not (c.state.brightness == level_brightness level)
      || not (same_bool c.state.is_on (ltb 0 (level_brightness level))) in
    let (same, count) = maybe_persist_seq-Untouched (settle changed state c) in
    told_by_light raises _ c.state state c.updates (maybe_persist_seq (settle changed state c))
      (same_level now level c.state) same count
receive-updates raises now (onoff_status on) c h =
    let state = onoff_state now on c.state in
    let settled = settle (not (same_bool c.state.is_on on)) state c in
    let (same, count) = maybe_persist_seq-Untouched settled in
    told_by_light raises _ c.state state c.updates (maybe_persist_seq settled)
      (same_onoff now on c.state) same count
receive-updates raises now (lamp_status status) c h =
    told_by_light raises _ c.state (status_state now status c.state) c.updates
      (settle (status_changed status c.state) (status_state now status c.state) c)
      (same_status now status c.state h) refl refl
