-- ===== src/Bridge/Lamp.antt =====
-- `TelinkBridgeDevice` of `lib/tuya_ble_mesh/sig_mesh_bridge.py`: the lamp behind a bridge, with the
-- state from which it makes the statuses of its callbacks.
use tuya_ble_mesh.Prelude.{ℕ, zero, suc, Bool, true, false, ◌&&◌, Option, none, some}
use tuya_ble_mesh.Prelude.{List, [], ◌∷◌, ◌++◌, if◌then◌else◌, Result, ok, err, ltb, sig_mesh_error}
use tuya_ble_mesh.Prelude.Int.{ℤ, pos, negsuc}
use tuya_ble_mesh.Bridge.{
  Action, switch_on, switch_off, brightness, color_temp, color, light_mode, color_brightness,
  Command, Reply, Link, new_link, Daemon, Called, submit, is_action, is_sig_mesh_error,
}

pub record Status : Type 0 where
  pub mesh_id : ℤ
  pub mode : ℤ
  pub white_brightness : ℤ
  pub white_temp : ℤ
  pub color_brightness : ℤ
  pub red : ℤ
  pub green : ℤ
  pub blue : ℤ

pub record LampBridge : Type 0 where
  pub link : Link
  pub mesh_id : ℤ
  pub mode : ℤ
  pub white : ℤ
  pub temp : ℤ
  pub colored : ℤ
  pub red : ℤ
  pub green : ℤ
  pub blue : ℤ
  pub is_on : Bool
  pub told : List Status

unfoldable pub new_lamp_bridge : LampBridge
unfolding new_link
new_lamp_bridge = record {
  link = new_link;
  mesh_id = pos 0;
  mode = pos 0;
  white = pos 0;
  temp = pos 0;
  colored = pos 0;
  red = pos 0;
  green = pos 0;
  blue = pos 0;
  is_on = false;
  told = [];
}

unfoldable pub status_of : LampBridge → Status
status_of b = record {
  mesh_id = b.mesh_id;
  mode = b.mode;
  white_brightness = if b.is_on then b.white else pos 0;
  white_temp = b.temp;
  color_brightness = if b.is_on then b.colored else pos 0;
  red = b.red;
  green = b.green;
  blue = b.blue;
}

-- `_fire_status`
unfoldable pub fire_status : LampBridge → LampBridge
unfolding status_of
fire_status b = record b { told = b.told ++ (status_of b ∷ []) }

unfoldable pub is_lamp_fresh : Action → Reply → Bool
unfolding is_action
is_lamp_fresh action reply =
    is_action action reply.action && (reply.is_telink && reply.has_timestamp)

-- A result without success, and no result, raise SIGMeshError.
unfoldable pub check_result : Option Reply → Result (Unit {0})
check_result none = err sig_mesh_error
check_result (some reply) = if reply.success then ok tt else err sig_mesh_error

-- `_send_telink_cmd_once`
unfoldable pub send_once : Daemon → Command → Link → Called (Unit {0})
unfolding submit is_lamp_fresh check_result
send_once daemon command l =
    let sent = submit (is_lamp_fresh command.action) daemon command l in
    elim sent.outcome [
      | err e ↦ record { link = sent.link; outcome = err e }
      | ok reply ↦ record { link = sent.link; outcome = check_result reply }
    ]

-- The end of an attempt, with the attempts left after it and what they do.
unfoldable pub after_once : ℕ → (Link → Called (Unit {0})) → Called (Unit {0}) → Called (Unit {0})
unfolding is_sig_mesh_error
after_once left rest sent =
    let more = rest sent.link in
    elim sent.outcome [
      | ok _ ↦ sent
      | err e ↦ if is_sig_mesh_error e && (ltb 0 left && sent.link.connected) then more else sent
    ]

unfoldable pub command_loop : ℕ → Daemon → Command → Link → Called (Unit {0})
unfolding after_once send_once
command_loop zero daemon command l = record { link = l; outcome = err sig_mesh_error }
command_loop (suc left) daemon command l =
    after_once left (command_loop left daemon command) (send_once daemon command l)

-- `_send_telink_cmd`
unfoldable pub send_telink_cmd : Daemon → Command → Link → Called (Unit {0})
unfolding command_loop
send_telink_cmd daemon command l =
    if l.connected
    then command_loop 3 daemon command l
    else record { link = l; outcome = err sig_mesh_error }

pub record Lit : Type 0 where
  pub device : LampBridge
  pub outcome : Result (Unit {0})

-- A command and, where it returns, the change of the lamp and the status.
unfoldable pub command_then :
    Daemon → Action → List ℤ → (LampBridge → LampBridge) → LampBridge → Lit
unfolding send_telink_cmd fire_status
command_then daemon action params change b =
    let command : Command = record { action = action; target = none; params = params } in
    let sent = send_telink_cmd daemon command b.link in
    let waited = record b { link = sent.link } in
    elim sent.outcome [
      | err e ↦ record { device = waited; outcome = err e }
      | ok _ ↦ record { device = fire_status (change waited); outcome = ok tt }
    ]

unfoldable pub is_zero : ℤ → Bool
is_zero (pos zero) = true
is_zero (pos (suc n)) = false
is_zero (negsuc n) = false

unfoldable pub switch : Bool → LampBridge → LampBridge
unfolding is_zero
switch on b =
    if on && is_zero b.white
    then record b { is_on = on; white = pos 100 }
    else record b { is_on = on }

unfoldable pub send_power : Daemon → Bool → LampBridge → Lit
unfolding command_then switch
send_power daemon on = command_then daemon (if on then switch_on else switch_off) [] (switch on)

unfoldable pub send_brightness : Daemon → ℤ → LampBridge → Lit
unfolding command_then
send_brightness daemon level =
    command_then daemon brightness (level ∷ []) (λ b. record b { white = level; is_on = true })

unfoldable pub send_color_temp : Daemon → ℤ → LampBridge → Lit
unfolding command_then
send_color_temp daemon temp =
    command_then daemon color_temp (temp ∷ []) (λ b. record b { temp = temp; is_on = true })

unfoldable pub send_color : Daemon → ℤ → ℤ → ℤ → LampBridge → Lit
unfolding command_then
send_color daemon red green blue =
    command_then daemon color (red ∷ green ∷ blue ∷ [])
      (λ b. record b { red = red; green = green; blue = blue; is_on = true })

unfoldable pub send_light_mode : Daemon → ℤ → LampBridge → Lit
unfolding command_then
send_light_mode daemon mode =
    command_then daemon light_mode (mode ∷ []) (λ b. record b { mode = mode })

unfoldable pub send_color_brightness : Daemon → ℤ → LampBridge → Lit
unfolding command_then
send_color_brightness daemon level =
    command_then daemon color_brightness (level ∷ [])
      (λ b. record b { colored = level; is_on = true })
