-- ===== src/Bridge.antt =====
-- `lib/tuya_ble_mesh/sig_mesh_bridge.py`: the HTTP requests that both bridge devices make, and the
-- device of the SIG Mesh bridge. The daemon is a parameter: what it answers to each request, counted
-- from the first one on. `os_error` stands for `TimeoutError` and `aiohttp.ClientError`.
pub mod Lamp
pub mod Bounds
pub mod Lost
mod Tests
use tuya_ble_mesh.Prelude.{ℕ, zero, suc, ◌+◌, Bool, true, false, not, ◌&&◌, Option, none, some}
use tuya_ble_mesh.Prelude.{List, [], ◌∷◌, ◌++◌, if◌then◌else◌, Result, ok, err, Error, ltb, ◌||◌}
use tuya_ble_mesh.Prelude.{mesh_connection_error, sig_mesh_error, os_error, value_error}
use tuya_ble_mesh.Prelude.{invalid_request_error, ◌==◌}
use tuya_ble_mesh.Prelude.Int.{ℤ}
use tuya_ble_mesh.Telink.Connection.{is_os_error}
use tuya_ble_mesh.Telink.Connection.Connect.{is_mesh_connection_error}

pub data Action : Type 0 where
  switch_on switch_off brightness color_temp color light_mode color_brightness : Action

abbrev pub same_action : Action → Action → Bool
same_action switch_on switch_on = true
same_action switch_off switch_off = true
same_action brightness brightness = true
same_action color_temp color_temp = true
same_action color color = true
same_action light_mode light_mode = true
same_action color_brightness color_brightness = true
same_action _ _ = false

-- What is posted: the action, the target of a SIG Mesh command, and the parameters of a Telink one.
pub record Command : Type 0 where
  pub action : Action
  pub target : Option ℕ
  pub params : List ℤ

-- An answer, by what the code asks of it: `status == "ok"`, the action, whether the timestamp, the
-- device type and the success hold, and `status == "ON"`.
pub record Reply : Type 0 where
  pub is_healthy : Bool
  pub action : Option Action
  pub has_timestamp : Bool
  pub is_telink : Bool
  pub success : Bool
  pub is_on : Bool

-- What both devices keep of the daemon: whether it was reached, how often its loss was told, the
-- number of requests and the commands among them.
pub record Link : Type 0 where
  pub connected : Bool
  pub has_version : Bool
  pub disconnects : ℕ
  pub asked : ℕ
  pub posted : List Command

unfoldable pub new_link : Link
new_link = record {
  connected = false;
  has_version = false;
  disconnects = 0;
  asked = 0;
  posted = [];
}

abbrev pub Daemon : Type 0
Daemon = ℕ → Result Reply

-- `except (TimeoutError, aiohttp.ClientError)` of `_http_get` and `_http_post`.
unfoldable pub http_result : Result Reply → Result Reply
unfolding is_os_error
http_result (ok reply) = ok reply
http_result (err e) = if is_os_error e then err mesh_connection_error else err e

-- `\r` or `\n` in the host.
unfoldable pub check_host : List ℕ → Result (Unit {0})
check_host [] = ok tt
check_host (c ∷ host) =
    let rest = check_host host in if c == 13 || c == 10 then err invalid_request_error else rest

-- How a call ends: the link it leaves, and its value or its exception.
pub record Called {ℓ} (Value : Type ℓ) : Type ℓ where
  pub link : Link
  pub outcome : Result Value

unfoldable pub http_get : Daemon → Link → Called Reply
unfolding http_result
http_get daemon l = record {
  link = record l { asked = l.asked + 1 };
  outcome = http_result (daemon l.asked);
}

unfoldable pub http_post : Daemon → Command → Link → Called Reply
unfolding http_result
http_post daemon command l = record {
  link = record l { asked = l.asked + 1; posted = l.posted ++ (command ∷ []) };
  outcome = http_result (daemon l.asked);
}

unfoldable pub mark_disconnected : Link → Link
mark_disconnected l = record l { connected = false }

-- `except (MeshConnectionError, ValueError, OSError)`
unfoldable pub is_connect_error : Error → Bool
unfolding is_os_error is_mesh_connection_error
is_connect_error value_error = true
is_connect_error e = is_os_error e || is_mesh_connection_error e

-- The end of an attempt to connect; `rest` is what the later ones do.
unfoldable pub after_health : (Link → Called (Unit {0})) → Called Reply → Called (Unit {0})
unfolding is_connect_error
after_health rest got = elim got.outcome [
  | ok reply ↦
      let more = rest got.link in
      if reply.is_healthy
      then record {
        link = record got.link { connected = true; has_version = true };
        outcome = ok tt;
      }
      else more
  | err e ↦
      let more = rest got.link in
      if is_connect_error e then more else record { link = got.link; outcome = err e }
]

-- `connect` of both devices, with the attempts left.
unfoldable pub connect : ℕ → Daemon → Link → Called (Unit {0})
unfolding after_health http_get
connect zero daemon l = record { link = l; outcome = err mesh_connection_error }
connect (suc left) daemon l = after_health (connect left daemon) (http_get daemon l)

-- The end of a poll: a fresh answer, or what the later polls do.
unfoldable pub after_poll :
    (Reply → Bool) → (Link → Called (Option Reply)) → Called Reply → Called (Option Reply)
unfolding is_os_error
after_poll is_fresh rest got = elim got.outcome [
  | ok reply ↦
      let more = rest got.link in
      if is_fresh reply then record { link = got.link; outcome = ok (some reply) } else more
  | err e ↦
      let more = rest got.link in
      if is_os_error e then more else record { link = got.link; outcome = err e }
]

-- The loop of polls, with those left. Without a fresh answer the daemon counts as lost.
unfoldable pub poll_loop : ℕ → (Reply → Bool) → Daemon → Link → Called (Option Reply)
unfolding after_poll http_get
poll_loop zero is_fresh daemon l = record {
  link = record l { connected = false; disconnects = l.disconnects + 1 };
  outcome = ok none;
}
poll_loop (suc left) is_fresh daemon l =
    after_poll is_fresh (poll_loop left is_fresh daemon) (http_get daemon l)

-- A command that was posted, and what follows it.
unfoldable pub after_post :
    (Link → Called (Option Reply)) → Link → Result Reply → Called (Option Reply)
after_post polls l (err e) = record { link = l; outcome = err e }
after_post polls l (ok reply) = polls l

-- A command, and 30 polls for its result.
unfoldable pub submit : (Reply → Bool) → Daemon → Command → Link → Called (Option Reply)
unfolding poll_loop http_post after_post
submit is_fresh daemon command l =
    let posted = http_post daemon command l in
    after_post (poll_loop 30 is_fresh daemon) posted.link posted.outcome

unfoldable pub is_action : Action → Option Action → Bool
is_action action none = false
is_action action (some other) = same_action other action

unfoldable pub is_sig_fresh : Action → Reply → Bool
unfolding is_action
is_sig_fresh action reply = is_action action reply.action && reply.has_timestamp

-- `SIGMeshBridgeDevice`: its link, the state it told last, and the states that its callbacks were
-- given.
pub record SigBridge : Type 0 where
  pub target_addr : ℕ
  pub link : Link
  pub last_on_state : Bool
  pub told : List Bool

unfoldable pub new_sig_bridge : ℕ → SigBridge
unfolding new_link
new_sig_bridge target_addr = record {
  target_addr = target_addr;
  link = new_link;
  last_on_state = false;
  told = [];
}

pub record Switched : Type 0 where
  pub device : SigBridge
  pub outcome : Result (Unit {0})

unfoldable pub power_command : SigBridge → Bool → Command
power_command b on = record {
  action = if on then switch_on else switch_off;
  target = some b.target_addr;
  params = [];
}

-- `_send_and_wait`: no result is one without success.
unfoldable pub send_and_wait : Daemon → SigBridge → Bool → Called (Option Reply)
unfolding submit is_sig_fresh power_command
send_and_wait daemon b on =
    submit (is_sig_fresh (if on then switch_on else switch_off)) daemon (power_command b on) b.link

unfoldable pub is_sig_mesh_error : Error → Bool
is_sig_mesh_error sig_mesh_error = true
is_sig_mesh_error _ = false

unfoldable pub has_success : Option Reply → Bool
has_success none = false
has_success (some reply) = reply.success

unfoldable pub says_on : Option Reply → Bool
says_on none = false
says_on (some reply) = reply.is_on

-- The end of an attempt, with the attempts left after it and what they do.
unfoldable pub after_send :
    ℕ → (SigBridge → Switched) → SigBridge → Called (Option Reply) → Switched
unfolding is_sig_mesh_error has_success says_on
after_send left rest b sent =
    let waited = record b { link = sent.link } in
    let more = rest waited in
    elim sent.outcome [
      | err e ↦
          if is_sig_mesh_error e && ltb 0 left
          then more
          else record { device = waited; outcome = err e }
      | ok reply ↦
          if has_success reply
          then record {
            device = record waited {
              last_on_state = says_on reply;
              told = b.told ++ (says_on reply ∷ []);
            };
            outcome = ok tt;
          }
          else if ltb 0 left
          then more
          else record { device = waited; outcome = err sig_mesh_error }
    ]

unfoldable pub send_loop : ℕ → Daemon → Bool → SigBridge → Switched
unfolding after_send send_and_wait
send_loop zero daemon on b = record { device = b; outcome = err sig_mesh_error }
send_loop (suc left) daemon on b =
    after_send left (send_loop left daemon on) b (send_and_wait daemon b on)

unfoldable pub send_power : ℕ → Daemon → Bool → SigBridge → Switched
unfolding send_loop
send_power max_retries daemon on b =
    if b.link.connected
    then send_loop max_retries daemon on b
    else record { device = b; outcome = err sig_mesh_error }
