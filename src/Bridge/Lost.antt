-- ===== src/Bridge/Lost.antt =====
-- A bridge that cannot be reached while a command waits for its result.
use tuya_ble_mesh.Prelude.{ℕ, zero, suc, ◌+◌, ◌<◌, ◌≡◌, refl, ap, ◌∙◌, arith, true, false, Bool}
use tuya_ble_mesh.Prelude.{Option, [], ◌∷◌, ◌++◌, ok, err, os_error, mesh_connection_error}
use tuya_ble_mesh.Prelude.{if◌then◌else◌}
use tuya_ble_mesh.Telink.Connection.{is_os_error}
use tuya_ble_mesh.Bridge.{
  Command, Reply, Link, Daemon, http_result, Called, http_get, http_post, after_poll, poll_loop,
  after_post, submit, is_sig_fresh, SigBridge, Switched, power_command, send_and_wait,
  is_sig_mesh_error, switch_on, switch_off,
}
use tuya_ble_mesh.Bridge.{after_send, send_loop, send_power}

-- From one request on, so many answers that are not fresh; the next request finds no bridge.
abbrev pub StaleThenLost : (Reply → Bool) → Daemon → ℕ → ℕ → Type 0
StaleThenLost is_fresh daemon n zero = daemon n ≡ err os_error
StaleThenLost is_fresh daemon n (suc stale) =
    ((reply : Reply) × ((daemon n ≡ ok reply) × (is_fresh reply ≡ false)))
    × StaleThenLost is_fresh daemon (n + 1) stale

-- Some requests later, with an exception of the requests.
abbrev pub lost_after : ℕ → Link → Called (Option Reply)
lost_after n l = record { link = record l { asked = n }; outcome = err mesh_connection_error }

poll_loop-lost :
    (stale left : ℕ) (is_fresh : Reply → Bool) (daemon : Daemon) (l : Link)
    → stale < left
    → StaleThenLost is_fresh daemon l.asked stale
    → poll_loop left is_fresh daemon l ≡ lost_after (l.asked + (stale + 1)) l
unfolding poll_loop after_poll http_get http_result is_os_error
poll_loop-lost zero (suc left) is_fresh daemon l h lost = rw lost refl
poll_loop-lost (suc stale) (suc left) is_fresh daemon l h ((reply, (answers, old)), later) =
    rw (answers, old)
      (poll_loop-lost stale left is_fresh daemon (record l { asked = l.asked + 1 })
          (omega (arith, h)) later
        ∙ ap (λ (n : ℕ). lost_after n l) (omega arith))
poll_loop-lost stale left is_fresh daemon l h _ = absurd (omega (arith, h))

submit-lost :
    (stale : ℕ) (is_fresh : Reply → Bool) (daemon : Daemon) (command : Command) (l : Link)
    (taken : Reply)
    → stale < 30
    → daemon l.asked ≡ ok taken
    → StaleThenLost is_fresh daemon (l.asked + 1) stale
    → submit is_fresh daemon command l
      ≡ lost_after (l.asked + (stale + 2)) (record l { posted = l.posted ++ (command ∷ []) })
unfolding submit http_post http_result after_post
submit-lost stale is_fresh daemon command l taken few answers lost =
    let posted : Link = record l { asked = l.asked + 1; posted = l.posted ++ (command ∷ []) } in
    simp answers (
      poll_loop-lost stale 30 is_fresh daemon posted few lost
      ∙ ap (λ (n : ℕ). lost_after n posted) (omega arith))

send_loop-lost :
    (left : ℕ) (daemon : Daemon) (on : Bool) (b : SigBridge) (n : ℕ) (l : Link)
    → send_and_wait daemon b on ≡ lost_after n l
    → send_loop (suc left) daemon on b ≡ record {
      device = record b { link = record l { asked = n } };
      outcome = err mesh_connection_error;
    }
unfolding send_loop after_send is_sig_mesh_error
send_loop-lost left daemon on b n l e = ap (after_send left (send_loop left daemon on) b) e

if_connected :
    (connected : Bool) (x y : Switched) → connected ≡ true → (if connected then x else y) ≡ x
if_connected true x y h = refl
if_connected false x y h = absurd (cc)

-- A bridge that takes a command, gives so many answers that are not fresh, fewer than 30, and cannot
-- be reached at the next poll: `send_power` raises MeshConnectionError at that poll. It does not poll
-- again, does not repeat the command, leaves the bridge connected and tells no callback.
pub send_power-lost :
    (stale max_retries : ℕ) (daemon : Daemon) (on : Bool) (b : SigBridge) (taken : Reply)
    → b.link.connected ≡ true
    → 0 < max_retries
    → stale < 30
    → daemon b.link.asked ≡ ok taken
    → StaleThenLost
        (is_sig_fresh (if on then switch_on else switch_off))
        daemon
        (b.link.asked + 1)
        stale
    → send_power max_retries daemon on b ≡ record {
      device = record b {
        link = record b.link {
          asked = b.link.asked + (stale + 2);
          posted = b.link.posted ++ (power_command b on ∷ []);
        };
      };
      outcome = err mesh_connection_error;
    }
unfolding send_power send_and_wait
send_power-lost stale (suc left) daemon on b taken on_line h few answers lost =
    if_connected b.link.connected _ _ on_line
    ∙ send_loop-lost left daemon on b (b.link.asked + (stale + 2))
        (record b.link { posted = b.link.posted ++ (power_command b on ∷ []) })
        (submit-lost stale (is_sig_fresh (if on then switch_on else switch_off)) daemon
          (power_command b on) b.link taken few answers lost)
send_power-lost stale zero daemon on b taken on_line h few answers lost = absurd (omega (arith, h))
