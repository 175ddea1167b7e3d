-- ===== src/Bridge/Bounds.antt =====
-- What a command of the SIG Mesh bridge costs, and what it tells.
use tuya_ble_mesh.Prelude.{ℕ, zero, suc, ◌+◌, ◌*◌, ◌≤◌, ◌≡◌, refl, ap, ◌∙◌, sym, arith, Bool}
use tuya_ble_mesh.Prelude.{Option, List, [], ◌∷◌, ◌++◌, Result, ok, err, ltb, replicate}
use tuya_ble_mesh.Prelude.{if-cases, if◌then◌else◌, ◌&&◌, append_assoc, append-nil}
use tuya_ble_mesh.Telink.Connection.{is_os_error}
use tuya_ble_mesh.Bridge.{
  Command, Reply, Link, Daemon, http_result, Called, http_get, http_post, after_poll, poll_loop,
  after_post, submit, is_sig_fresh, SigBridge, Switched, power_command, send_and_wait,
  is_sig_mesh_error,
}
use tuya_ble_mesh.Bridge.{has_success, after_send, send_loop, send_power, switch_on, switch_off}

-- So many requests at most, and no command among them.
abbrev pub Polled : ℕ → Link → Link → Type 0
Polled n before after = (after.posted ≡ before.posted) × (after.asked ≤ before.asked + n)

after_poll-Polled :
    (n : ℕ) (before : Link) (is_fresh : Reply → Bool) (rest : Link → Called (Option Reply))
    (l : Link) (answer : Result Reply)
    → Polled 1 before l
    → Polled n l (rest l).link
    → Polled (suc n) before (after_poll is_fresh rest (record { link = l; outcome = answer })).link
unfolding after_poll
after_poll-Polled n before is_fresh rest l (ok reply) (same, one) (kept, more) =
    if-cases (λ (c : Called (Option Reply)). Polled (suc n) before c.link) (is_fresh reply) _ _
      (λ fresh. (same, omega (arith, one))) (λ stale. (kept ∙ same, omega (arith, one, more)))
after_poll-Polled n before is_fresh rest l (err e) (same, one) (kept, more) =
    if-cases (λ (c : Called (Option Reply)). Polled (suc n) before c.link) (is_os_error e) _ _
      (λ lost. (kept ∙ same, omega (arith, one, more))) (λ other. (same, omega (arith, one)))

poll_loop-Polled :
    (left : ℕ) (is_fresh : Reply → Bool) (daemon : Daemon) (l : Link)
    → Polled left l (poll_loop left is_fresh daemon l).link
unfolding poll_loop http_get
poll_loop-Polled zero is_fresh daemon l = (refl, omega arith)
poll_loop-Polled (suc left) is_fresh daemon l =
    after_poll-Polled left l is_fresh (poll_loop left is_fresh daemon)
      (record l { asked = l.asked + 1 }) (http_result (daemon l.asked)) (refl, omega arith)
      (poll_loop-Polled left is_fresh daemon (record l { asked = l.asked + 1 }))

-- One command, and at most 31 requests.
abbrev pub Once : Command → Link → Link → Type 0
Once command before after =
    (after.posted ≡ before.posted ++ (command ∷ [])) × (after.asked ≤ before.asked + 31)

after_post-Once :
    (polls : Link → Called (Option Reply)) (command : Command) (before l : Link)
    (answer : Result Reply)
    → l.posted ≡ before.posted ++ (command ∷ [])
    → l.asked ≤ before.asked + 1
    → Polled 30 l (polls l).link
    → Once command before (after_post polls l answer).link
unfolding after_post
after_post-Once polls command before l (ok reply) posted one (kept, more) =
    (kept ∙ posted, omega (arith, one, more))
after_post-Once polls command before l (err e) posted one (kept, more) =
    (posted, omega (arith, one))

submit-Once :
    (is_fresh : Reply → Bool) (daemon : Daemon) (command : Command) (l : Link)
    → Once command l (submit is_fresh daemon command l).link
unfolding submit http_post
submit-Once is_fresh daemon command l =
    let after = record l { asked = l.asked + 1; posted = l.posted ++ (command ∷ []) } in
    after_post-Once (poll_loop 30 is_fresh daemon) command l after (http_result (daemon l.asked))
      refl (omega arith) (poll_loop-Polled 30 is_fresh daemon after)

-- So many attempts: each one command, the same, and at most 31 requests.
abbrev pub Tried : ℕ → Command → Link → Link → Type 0
Tried k command before after =
    (after.posted ≡ before.posted ++ replicate k command) × (after.asked ≤ before.asked + 31 * k)

-- What the callbacks are told: with a return the new state, with an exception nothing.
abbrev pub Told : List Bool → Bool → SigBridge → Result (Unit {0}) → Type 0
Told told last after (ok _) = after.told ≡ told ++ (after.last_on_state ∷ [])
Told told last after (err e) = (after.told ≡ told) × (after.last_on_state ≡ last)

pub record Spent (n : ℕ) (command : Command) (before : Link) (told : List Bool) (last : Bool)
    (s : Switched) : Type 0 where
  pub attempts : ℕ
  pub few : attempts ≤ n
  pub tried : Tried attempts command before s.device.link
  pub tells : Told told last s.device s.outcome

Spent-suc :
    (n : ℕ) (command : Command) (before l : Link) (told : List Bool) (last : Bool) (s : Switched)
    → Once command before l
    → Spent n command l told last s
    → Spent (suc n) command before told last s
Spent-suc n command before l told last s (posted, asked) more = record {
  attempts = suc more.attempts;
  few = omega (arith, more.few);
  tried = (
    more.tried.0
        ∙ ap (λ (p : List Command). p ++ replicate more.attempts command) posted
        ∙ append_assoc before.posted (command ∷ []) (replicate more.attempts command),
    omega (arith, asked, more.tried.1),
  );
  tells = more.tells;
}

-- An attempt that is the last one.
Spent-Once :
    (n : ℕ) (command : Command) (before : Link) (told : List Bool) (last : Bool) (s : Switched)
    → Once command before s.device.link
    → Told told last s.device s.outcome
    → Spent (suc n) command before told last s
Spent-Once n command before told last s (posted, asked) tells = record {
  attempts = 1;
  few = omega arith;
  tried = (posted, omega (arith, asked));
  tells = tells;
}

after_send-Spent :
    (n : ℕ) (command : Command) (b : SigBridge) (rest : SigBridge → Switched) (l : Link)
    (outcome : Result (Option Reply))
    → Once command b.link l
    → Spent n command l b.told b.last_on_state (rest (record b { link = l }))
    → Spent
        (suc n)
        command
        b.link
        b.told
        b.last_on_state
        (after_send n rest b (record { link = l; outcome = outcome }))
unfolding after_send
after_send-Spent n command b rest l (ok reply) once more =
    let P = λ (s : Switched). Spent (suc n) command b.link b.told b.last_on_state s in
    if-cases P (has_success reply) _ _
      (λ success. Spent-Once n command b.link b.told b.last_on_state _ once refl)
      (λ failure.
        if-cases P (ltb 0 n) _ _
          (λ again. Spent-suc n command b.link l b.told b.last_on_state _ once more)
          (λ last. Spent-Once n command b.link b.told b.last_on_state _ once (refl, refl)))
after_send-Spent n command b rest l (err e) once more =
    if-cases (λ (s : Switched). Spent (suc n) command b.link b.told b.last_on_state s)
      (is_sig_mesh_error e && ltb 0 n) _ _
      (λ again. Spent-suc n command b.link l b.told b.last_on_state _ once more)
      (λ last. Spent-Once n command b.link b.told b.last_on_state _ once (refl, refl))

send_loop-Spent :
    (n : ℕ) (daemon : Daemon) (on : Bool) (b : SigBridge)
    → Spent n (power_command b on) b.link b.told b.last_on_state (send_loop n daemon on b)
unfolding send_loop send_and_wait power_command
send_loop-Spent zero daemon on b = record {
  attempts = 0;
  few = omega arith;
  tried = (sym (append-nil b.link.posted), omega arith);
  tells = (refl, refl);
}
send_loop-Spent (suc n) daemon on b =
    let command = power_command b on in
    let sent = submit (is_sig_fresh (if on then switch_on else switch_off)) daemon command b.link in
    after_send-Spent n command b (send_loop n daemon on) sent.link sent.outcome
      (submit-Once (is_sig_fresh (if on then switch_on else switch_off)) daemon command b.link)
      (send_loop-Spent n daemon on (record b { link = sent.link }))

-- Whatever the daemon answers: `send_power` posts the same command in each of its attempts, at most
-- `max_retries` of them, and makes at most 31 requests for each; where it returns, the callbacks were
-- given one state more, and it is the last known state; where it raises, they were given none, and
-- the last known state is the one before.
pub send_power-Spent :
    (max_retries : ℕ) (daemon : Daemon) (on : Bool) (b : SigBridge)
    → Spent max_retries
        (power_command b on)
        b.link
        b.told
        b.last_on_state
        (send_power max_retries daemon on b)
unfolding send_power
send_power-Spent max_retries daemon on b =
    if-cases
      (λ (s : Switched). Spent max_retries (power_command b on) b.link b.told b.last_on_state s)
      b.link.connected _ _ (λ on_line. send_loop-Spent max_retries daemon on b)
      (λ off_line. record {
        attempts = 0;
        few = omega arith;
        tried = (sym (append-nil b.link.posted), omega arith);
        tells = (refl, refl);
      })
