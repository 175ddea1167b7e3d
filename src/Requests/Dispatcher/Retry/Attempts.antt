-- ===== src/Requests/Dispatcher/Retry/Attempts.antt =====
-- What the attempts of `_send_with_retry` come to.
use tuya_ble_mesh.Prelude.{
  ℕ, zero, suc, ◌+◌, ◌<◌, ◌≡◌, refl, ap, sym, ◌∙◌, arith, true, false, not, ◌||◌, Option, none,
  some,
}
use tuya_ble_mesh.Prelude.{
  List, [], ◌∷◌, ◌++◌, append_assoc, Result, ok, err, Error, Bool-cases, inl, inr, ◌⊎◌, ◌≢◌,
}
use tuya_ble_mesh.Prelude.{invalid_result_error, is_some}
use tuya_ble_mesh.Bytes.{Bytes}
use tuya_ble_mesh.Requests.Request.{CommandRequest, is_expired, make_result}
use tuya_ble_mesh.Requests.Correlation.{CorrelationEngine, CorrelationKey, register}
use tuya_ble_mesh.Requests.Dispatcher.Retry.{
  Attempt, Progress, call_send, send_registered, send_expecting, try_send,
}
use tuya_ble_mesh.Requests.Dispatcher.Retry.{
  is_retried, note_failure, send_loop, loop_result, raise_or, result_of,
}

-- The attempt is made: the dispatcher runs and the request is not expired.
abbrev pub IsMade : CommandRequest → Attempt → Type 0
IsMade r a = (not a.running || is_expired r a.now) ≡ false

-- The attempts from the given one on: so many that fail with an exception that is retried, then one
-- whose send returns the x.
abbrev pub SucceedsAfter : CommandRequest → (ℕ → Attempt) → ℕ → ℕ → Option Bytes → Type 0
SucceedsAfter r world attempt zero x = IsMade r (world attempt) × ((world attempt).answer ≡ ok x)
SucceedsAfter r world attempt (suc failures) x =
    IsMade r (world attempt)
    × (((e : Error) × ((world attempt).answer ≡ err e) × (is_retried e ≡ true))
        × SucceedsAfter r world (attempt + 1) failures x)

-- The sequence numbers of so many attempts, from the given one on.
abbrev pub sequences : (ℕ → Attempt) → ℕ → ℕ → List ℕ
sequences world attempt zero = []
sequences world attempt (suc n) = (world attempt).sequence ∷ sequences world (attempt + 1) n

-- The loop went well: the response, so many failures, what was sent, and no exception.
pub record WentWell (q : Progress) (x : Option Bytes) (retries : ℕ) (sequences_sent : List ℕ)
    : Type 0 where
  pub response : q.response ≡ some x
  pub retries_used : q.retries_used ≡ retries
  pub sent : q.sent ≡ sequences_sent
  pub raised : q.raised ≡ none

try_unregistered :
    (r : CommandRequest) (a : Attempt) (p : Progress)
    → r.expected_response_opcode ≡ none
    → try_send r a p ≡ call_send a p
unfolding try_send send_expecting
try_unregistered r a p e = ap (λ (o : Option ℕ). send_expecting o r a p) e

pub try_registered :
    (r : CommandRequest) (a : Attempt) (p : Progress) (op : ℕ)
    → r.expected_response_opcode ≡ some op
    → try_send r a p ≡ send_registered a p (register p.correlation r a.sequence)
unfolding try_send send_expecting
try_registered r a p op e = ap (λ (o : Option ℕ). send_expecting o r a p) e

tried :
    (a : Attempt) (p : Progress) (r : CommandRequest) (answer : Result (Option Bytes))
    → r.expected_response_opcode ≡ none
    → a.answer ≡ answer
    → try_send r a p ≡ ((call_send a p).0, answer)
unfolding call_send
tried a p r answer e h =
    try_unregistered r a p e ∙ ap (λ (y : Result (Option Bytes)). ((call_send a p).0, y)) h

-- What the attempt starts from.
abbrev pub found : (ℕ → Attempt) → ℕ → Progress → Progress
found world attempt p = record p { correlation = (world attempt).meanwhile p.correlation }

module _ (left attempt : ℕ) (world : ℕ → Attempt) (r : CommandRequest) (p : Progress) where
  pub loop_ends :
      not (world attempt).running || is_expired r (world attempt).now ≡ true
      → send_loop (suc left) attempt world r p ≡ found world attempt p
  unfolding send_loop
  loop_ends h = rw h refl

  pub loop_answers :
      (q : Progress) (x : Option Bytes)
      → IsMade r (world attempt)
      → try_send r (world attempt) (found world attempt p) ≡ (q, ok x)
      → send_loop (suc left) attempt world r p ≡ record q { response = some x }
  unfolding send_loop
  loop_answers q x made h = simp (made, h) refl

  pub loop_retries :
      (q : Progress) (e : Error)
      → IsMade r (world attempt)
      → try_send r (world attempt) (found world attempt p) ≡ (q, err e)
      → is_retried e ≡ true
      → send_loop (suc left) attempt world r p
        ≡ send_loop left (attempt + 1) world r (note_failure r.retry_policy attempt q e)
  unfolding send_loop
  loop_retries q e made h caught = simp (made, h, caught) refl

  pub loop_raises :
      (q : Progress) (e : Error)
      → IsMade r (world attempt)
      → try_send r (world attempt) (found world attempt p) ≡ (q, err e)
      → is_retried e ≡ false
      → send_loop (suc left) attempt world r p ≡ record q { raised = some e }
  unfolding send_loop
  loop_raises q e made h free = simp (made, h, free) refl

pub loop_succeeds :
    (failures left attempt : ℕ) (world : ℕ → Attempt) (r : CommandRequest) (p : Progress)
    (x : Option Bytes)
    → r.expected_response_opcode ≡ none
    → p.raised ≡ none
    → failures < left
    → SucceedsAfter r world attempt failures x
    → WentWell
        (send_loop left attempt world r p)
        x
        (p.retries_used + failures)
        (p.sent ++ sequences world attempt (suc failures))
unfolding call_send note_failure
loop_succeeds failures zero attempt world r p x e calm h s = ground (arith, h)
loop_succeeds zero (suc left) attempt world r p x e calm h (made, answer) =
    rw
      (loop_answers left attempt world r p _ x made
        (tried (world attempt) (found world attempt p) r _ e answer))
      (record { response = refl; retries_used = omega arith; sent = refl; raised = calm })
loop_succeeds (suc failures) (suc left) attempt world r p x e calm h
      (made, ((y, answer, caught), rest)) =
    let a = world attempt in
    let q : Progress =
      note_failure r.retry_policy attempt (call_send a (found world attempt p)).0 y in
    let more =
      loop_succeeds failures left (attempt + 1) world r q x e calm (omega (arith, h)) rest in
    rw
      (loop_retries left attempt world r p _ y made (tried a (found world attempt p) r _ e answer)
        caught)
      (record {
        response = more.response;
        retries_used = more.retries_used ∙ omega arith;
        sent = more.sent ∙ append_assoc p.sent _ _;
        raised = more.raised;
      })

-- Both ends of a try.
pub try-cases :
    (t : Progress × Result (Option Bytes))
    → ((q : Progress) × (x : Option Bytes) × (t ≡ (q, ok x)))
      ⊎ ((q : Progress) × (e : Error) × (t ≡ (q, err e)))
try-cases (q, ok x) = inl (q, x, refl)
try-cases (q, err e) = inr (q, e, refl)

-- A response or an error is there, or an exception that is not retried has left the loop.
abbrev pub Ends : Option Error → Progress → Type 0
Ends none q = is_some q.response || is_some q.last_error ≡ true
Ends (some e) q = is_retried e ≡ false

abbrev pub Settled : Progress → Type 0
Settled q = Ends q.raised q

loop_result-Settled :
    (r : CommandRequest) (q : Progress) (latency : ℕ)
    → is_some q.response || is_some q.last_error ≡ true
    → loop_result r q latency ≢ err invalid_result_error
unfolding loop_result make_result
loop_result-Settled r q latency h = ground arith

unretried_ne : (e : Error) → is_retried e ≡ false → e ≢ invalid_result_error
unfolding is_retried
unretried_ne e free same = ground (arith, same, free)

raise_or-Ends :
    (o : Option Error) (r : CommandRequest) (q : Progress) (latency : ℕ)
    → Ends o q
    → raise_or o (loop_result r q latency) ≢ err invalid_result_error
raise_or-Ends none r q latency h = loop_result-Settled r q latency h
raise_or-Ends (some e) r q latency h = λ same. unretried_ne e h (ground (arith, same))

pub result_of-Settled :
    (r : CommandRequest) (q : Progress) (latency : ℕ)
    → Settled q
    → result_of r q latency ≢ err invalid_result_error
unfolding result_of
result_of-Settled r q latency h = raise_or-Ends q.raised r q latency h

send_registered-raised :
    (a : Attempt) (p : Progress) (x : Result (CorrelationEngine × CorrelationKey))
    → (send_registered a p x).0.raised ≡ p.raised
unfolding send_registered call_send
send_registered-raised a p (err e) = refl
send_registered-raised a p (ok (engine, key)) = refl

send_expecting-raised :
    (o : Option ℕ) (r : CommandRequest) (a : Attempt) (p : Progress)
    → (send_expecting o r a p).0.raised ≡ p.raised
unfolding send_expecting call_send
send_expecting-raised none r a p = refl
send_expecting-raised (some op) r a p =
    send_registered-raised a p (register p.correlation r a.sequence)

pub try_send-raised :
    (r : CommandRequest) (a : Attempt) (p q : Progress) (x : Result (Option Bytes))
    → try_send r a p ≡ (q, x)
    → q.raised ≡ p.raised
unfolding try_send
try_send-raised r a p q x h =
    sym (ap (λ (t : Progress × Result (Option Bytes)). t.0.raised) h)
    ∙ send_expecting-raised r.expected_response_opcode r a p

pub loop-Settled :
    (left attempt : ℕ) (world : ℕ → Attempt) (r : CommandRequest) (p : Progress)
    → p.raised ≡ none
    → Settled p ⊎ (IsMade r (world attempt) × (0 < left))
    → Settled (send_loop left attempt world r p)
unfolding note_failure send_loop
loop-Settled zero attempt world r p calm (inl h) = h
loop-Settled zero attempt world r p calm (inr (made, h)) = ground (arith, h)
loop-Settled (suc left) attempt world r p calm h =
    let start = found world attempt p in
    elim (Bool-cases (not (world attempt).running || is_expired r (world attempt).now)) [
      | inl ended ↦ rw (loop_ends left attempt world r p ended) (ground (arith, h, ended))
      | inr made ↦ elim (try-cases (try_send r (world attempt) start)) [
        | inl (q, x, eq) ↦
            rw
              (
                loop_answers left attempt world r p q x made eq,
                try_send-raised r (world attempt) start q (ok x) eq ∙ calm,
              )
              refl
        | inr (q, e, eq) ↦
            let quiet = try_send-raised r (world attempt) start q (err e) eq ∙ calm in
            elim (Bool-cases (is_retried e)) [
              | inl caught ↦
                  rw (loop_retries left attempt world r p q e made eq caught) (
                    loop-Settled left (attempt + 1) world r _ quiet (inl (rw quiet (ground arith))))
              | inr free ↦ rw (loop_raises left attempt world r p q e made eq free) free
            ]
      ]
    ]
