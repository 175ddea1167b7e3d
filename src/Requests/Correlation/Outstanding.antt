-- ===== src/Requests/Correlation/Outstanding.antt =====
-- What the engine promises, with no dictionaries: the requests that wait for a response, each with
-- its sequence number, in the order of their registration. `step` is the engine's side of the same
-- calls.
use tuya_ble_mesh.Prelude.{ℕ, Bool, false, ◌&&◌, ◌||◌, Option, none, some, List, [], ◌∷◌, ◌++◌}
use tuya_ble_mesh.Prelude.{
  leb, ◌==◌, if◌then◌else◌, Result, ok, err, ◌>>=◌, correlation_conflict_error,
}
use tuya_ble_mesh.Requests.Request.{CommandRequest}
use tuya_ble_mesh.Requests.Correlation.{
  CorrelationEngine, CorrelationKey, key_of, response_opcode, empty_engine,
}
use tuya_ble_mesh.Requests.Correlation.{register, match_response, cancel, expire_stale}

abbrev pub Outstanding : Type 0
Outstanding = List (CommandRequest × ℕ)

abbrev pub is_known : ℕ → Outstanding → Bool
is_known id [] = false
is_known id ((r, s) ∷ out) = r.request_id == id || is_known id out

-- The response that a request with this sequence number waits for.
unfoldable pub awaits : ℕ → ℕ → ℕ → CommandRequest → ℕ → Bool
awaits opcode source sequence request s =
    response_opcode request == opcode && (request.target_node == source && s == sequence)

abbrev pub first_awaiting : ℕ → ℕ → ℕ → Outstanding → Option CommandRequest
first_awaiting opcode source sequence [] = none
first_awaiting opcode source sequence ((r, s) ∷ out) =
    if awaits opcode source sequence r s then some r else first_awaiting opcode source sequence out

abbrev pub without_first : ℕ → ℕ → ℕ → Outstanding → Outstanding
without_first opcode source sequence [] = []
without_first opcode source sequence ((r, s) ∷ out) =
    if awaits opcode source sequence r s
    then out
    else (r, s) ∷ without_first opcode source sequence out

abbrev pub without_id : ℕ → Outstanding → Outstanding
without_id id [] = []
without_id id ((r, s) ∷ out) = if r.request_id == id then out else (r, s) ∷ without_id id out

abbrev pub live : ℕ → Outstanding → Outstanding
live now [] = []
live now ((r, s) ∷ out) =
    let rest = live now out in if leb r.deadline now then rest else (r, s) ∷ rest

abbrev pub stale : ℕ → Outstanding → List CommandRequest
stale now [] = []
stale now ((r, s) ∷ out) = let rest = stale now out in if leb r.deadline now then r ∷ rest else rest

pub data Call : Type 0 where
  registers : CommandRequest → ℕ → Call
  responds : ℕ → ℕ → ℕ → Call
  cancels : ℕ → Call
  expires : ℕ → Call
  clears : Call

pub data Reply : Type 0 where
  registered : CorrelationKey → Reply
  responded : Option CommandRequest → Reply
  cancelled : Bool → Reply
  expired : List CommandRequest → Reply
  cleared : Reply

unfoldable pub spec_step : Outstanding → Call → Result (Outstanding × Reply)
spec_step out (registers request sequence) =
    if is_known request.request_id out
    then err correlation_conflict_error
    else ok (out ++ ((request, sequence) ∷ []), registered (key_of request sequence))
spec_step out (responds opcode source sequence) = ok (
  without_first opcode source sequence out,
  responded (first_awaiting opcode source sequence out),
)
spec_step out (cancels id) = ok (without_id id out, cancelled (is_known id out))
spec_step out (expires now) = ok (live now out, expired (stale now out))
spec_step out clears = ok ([], cleared)

unfoldable pub step : CorrelationEngine → Call → Result (CorrelationEngine × Reply)
unfolding empty_engine
step engine (registers request sequence) = do
  (e, key) ← register engine request sequence
  ok (e, registered key)
step engine (responds opcode source sequence) = do
  (e, found) ← match_response engine opcode source sequence
  ok (e, responded found)
step engine (cancels id) = do (e, was) ← cancel engine id; ok (e, cancelled was)
step engine (expires now) = do (e, gone) ← expire_stale engine now; ok (e, expired gone)
step engine clears = ok (empty_engine, cleared)
