-- ===== src/Requests/Correlation.antt =====
-- `transport/correlation.py`: the two dictionaries of `CorrelationEngine`. `del d[key]` raises a
-- KeyError on a missing key, so every operation that deletes returns a Result.
pub mod Entries
pub mod Outstanding
pub mod View
pub mod Expiry
pub mod Refinement
use tuya_ble_mesh.Prelude.{ℕ, ◌≡◌, Bool, true, false, ◌&&◌, Option, none, some, List, [], ◌∷◌, ◌++◌}
use tuya_ble_mesh.Prelude.{
  is_some, leb, ◌==◌, if◌then◌else◌, length, Result, ok, err, ◌>>=◌, ◌>>◌, raise_if,
}
use tuya_ble_mesh.Prelude.{key_error, correlation_conflict_error}
use tuya_ble_mesh.Prelude.Dict.{lookup, insert, erase}
use tuya_ble_mesh.Requests.Request.{CommandRequest}
use native.Mathlib.Decide.{ℕ_discrete}

pub record CorrelationKey : Type 0 where
  pub opcode : ℕ
  pub destination : ℕ
  pub sequence : ℕ
  pub request_id : ℕ

unfoldable pub key_discrete : Discrete CorrelationKey
key_discrete = hlevel ℕ_discrete

pub record CorrelationEngine : Type 0 where
  pub pending : List (CorrelationKey × CommandRequest)
  pub by_request_id : List (ℕ × CorrelationKey)

-- `CorrelationEngine.__init__`, and what `clear` leaves.
unfoldable pub empty_engine : CorrelationEngine
empty_engine = record { pending = []; by_request_id = [] }

-- `request.expected_response_opcode or request.opcode`
unfoldable pub response_opcode : CommandRequest → ℕ
response_opcode request = elim request.expected_response_opcode [
  | none ↦ request.opcode
  | some op ↦ if op == 0 then request.opcode else op
]

unfoldable pub key_of : CommandRequest → ℕ → CorrelationKey
unfolding response_opcode
key_of request sequence = record {
  opcode = response_opcode request;
  destination = request.target_node;
  sequence = sequence;
  request_id = request.request_id;
}

-- `key in d`
abbrev pub has_key {ℓ} : {K V : Type ℓ} → Discrete K → K → List (K × V) → Bool
has_key dec k d = is_some (lookup dec k d)

-- `del d[key]`
unfoldable pub delete {ℓ} : {K V : Type ℓ} → Discrete K → K → List (K × V) → Result (List (K × V))
delete dec k d = if has_key dec k d then ok (erase dec k d) else err key_error

unfoldable pub register :
    CorrelationEngine → CommandRequest → ℕ → Result (CorrelationEngine × CorrelationKey)
register engine request sequence = do
  raise_if (has_key ℕ_discrete request.request_id engine.by_request_id) correlation_conflict_error
  let key = key_of request sequence
  ok (
    record {
      pending = insert key_discrete key request engine.pending;
      by_request_id = insert ℕ_discrete request.request_id key engine.by_request_id;
    },
    key,
  )

-- Both deletions for one entry.
unfoldable pub forget : CorrelationEngine → CorrelationKey → ℕ → Result CorrelationEngine
unfolding delete
forget engine key request_id = do
  p ← delete key_discrete key engine.pending
  b ← delete ℕ_discrete request_id engine.by_request_id
  ok (record { pending = p; by_request_id = b })

-- The test of the scan in `match_response`.
unfoldable pub matches : ℕ → ℕ → ℕ → CorrelationKey → Bool
matches opcode source sequence key =
    key.opcode == opcode && (key.destination == source && key.sequence == sequence)

-- The first entry that matches, on the snapshot of the items.
unfoldable pub find_match :
    ℕ → ℕ → ℕ → List (CorrelationKey × CommandRequest) → Option (CorrelationKey × CommandRequest)
find_match opcode source sequence [] = none
find_match opcode source sequence ((key, request) ∷ items) =
    if matches opcode source sequence key
    then some (key, request)
    else find_match opcode source sequence items

unfoldable pub take_match :
    CorrelationEngine
    → Option (CorrelationKey × CommandRequest)
    → Result (CorrelationEngine × Option CommandRequest)
take_match engine none = ok (engine, none)
take_match engine (some (key, request)) = do
  rest ← forget engine key request.request_id
  ok (rest, some request)

unfoldable pub match_response :
    CorrelationEngine → ℕ → ℕ → ℕ → Result (CorrelationEngine × Option CommandRequest)
match_response engine opcode source sequence =
    take_match engine (find_match opcode source sequence engine.pending)

unfoldable pub cancel_key :
    CorrelationEngine → ℕ → Option CorrelationKey → Result (CorrelationEngine × Bool)
cancel_key engine request_id none = ok (engine, false)
cancel_key engine request_id (some key) = do rest ← forget engine key request_id; ok (rest, true)

unfoldable pub cancel : CorrelationEngine → ℕ → Result (CorrelationEngine × Bool)
unfolding cancel_key
cancel engine request_id =
    cancel_key engine request_id (lookup ℕ_discrete request_id engine.by_request_id)

-- The loop of `expire_stale` over the snapshot of the items.
unfoldable pub expire_loop :
    ℕ
    → List (CorrelationKey × CommandRequest)
    → CorrelationEngine
    → Result (CorrelationEngine × List CommandRequest)
expire_loop now [] engine = ok (engine, [])
expire_loop now ((key, request) ∷ items) engine =
    let kept = expire_loop now items engine in
    let dropped = do
      rest ← forget engine key request.request_id
      (final, expired) ← expire_loop now items rest
      ok (final, request ∷ expired)
    in if leb request.deadline now then dropped else kept

unfoldable pub expire_stale :
    CorrelationEngine → ℕ → Result (CorrelationEngine × List CommandRequest)
expire_stale engine now = expire_loop now engine.pending engine

unfoldable pub pending_count : CorrelationEngine → ℕ
pending_count engine = length engine.pending
