-- ===== src/Requests/Dispatcher/Flying.antt =====
-- The requests in flight, counted by device, under the dictionary operations of the dispatcher.
use tuya_ble_mesh.Prelude.{ℕ, ◌+◌, ◌≡◌, refl, arith, none, some, List, [], ◌∷◌, length}
use tuya_ble_mesh.Prelude.Dict.{lookup, insert, erase, lookup-insert}
use tuya_ble_mesh.Requests.Request.{CommandRequest}
use tuya_ble_mesh.Requests.Dispatcher.{count_of}
use native.Mathlib.Decide.{ℕ_discrete}
use mathlib.Core.Logic.{ite}

-- One where the request is for the node.
abbrev pub bound_for : ℕ → CommandRequest → ℕ
bound_for node request = ite (ℕ_discrete request.target_node node) 1 0

-- How many entries are for the node.
unfoldable pub flying : ℕ → List (ℕ × CommandRequest) → ℕ
flying node [] = 0
flying node ((id, request) ∷ d) = bound_for node request + flying node d

pub length-insert :
    (id : ℕ) (r : CommandRequest) (d : List (ℕ × CommandRequest))
    → lookup ℕ_discrete id d ≡ none
    → length (insert ℕ_discrete id r d) ≡ length d + 1
unfolding lookup insert
length-insert id r [] h = refl
length-insert id r ((i, s) ∷ d) h = ground (arith, length-insert id r d)

pub length-erase :
    (id : ℕ) (r : CommandRequest) (d : List (ℕ × CommandRequest))
    → lookup ℕ_discrete id d ≡ some r
    → length (erase ℕ_discrete id d) + 1 ≡ length d
unfolding lookup erase
length-erase id r [] h = ground arith
length-erase id r ((i, s) ∷ d) h = ground (arith, length-erase id r d)

pub flying-insert :
    (node id : ℕ) (r : CommandRequest) (d : List (ℕ × CommandRequest))
    → lookup ℕ_discrete id d ≡ none
    → flying node (insert ℕ_discrete id r d) ≡ flying node d + bound_for node r
unfolding lookup insert flying
flying-insert node id r [] h = omega arith
flying-insert node id r ((i, s) ∷ d) h = ground (arith, flying-insert node id r d)

pub flying-erase :
    (node id : ℕ) (r : CommandRequest) (d : List (ℕ × CommandRequest))
    → lookup ℕ_discrete id d ≡ some r
    → flying node (erase ℕ_discrete id d) + bound_for node r ≡ flying node d
unfolding lookup erase flying
flying-erase node id r [] h = ground arith
flying-erase node id r ((i, s) ∷ d) h = ground (arith, flying-erase node id r d)

pub count_of-insert :
    (key node v : ℕ) (d : List (ℕ × ℕ))
    → count_of node (insert ℕ_discrete key v d) ≡ ite (ℕ_discrete key node) v (count_of node d)
count_of-insert key node v d = rw lookup-insert (ground arith)
