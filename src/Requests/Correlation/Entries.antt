-- ===== src/Requests/Correlation/Entries.antt =====
-- The two dictionaries of the engine side by side: one entry of `_by_request_id` for each of
-- `_pending`, under the request's identifier.
use tuya_ble_mesh.Prelude.{ℕ, ◌≡◌, ap, arith, some, List, [], ◌∷◌}
use tuya_ble_mesh.Prelude.Dict.{lookup, erase, Distinct}
use tuya_ble_mesh.Requests.Request.{CommandRequest}
use tuya_ble_mesh.Requests.Correlation.{CorrelationKey, CorrelationEngine, key_of, key_discrete}
use native.Mathlib.Decide.{ℕ_discrete}

abbrev pub Items : Type 0
Items = List (CorrelationKey × CommandRequest)

abbrev pub id_entries : Items → List (ℕ × CorrelationKey)
id_entries [] = []
id_entries ((key, request) ∷ items) = (request.request_id, key) ∷ id_entries items

-- A key is the one that `register` made of its request.
abbrev pub Owned : Items → Type 0
Owned [] = Unit {0}
Owned ((key, request) ∷ items) = (key ≡ key_of request key.sequence) × Owned items

pub record Consistent (engine : CorrelationEngine) : Type 0 where
  pub mirrored : engine.by_request_id ≡ id_entries engine.pending
  pub owned : Owned engine.pending
  pub distinct : Distinct ℕ_discrete (id_entries engine.pending)
  pub unique : Distinct key_discrete engine.pending

-- A pending entry is found under its request's identifier.
pub lookup-id_entries :
    (items : Items) (key : CorrelationKey) (request : CommandRequest)
    → Distinct ℕ_discrete (id_entries items)
    → lookup key_discrete key items ≡ some request
    → lookup ℕ_discrete request.request_id (id_entries items) ≡ some key
unfolding lookup
lookup-id_entries [] key request d h = cc
lookup-id_entries ((k, r) ∷ items) key request (fresh, d) h =
    ground (arith, lookup-id_entries items key request d)

-- Deleting it on both sides keeps the sides together.
pub id_entries-erase :
    (items : Items) (key : CorrelationKey) (request : CommandRequest)
    → Distinct ℕ_discrete (id_entries items)
    → lookup key_discrete key items ≡ some request
    → id_entries (erase key_discrete key items)
      ≡ erase ℕ_discrete request.request_id (id_entries items)
unfolding lookup erase
id_entries-erase [] key request d h = cc
id_entries-erase ((k, r) ∷ items) key request (fresh, d) h =
    ground (arith, lookup-id_entries items key request d, id_entries-erase items key request d)

pub erase-Owned :
    (items : Items) (key : CorrelationKey) → Owned items → Owned (erase key_discrete key items)
unfolding erase
erase-Owned [] key o = tt
erase-Owned ((k, r) ∷ items) key (e, o) = ground (arith, erase-Owned items key o)

pub key_of_id :
    (key : CorrelationKey) (request : CommandRequest)
    → key ≡ key_of request key.sequence
    → key.request_id ≡ request.request_id
unfolding key_of
key_of_id key request e = ap (λ (k : CorrelationKey). k.request_id) e

-- And the other way: an identifier's key is pending, with a request of that identifier.
pub lookup_of_id :
    (items : Items) (id : ℕ) (key : CorrelationKey)
    → Owned items
    → Distinct ℕ_discrete (id_entries items)
    → lookup ℕ_discrete id (id_entries items) ≡ some key
    → (request : CommandRequest) × (lookup key_discrete key items ≡ some request)
      × (request.request_id ≡ id)
      × (key ≡ key_of request key.sequence)
unfolding lookup
lookup_of_id [] id key o d h = cc
lookup_of_id ((k, r) ∷ items) id key (e, o) (fresh, d) h = elim (ℕ_discrete r.request_id id) [
  | yes same ↦ (r, ground arith, same, ground arith)
  | no other ↦
      let (request, found, named, own) = lookup_of_id items id key o d (ground arith) in
      (request, ground (arith, key_of_id k r e, key_of_id key request own), named, own)
]

pub Owned-lookup :
    (items : Items) (key : CorrelationKey) (request : CommandRequest)
    → Owned items
    → lookup key_discrete key items ≡ some request
    → key ≡ key_of request key.sequence
unfolding lookup
Owned-lookup [] key request o h = cc
Owned-lookup ((k, r) ∷ items) key request (e, o) h = elim (key_discrete k key) [
  | yes same ↦ ground arith
  | no other ↦ Owned-lookup items key request o (ground arith)
]
