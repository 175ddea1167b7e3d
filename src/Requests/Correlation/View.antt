-- ===== src/Requests/Correlation/View.antt =====
-- The engine seen as its outstanding requests, and what its searches and deletions are there.
use tuya_ble_mesh.Prelude.{ℕ, ◌≡◌, refl, ap, arith, true, none, some, [], ◌∷◌}
use tuya_ble_mesh.Prelude.{is_some, ok, Bool-cases, inl, inr}
use tuya_ble_mesh.Prelude.Dict.{lookup, erase, Distinct}
use tuya_ble_mesh.Prelude.Dict.{erase-Distinct}
use tuya_ble_mesh.Requests.Request.{CommandRequest}
use tuya_ble_mesh.Requests.Correlation.{
  CorrelationKey, CorrelationEngine, key_of, key_discrete, delete, forget,
}
use tuya_ble_mesh.Requests.Correlation.{find_match, matches}
use tuya_ble_mesh.Requests.Correlation.Entries.{
  Items, id_entries, Owned, Consistent, lookup-id_entries, id_entries-erase, erase-Owned,
}
use tuya_ble_mesh.Requests.Correlation.Outstanding.{
  Outstanding, is_known, awaits, first_awaiting, without_first, without_id,
}
use native.Mathlib.Decide.{ℕ_discrete}

-- The engine seen as its outstanding requests.
abbrev pub view : Items → Outstanding
view [] = []
view ((key, request) ∷ items) = (request, key.sequence) ∷ view items

-- Deleting a pending entry on both sides: no KeyError, and the sides stay together.
pub forget_ok :
    (e : CorrelationEngine) (key : CorrelationKey) (r : CommandRequest)
    → Consistent e
    → lookup key_discrete key e.pending ≡ some r
    → let rest : CorrelationEngine = record {
      pending = erase key_discrete key e.pending;
      by_request_id = erase ℕ_discrete r.request_id e.by_request_id;
    } in
      (forget e key r.request_id ≡ ok rest) × Consistent rest
unfolding forget delete
forget_ok e key r c h =
    let there : lookup ℕ_discrete r.request_id e.by_request_id ≡ some key =
      rw c.mirrored (lookup-id_entries e.pending key r c.distinct h) in
    let both : id_entries (erase key_discrete key e.pending)
        ≡ erase ℕ_discrete r.request_id (id_entries e.pending) =
      id_entries-erase e.pending key r c.distinct h in
    (
      rw (h, there) refl,
      record {
        mirrored = rw (c.mirrored, both) refl;
        owned = erase-Owned e.pending key c.owned;
        distinct =
            rw both (erase-Distinct ℕ_discrete r.request_id (id_entries e.pending) c.distinct);
        unique = erase-Distinct key_discrete key e.pending c.unique;
      },
    )

-- `find_match` finds an entry as the dictionary holds it.
pub find_match-lookup :
    (opcode source sequence : ℕ) (items : Items) (key : CorrelationKey) (r : CommandRequest)
    → find_match opcode source sequence items ≡ some (key, r)
    → (lookup key_discrete key items ≡ some r) × (matches opcode source sequence key ≡ true)
unfolding find_match lookup
find_match-lookup opcode source sequence [] key r h = cc
find_match-lookup opcode source sequence ((k, s) ∷ items) key r h =
    ground (arith, find_match-lookup opcode source sequence items key r)

matches-awaits :
    (opcode source sequence : ℕ) (key : CorrelationKey) (r : CommandRequest)
    → key ≡ key_of r key.sequence
    → matches opcode source sequence key ≡ awaits opcode source sequence r key.sequence
unfolding matches awaits key_of
matches-awaits opcode source sequence key r e =
    rw (ap (λ (k : CorrelationKey). k.opcode) e, ap (λ (k : CorrelationKey). k.destination) e) refl

pub found-view :
    (opcode source sequence : ℕ) (items : Items) (key : CorrelationKey) (r : CommandRequest)
    → Owned items
    → find_match opcode source sequence items ≡ some (key, r)
    → (first_awaiting opcode source sequence (view items) ≡ some r)
      × (without_first opcode source sequence (view items) ≡ view (erase key_discrete key items))
unfolding find_match erase
found-view opcode source sequence [] key r o h = cc
found-view opcode source sequence ((k, s) ∷ items) key r (e, o) h =
    elim (Bool-cases (matches opcode source sequence k)) [
      | inl hit ↦ ground (arith, matches-awaits opcode source sequence k s e)
      | inr miss ↦
          let deeper : find_match opcode source sequence items ≡ some (key, r) = ground arith in
          ground (
            arith,
            matches-awaits opcode source sequence k s e,
            (find_match-lookup opcode source sequence items key r deeper).1,
            found-view opcode source sequence items key r o deeper,
          )
    ]

pub missed-view :
    (opcode source sequence : ℕ) (items : Items)
    → Owned items
    → find_match opcode source sequence items ≡ none
    → (first_awaiting opcode source sequence (view items) ≡ none)
      × (without_first opcode source sequence (view items) ≡ view items)
unfolding find_match
missed-view opcode source sequence [] o h = (refl, refl)
missed-view opcode source sequence ((k, s) ∷ items) (e, o) h =
    ground (
      arith,
      matches-awaits opcode source sequence k s e,
      missed-view opcode source sequence items o,
    )

-- The identifiers of the specification are those of the second dictionary.
pub is_known-lookup :
    (id : ℕ) (items : Items)
    → is_known id (view items) ≡ is_some (lookup ℕ_discrete id (id_entries items))
unfolding lookup
is_known-lookup id [] = refl
is_known-lookup id ((k, r) ∷ items) = ground (arith, is_known-lookup id items)

pub without_id-view :
    (id : ℕ) (items : Items) (key : CorrelationKey)
    → Distinct key_discrete items
    → lookup ℕ_discrete id (id_entries items) ≡ some key
    → (r : CommandRequest) → lookup key_discrete key items ≡ some r
    → r.request_id ≡ id
    → Distinct ℕ_discrete (id_entries items)
    → without_id id (view items) ≡ view (erase key_discrete key items)
unfolding lookup erase
without_id-view id [] key u h r f n d = cc
without_id-view id ((k, s) ∷ items) key (_, u) h r f n (fresh, d) =
    elim (ℕ_discrete s.request_id id) [
      | yes same ↦ ground arith
      | no other ↦
          ground (arith, without_id-view id items key u (ground arith) r (ground arith) n d)
    ]

pub without_id-none :
    (id : ℕ) (items : Items)
    → lookup ℕ_discrete id (id_entries items) ≡ none
    → without_id id (view items) ≡ view items
unfolding lookup
without_id-none id [] h = refl
without_id-none id ((k, s) ∷ items) h = ground (arith, without_id-none id items)
