-- ===== src/Requests/Correlation/Refinement.antt =====
-- Each call on the engine does to the outstanding requests what the specification says.
use tuya_ble_mesh.Prelude.{ℕ, ◌≡◌, refl, sym, ap, ◌∙◌, Option, none, some, List, [], ◌∷◌, ◌++◌}
use tuya_ble_mesh.Prelude.{Result, ok, err, Option-cases, inl, inr, is_some, subst}
use tuya_ble_mesh.Prelude.Dict.{lookup, insert, Distinct, insert_fresh, insert-Distinct}
use tuya_ble_mesh.Requests.Request.{CommandRequest}
use tuya_ble_mesh.Requests.Correlation.{
  CorrelationKey, CorrelationEngine, key_of, key_discrete, empty_engine,
}
use tuya_ble_mesh.Requests.Correlation.{
  register, match_response, take_match, find_match, cancel, cancel_key, expire_stale,
}
use tuya_ble_mesh.Requests.Correlation.Entries.{
  Items, id_entries, Owned, Consistent, lookup-id_entries, lookup_of_id, key_of_id, Owned-lookup,
}
use tuya_ble_mesh.Requests.Correlation.Outstanding.{
  Outstanding, is_known, Call, registers, responds, cancels, expires, clears, Reply, spec_step,
  step,
}
use tuya_ble_mesh.Requests.Correlation.View.{
  view, forget_ok, find_match-lookup, found-view, missed-view,
}
use tuya_ble_mesh.Requests.Correlation.View.{is_known-lookup, without_id-view, without_id-none}
use tuya_ble_mesh.Requests.Correlation.Expiry.{view-append, expire_loop-Expires}
use native.Mathlib.Decide.{ℕ_discrete}

-- The specification and the engine end alike: with one exception, or with the same reply and an
-- engine whose dictionaries agree and that shows the outstanding requests of the specification.
abbrev pub Alike : Result (Outstanding × Reply) → Result (CorrelationEngine × Reply) → Type 0
Alike (ok (out, a)) (ok (engine, b)) = Consistent engine × (view engine.pending ≡ out) × (a ≡ b)
Alike (err x) (err y) = x ≡ y
Alike (ok x) (err y) = ⊥
Alike (err x) (ok y) = ⊥

id_entries-append : (a b : Items) → id_entries (a ++ b) ≡ id_entries a ++ id_entries b
id_entries-append [] b = refl
id_entries-append ((k, r) ∷ a) b = ap (◌∷◌ (r.request_id, k)) (id_entries-append a b)

Owned-append : (a b : Items) → Owned a → Owned b → Owned (a ++ b)
Owned-append [] b ha hb = hb
Owned-append ((k, r) ∷ a) b (h, ha) hb = (h, Owned-append a b ha hb)

own : (r : CommandRequest) (s : ℕ) → key_of r s ≡ key_of r (key_of r s).sequence
unfolding key_of
own r s = refl

last_view :
    (e : CorrelationEngine) (r : CommandRequest) (s : ℕ)
    → view e.pending ++ view ((key_of r s, r) ∷ []) ≡ view e.pending ++ ((r, s) ∷ [])
unfolding key_of
last_view e r s = refl

-- An identifier that is free in the second dictionary leaves its key free in the first.
fresh_key :
    (e : CorrelationEngine) (r : CommandRequest) (s : ℕ)
    → Consistent e
    → lookup ℕ_discrete r.request_id e.by_request_id ≡ none
    → lookup key_discrete (key_of r s) e.pending ≡ none
unfolding key_of
fresh_key e r s c h = elim (Option-cases (lookup key_discrete (key_of r s) e.pending)) [
  | inl free ↦ free
  | inr (other, taken) ↦
      let same =
        key_of_id (key_of r s) other (Owned-lookup e.pending (key_of r s) other c.owned taken) in
      cc (
        h,
        c.mirrored,
        same,
        lookup-id_entries e.pending (key_of r s) other c.distinct taken,
        ap (λ (id : ℕ). lookup ℕ_discrete id (id_entries e.pending)) same,
      )
]

-- The engine with one entry more at the end of both dictionaries.
extended :
    (e : CorrelationEngine) (r : CommandRequest) (s : ℕ)
    → Consistent e
    → lookup ℕ_discrete r.request_id e.by_request_id ≡ none
    → Consistent (record {
      pending = insert key_discrete (key_of r s) r e.pending;
      by_request_id = insert ℕ_discrete r.request_id (key_of r s) e.by_request_id;
    })
extended e r s c free =
    let at_end : insert key_discrete (key_of r s) r e.pending
        ≡ e.pending ++ ((key_of r s, r) ∷ []) =
      insert_fresh key_discrete (key_of r s) r e.pending (fresh_key e r s c free) in
    let mirror : insert ℕ_discrete r.request_id (key_of r s) e.by_request_id
        ≡ id_entries (insert key_discrete (key_of r s) r e.pending) =
      insert_fresh ℕ_discrete r.request_id (key_of r s) e.by_request_id free
      ∙ ap (◌++ ((r.request_id, key_of r s) ∷ [])) c.mirrored
      ∙ sym (ap id_entries at_end ∙ id_entries-append e.pending ((key_of r s, r) ∷ [])) in
    record {
      mirrored = mirror;
      owned =
          subst Owned (sym at_end)
            (Owned-append e.pending ((key_of r s, r) ∷ []) c.owned (own r s, tt));
      distinct = subst (Distinct ℕ_discrete) mirror (
          insert-Distinct ℕ_discrete r.request_id (key_of r s) e.by_request_id
            (subst (Distinct ℕ_discrete) (sym c.mirrored) c.distinct));
      unique = insert-Distinct key_discrete (key_of r s) r e.pending c.unique;
    }

registers-Alike :
    (e : CorrelationEngine) (r : CommandRequest) (s : ℕ)
    → Consistent e
    → Alike (spec_step (view e.pending) (registers r s)) (step e (registers r s))
unfolding spec_step step register
registers-Alike e r s c =
    let known : is_known r.request_id (view e.pending)
        ≡ is_some (lookup ℕ_discrete r.request_id e.by_request_id) =
      is_known-lookup r.request_id e.pending
      ∙ ap (λ (d : List (ℕ × CorrelationKey)). is_some (lookup ℕ_discrete r.request_id d))
          (sym c.mirrored) in
    elim (Option-cases (lookup ℕ_discrete r.request_id e.by_request_id)) [
      | inl free ↦
          let at_end : insert key_discrete (key_of r s) r e.pending
              ≡ e.pending ++ ((key_of r s, r) ∷ []) =
            insert_fresh key_discrete (key_of r s) r e.pending (fresh_key e r s c free) in
          rw (known, free)
            (
              extended e r s c free,
              ap view at_end ∙ view-append e.pending ((key_of r s, r) ∷ []) ∙ last_view e r s,
              refl,
            )
      | inr (key, taken) ↦ rw (known, taken) refl
    ]

responds-Alike :
    (e : CorrelationEngine) (opcode source sequence : ℕ)
    → Consistent e
    → Alike
        (spec_step (view e.pending) (responds opcode source sequence))
        (step e (responds opcode source sequence))
unfolding spec_step step match_response take_match
responds-Alike e opcode source sequence c =
    elim (Option-cases (find_match opcode source sequence e.pending)) [
      | inl missed ↦
          let (a, b) = missed-view opcode source sequence e.pending c.owned missed in
          rw (missed, a, b) (c, refl, refl)
      | inr ((key, r), found) ↦
          let (a, b) = found-view opcode source sequence e.pending key r c.owned found in
          let (there, _) = find_match-lookup opcode source sequence e.pending key r found in
          let (gone, stays) = forget_ok e key r c there in
          rw (found, a, b, gone) (stays, refl, refl)
    ]

abbrev IdIs : ℕ → Option CorrelationKey → List (ℕ × CorrelationKey) → Type 0
IdIs id key d = lookup ℕ_discrete id d ≡ key

cancels-Alike :
    (e : CorrelationEngine) (id : ℕ)
    → Consistent e
    → Alike (spec_step (view e.pending) (cancels id)) (step e (cancels id))
unfolding spec_step step cancel cancel_key
cancels-Alike e id c = elim (Option-cases (lookup ℕ_discrete id e.by_request_id)) [
  | inl free ↦
      let free' : lookup ℕ_discrete id (id_entries e.pending) ≡ none =
        subst (IdIs id none) c.mirrored free in
      rw (free, is_known-lookup id e.pending, free', without_id-none id e.pending free')
        (c, refl, refl)
  | inr (key, taken) ↦
      let taken' : lookup ℕ_discrete id (id_entries e.pending) ≡ some key =
        subst (IdIs id (some key)) c.mirrored taken in
      let (r, there, named, _) = lookup_of_id e.pending id key c.owned c.distinct taken' in
      let (gone, stays) = forget_ok e key r c there in
      rw
        (
          taken,
          is_known-lookup id e.pending,
          taken',
          without_id-view id e.pending key c.unique taken' r there named c.distinct,
          ← named,
          gone,
        )
        (stays, refl, refl)
]

expires-Alike :
    (e : CorrelationEngine) (now : ℕ)
    → Consistent e
    → Alike (spec_step (view e.pending) (expires now)) (step e (expires now))
unfolding spec_step step expire_stale
expires-Alike e now c =
    let (final, runs, good, shows) = expire_loop-Expires now e.pending [] e c refl in
    rw runs (good, shows, refl)

-- From an engine whose two dictionaries agree, every call (register, match_response, cancel,
-- expire_stale, clear) replies as the list of outstanding requests prescribes, with a
-- CorrelationConflictError exactly where the identifier is known and never a KeyError; the
-- dictionaries agree afterwards and show the list that the specification leaves.
pub step-Alike :
    (e : CorrelationEngine) (call : Call)
    → Consistent e
    → Alike (spec_step (view e.pending) call) (step e call)
unfolding spec_step step empty_engine
step-Alike e (registers r s) c = registers-Alike e r s c
step-Alike e (responds opcode source sequence) c = responds-Alike e opcode source sequence c
step-Alike e (cancels id) c = cancels-Alike e id c
step-Alike e (expires now) c = expires-Alike e now c
step-Alike e clears c =
    (record { mirrored = refl; owned = tt; distinct = tt; unique = tt }, refl, refl)
