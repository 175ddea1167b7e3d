-- ===== src/Requests/Correlation/Expiry.antt =====
-- `expire_stale`: the loop over the snapshot, by what it has kept of the entries before.
use tuya_ble_mesh.Prelude.{ℕ, ◌≡◌, refl, sym, ap, ◌∙◌, true, false, [], ◌∷◌, ◌++◌}
use tuya_ble_mesh.Prelude.{leb, ok, Bool-cases, inl, inr, append_assoc, subst}
use tuya_ble_mesh.Prelude.Dict.{erase, Distinct, lookup-middle, erase-middle}
use tuya_ble_mesh.Requests.Request.{CommandRequest}
use tuya_ble_mesh.Requests.Correlation.{
  CorrelationKey, CorrelationEngine, key_discrete, expire_loop,
}
use tuya_ble_mesh.Requests.Correlation.Entries.{Items, Consistent}
use tuya_ble_mesh.Requests.Correlation.Outstanding.{live, stale}
use tuya_ble_mesh.Requests.Correlation.View.{view, forget_ok}

pub view-append : (a b : Items) → view (a ++ b) ≡ view a ++ view b
view-append [] b = refl
view-append ((k, r) ∷ a) b = ap (◌∷◌ (r, k.sequence)) (view-append a b)

-- What expiry leaves, and what it returns.
abbrev pub Expires : ℕ → Items → Items → CorrelationEngine → Type 0
Expires now kept todo e =
    (final : CorrelationEngine) × (expire_loop now todo e ≡ ok (final, stale now (view todo)))
    × Consistent final
    × (view final.pending ≡ view kept ++ live now (view todo))

drop_one :
    (now : ℕ) (kept todo : Items) (k : CorrelationKey) (r : CommandRequest) (e : CorrelationEngine)
    → Consistent e
    → e.pending ≡ kept ++ ((k, r) ∷ todo)
    → leb r.deadline now ≡ true
    → ((rest : CorrelationEngine)
        → Consistent rest
        → rest.pending ≡ kept ++ todo
        → Expires now kept todo rest)
    → Expires now kept ((k, r) ∷ todo) e
unfolding expire_loop
drop_one now kept todo k r e c h old next =
    let unique : Distinct key_discrete (kept ++ ((k, r) ∷ todo)) =
      subst (Distinct key_discrete) h c.unique in
    let (gone, stays) =
      forget_ok e k r c (rw h (lookup-middle key_discrete k r kept todo unique)) in
    let left : erase key_discrete k e.pending ≡ kept ++ todo =
      rw h (erase-middle key_discrete k r kept todo unique) in
    let (final, runs, good, shows) = next _ stays left in
    (final, rw (old, gone, runs) refl, good, rw old shows)

keep_one :
    (now : ℕ) (kept todo : Items) (k : CorrelationKey) (r : CommandRequest) (e : CorrelationEngine)
    → leb r.deadline now ≡ false
    → Expires now (kept ++ ((k, r) ∷ [])) todo e
    → Expires now kept ((k, r) ∷ todo) e
unfolding expire_loop
keep_one now kept todo k r e young (final, runs, good, shows) = (
  final,
  rw (young, runs) refl,
  good,
  rw
      (
        young,
        shows,
        view-append kept ((k, r) ∷ []),
        append_assoc (view kept) ((r, k.sequence) ∷ []) (live now (view todo)),
      )
      refl,
)

pub expire_loop-Expires :
    (now : ℕ) (todo kept : Items) (e : CorrelationEngine)
    → Consistent e
    → e.pending ≡ kept ++ todo
    → Expires now kept todo e
unfolding expire_loop
expire_loop-Expires now [] kept e c h = (e, refl, c, rw (h, view-append kept []) refl)
expire_loop-Expires now ((k, r) ∷ todo) kept e c h = elim (Bool-cases (leb r.deadline now)) [
  | inl old ↦ drop_one now kept todo k r e c h old (expire_loop-Expires now todo kept)
  | inr young ↦ keep_one now kept todo k r e young (
      expire_loop-Expires now todo (kept ++ ((k, r) ∷ [])) e c
        (h ∙ sym (append_assoc kept ((k, r) ∷ []) todo)))
]
