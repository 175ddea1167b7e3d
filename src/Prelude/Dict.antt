-- ===== src/Prelude/Dict.antt =====
-- A Python `dict`: its entries in order of insertion, a key being overwritten in place.
use mathlib.Core.Path.{◌≡◌, refl, sym, subst}
use mathlib.Core.Logic.{◌≢◌, ite, if_pos}
use mathlib.Core.List.{List, [], ◌∷◌, ◌++◌}
use mathlib.Core.Option.{Option, none, some, some-injective}
use native.Mathlib.Omega.{arith}

module _ {ℓ} {K V : Type ℓ} (dec : Discrete K) where
  -- `d.get(key)`
  unfoldable pub lookup : K → List (K × V) → Option V
  lookup k [] = none
  lookup k ((j, v) ∷ d) = ite (dec j k) (some v) (lookup k d)

  -- `d[key] = value`
  unfoldable pub insert : K → V → List (K × V) → List (K × V)
  insert k v [] = (k, v) ∷ []
  insert k v ((j, w) ∷ d) = ite (dec j k) ((j, v) ∷ d) ((j, w) ∷ insert k v d)

  -- `del d[key]`, and `d.pop(key, None)` without its result
  unfoldable pub erase : K → List (K × V) → List (K × V)
  erase k [] = []
  erase k ((j, w) ∷ d) = ite (dec j k) d ((j, w) ∷ erase k d)

  -- No key stands twice.
  abbrev pub Distinct : List (K × V) → Type ℓ
  Distinct [] = Unit {ℓ}
  Distinct ((k, v) ∷ d) = (lookup k d ≡ none) × Distinct d

  pub lookup-insert :
      (k j : K) (v : V) (d : List (K × V))
      → lookup j (insert k v d) ≡ ite (dec k j) (some v) (lookup j d)
  unfolding lookup insert
  lookup-insert k j v [] = refl
  lookup-insert k j v ((i, w) ∷ d) = ground (arith, lookup-insert k j v d)

  pub lookup-insert_self : (k : K) (v : V) (d : List (K × V)) → lookup k (insert k v d) ≡ some v
  lookup-insert_self k v d = rw lookup-insert (if_pos (dec k k) refl _ _)

  pub insert-Distinct : (k : K) (v : V) (d : List (K × V)) → Distinct d → Distinct (insert k v d)
  unfolding lookup insert
  insert-Distinct k v [] h = (refl, tt)
  insert-Distinct k v ((i, w) ∷ d) (fresh, h) =
      ground (arith, lookup-insert k i v d, insert-Distinct k v d h)

  pub lookup-erase_ne : (k j : K) (d : List (K × V)) → k ≢ j → lookup j (erase k d) ≡ lookup j d
  unfolding lookup erase
  lookup-erase_ne k j [] h = refl
  lookup-erase_ne k j ((i, w) ∷ d) h = ground (arith, lookup-erase_ne k j d h)

  pub lookup-erase_self : (k : K) (d : List (K × V)) → Distinct d → lookup k (erase k d) ≡ none
  unfolding lookup erase
  lookup-erase_self k [] h = refl
  lookup-erase_self k ((i, w) ∷ d) (fresh, h) = ground (arith, lookup-erase_self k d h)

  pub erase-Distinct : (k : K) (d : List (K × V)) → Distinct d → Distinct (erase k d)
  unfolding lookup erase
  erase-Distinct k [] h = tt
  erase-Distinct k ((i, w) ∷ d) (fresh, h) =
      ground (arith, lookup-erase_ne k i d, erase-Distinct k d h)

  -- A new key goes to the end.
  pub insert_fresh :
      (k : K) (v : V) (d : List (K × V)) → lookup k d ≡ none → insert k v d ≡ d ++ ((k, v) ∷ [])
  unfolding lookup insert
  insert_fresh k v [] h = refl
  insert_fresh k v ((i, w) ∷ d) h = ground (arith, insert_fresh k v d)

  -- An entry in the middle, where no key stands twice.
  pub lookup-middle :
      (k : K) (v : V) (d e : List (K × V))
      → Distinct (d ++ ((k, v) ∷ e))
      → lookup k (d ++ ((k, v) ∷ e)) ≡ some v
  unfolding lookup
  lookup-middle k v [] e h = if_pos (dec k k) refl _ _
  lookup-middle k v ((i, w) ∷ d) e (fresh, h) = ground (arith, lookup-middle k v d e h)

  pub erase-middle :
      (k : K) (v : V) (d e : List (K × V))
      → Distinct (d ++ ((k, v) ∷ e))
      → erase k (d ++ ((k, v) ∷ e)) ≡ d ++ e
  unfolding lookup erase
  erase-middle k v [] e h = if_pos (dec k k) refl _ _
  erase-middle k v ((i, w) ∷ d) e (fresh, h) =
      ground (arith, lookup-middle k v d e h, erase-middle k v d e h)

  -- A property of every entry.
  abbrev pub AllEntries {κ} : (K → V → Type κ) → List (K × V) → Type κ
  AllEntries P [] = Unit {κ}
  AllEntries P ((k, v) ∷ d) = P k v × AllEntries P d

  pub lookup-AllEntries {κ} :
      (P : K → V → Type κ) (k : K) (v : V) (d : List (K × V))
      → AllEntries P d
      → lookup k d ≡ some v
      → P k v
  unfolding lookup
  lookup-AllEntries P k v [] h e = ground (arith, e)
  lookup-AllEntries P k v ((j, w) ∷ d) (here, h) e =
      elim (dec j k) as (λ x. ite x (some w) (lookup k d) ≡ some v → P k v) [
        | yes same ↦ λ e. subst (λ i. P i v) same (subst (P j) (some-injective w v e) here)
        | no other ↦ λ e. lookup-AllEntries P k v d h e
      ]
        e

  pub insert-AllEntries {κ} :
      (P : K → V → Type κ) (k : K) (v : V) (d : List (K × V))
      → AllEntries P d
      → P k v
      → AllEntries P (insert k v d)
  unfolding insert
  insert-AllEntries P k v [] h p = (p, tt)
  insert-AllEntries P k v ((j, w) ∷ d) (here, h) p =
      elim (dec j k) as (λ x. AllEntries P (ite x ((j, v) ∷ d) ((j, w) ∷ insert k v d))) [
        | yes same ↦ (subst (λ i. P i v) (sym same) p, h)
        | no other ↦ (here, insert-AllEntries P k v d h p)
      ]

  pub erase-AllEntries {κ} :
      (P : K → V → Type κ) (k : K) (d : List (K × V)) → AllEntries P d → AllEntries P (erase k d)
  unfolding erase
  erase-AllEntries P k [] h = tt
  erase-AllEntries P k ((j, w) ∷ d) (here, h) =
      elim (dec j k) as (λ x. AllEntries P (ite x d ((j, w) ∷ erase k d))) [
        | yes same ↦ h
        | no other ↦ (here, erase-AllEntries P k d h)
      ]

  pub erase-insert : (k : K) (v : V) (d : List (K × V)) → erase k (insert k v d) ≡ erase k d
  unfolding insert erase
  erase-insert k v [] = if_pos (dec k k) refl _ _
  erase-insert k v ((j, w) ∷ d) = ground (arith, erase-insert k v d)
