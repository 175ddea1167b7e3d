-- ===== src/Prelude/Subsequence.antt =====
-- A list whose members are members of another, in the same order.
use mathlib.Core.List.{List, [], ◌∷◌, ◌++◌}

-- The members of the first list are members of the second, in the same order.
pub data Subsequence {ℓ} {A : Type ℓ} : List A → List A → Type ℓ where
  done : Subsequence [] []
  keep : {x : A} {xs ys : List A} → Subsequence xs ys → Subsequence (x ∷ xs) (x ∷ ys)
  skip : {y : A} {xs ys : List A} → Subsequence xs ys → Subsequence xs (y ∷ ys)

pub Subsequence-append {ℓ} :
    {A : Type ℓ} {xs ys : List A} (x : A)
    → Subsequence xs ys
    → Subsequence (xs ++ (x ∷ [])) (ys ++ (x ∷ []))
Subsequence-append x done = keep done
Subsequence-append x (keep s) = keep (Subsequence-append x s)
Subsequence-append x (skip s) = skip (Subsequence-append x s)

Subsequence-refl {ℓ} : {A : Type ℓ} (xs : List A) → Subsequence xs xs
Subsequence-refl [] = done
Subsequence-refl (x ∷ xs) = keep (Subsequence-refl xs)

pub Subsequence-trans {ℓ} :
    {A : Type ℓ} {xs ys zs : List A} → Subsequence xs ys → Subsequence ys zs → Subsequence xs zs
Subsequence-trans s (skip t) = skip (Subsequence-trans s t)
Subsequence-trans (skip s) (keep t) = skip (Subsequence-trans s t)
Subsequence-trans (keep s) (keep t) = keep (Subsequence-trans s t)
Subsequence-trans done done = done

pub Subsequence-empty {ℓ} : {A : Type ℓ} (xs : List A) → Subsequence [] xs
Subsequence-empty [] = done
Subsequence-empty (x ∷ xs) = skip (Subsequence-empty xs)

pub Subsequence-after {ℓ} :
    {A : Type ℓ} (xs : List A) {ys zs : List A}
    → Subsequence ys zs
    → Subsequence (xs ++ ys) (xs ++ zs)
Subsequence-after [] s = s
Subsequence-after (x ∷ xs) s = keep (Subsequence-after xs s)

pub Subsequence-behind {ℓ} : {A : Type ℓ} (xs ys : List A) → Subsequence ys (xs ++ ys)
Subsequence-behind [] ys = Subsequence-refl ys
Subsequence-behind (x ∷ xs) ys = skip (Subsequence-behind xs ys)
