-- ===== src/Integration/Coordinator/Listeners.antt =====
-- `coordinator.py`: `_notify_listeners` over any number of updates.
use tuya_ble_mesh.Prelude.{ℕ, ◌+◌, ◌≡◌, ◌≢◌, refl, sym, ap, ap₂, arith}
use tuya_ble_mesh.Prelude.{Bool, true, false, ◌||◌, List, [], ◌∷◌}
use tuya_ble_mesh.Prelude.{if◌then◌else◌, if-cases, ◌==◌, leb, ◌∙◌}
use tuya_ble_mesh.Prelude.{some}
use native.Mathlib.Decide.{ℕ_discrete}
use mathlib.Core.Logic.{if_neg}
use tuya_ble_mesh.Prelude.Dict.{
  lookup, insert, erase, Distinct, lookup-insert, lookup-insert_self, insert-Distinct,
  erase-Distinct, lookup-erase_ne, lookup-erase_self,
}
use tuya_ble_mesh.Integration.Coordinator.{
  Coordinator, remove_listener, unregister, error_count, note_listener_error, call_listener,
}

-- Whether a listener is registered.
unfoldable pub is_listed : ℕ → List ℕ → Bool
is_listed l [] = false
is_listed l (k ∷ ks) = l == k || is_listed l ks

-- No listener is registered twice.
unfoldable pub Once : List ℕ → Type 0
unfolding is_listed
Once [] = Unit
Once (k ∷ ks) = (is_listed k ks ≡ false) × Once ks

is_listed-remove_listener_ne :
    (l k : ℕ) (ks : List ℕ) → l ≢ k → is_listed l (remove_listener k ks) ≡ is_listed l ks
unfolding is_listed remove_listener
is_listed-remove_listener_ne l k [] h = refl
is_listed-remove_listener_ne l k (j ∷ ks) h = ground (arith, is_listed-remove_listener_ne l k ks h)

is_listed-remove_listener_self :
    (l : ℕ) (ks : List ℕ) → Once ks → is_listed l (remove_listener l ks) ≡ false
unfolding is_listed remove_listener Once
is_listed-remove_listener_self l [] h = refl
is_listed-remove_listener_self l (j ∷ ks) (fresh, h) =
    ground (arith, is_listed-remove_listener_self l ks h)

is_listed-remove_listener_less :
    (l k : ℕ) (ks : List ℕ) → is_listed l ks ≡ false → is_listed l (remove_listener k ks) ≡ false
unfolding is_listed remove_listener
is_listed-remove_listener_less l k [] h = refl
is_listed-remove_listener_less l k (j ∷ ks) h =
    ground (arith, is_listed-remove_listener_less l k ks)

pub remove_listener-Once : (k : ℕ) (ks : List ℕ) → Once ks → Once (remove_listener k ks)
unfolding Once remove_listener
remove_listener-Once k [] h = tt
remove_listener-Once k (j ∷ ks) (fresh, h) =
    if-cases Once (j == k) ks (j ∷ remove_listener k ks) (λ _. h)
      (λ _. (is_listed-remove_listener_less j k ks fresh, remove_listener-Once k ks h))

-- No listener and no counter stands twice.
unfoldable pub Sound : Coordinator → Type 0
unfolding Once
Sound c = Once c.standalone_listeners × Distinct ℕ_discrete c.listener_error_counts

-- How a listener stands: whether it is registered, and the number of its errors in a row.
unfoldable pub standing : ℕ → Coordinator → Bool × ℕ
unfolding is_listed error_count
standing l c = (is_listed l c.standalone_listeners, error_count l c.listener_error_counts)

pub call_listener-Sound :
    (raises : ℕ → Bool) (k : ℕ) (c : Coordinator) → Sound c → Sound (call_listener raises k c)
unfolding Sound call_listener note_listener_error unregister
call_listener-Sound raises k c (once, distinct) =
    let count = error_count k c.listener_error_counts + 1 in
    let inserted = insert-Distinct ℕ_discrete k count c.listener_error_counts distinct in
    if-cases Sound (raises k) _ _
      (λ _.
        if-cases Sound (leb 3 count) _ _
          (λ _. (
            remove_listener-Once k c.standalone_listeners once,
            erase-Distinct ℕ_discrete k _ inserted,
          ))
          (λ _. (once, inserted)))
      (λ _. (once, erase-Distinct ℕ_discrete k c.listener_error_counts distinct))

pub same_pair : {a b : Bool} {m n : ℕ} → a ≡ b → m ≡ n → ◌≡◌ {A = Bool × ℕ} (a, m) (b, n)
same_pair h k = ap₂ (λ a n. (a, n)) h k

standing-if :
    (l : ℕ) (b : Bool) (c d : Coordinator) (u v : Bool × ℕ)
    → standing l c ≡ u
    → standing l d ≡ v
    → standing l (if b then c else d) ≡ (if b then u else v)
standing-if l true c d u v h k = h
standing-if l false c d u v h k = k

error_count-insert_ne :
    (l k n : ℕ) (d : List (ℕ × ℕ))
    → l ≢ k
    → error_count l (insert ℕ_discrete k n d) ≡ error_count l d
unfolding error_count
error_count-insert_ne l k n d h =
    rw
      (
        error_count,
        lookup-insert ℕ_discrete k l n d,
        if_neg (ℕ_discrete k l) (λ e. h (sym e)) (some n) (lookup ℕ_discrete l d),
      )
      refl

error_count-insert_self : (l n : ℕ) (d : List (ℕ × ℕ)) → error_count l (insert ℕ_discrete l n d) ≡ n
unfolding error_count
error_count-insert_self l n d = rw (error_count, lookup-insert_self ℕ_discrete l n d) refl

error_count-erase_ne :
    (l k : ℕ) (d : List (ℕ × ℕ)) → l ≢ k → error_count l (erase ℕ_discrete k d) ≡ error_count l d
unfolding error_count
error_count-erase_ne l k d h =
    rw (error_count, lookup-erase_ne ℕ_discrete k l d (λ e. h (sym e))) refl

error_count-erase_self :
    (l : ℕ) (d : List (ℕ × ℕ)) → Distinct ℕ_discrete d → error_count l (erase ℕ_discrete l d) ≡ 0
unfolding error_count
error_count-erase_self l d h = rw (error_count, lookup-erase_self ℕ_discrete l d h) refl

-- The call of another listener.
pub call_listener-standing_ne :
    (raises : ℕ → Bool) (l k : ℕ) (c : Coordinator)
    → l ≢ k
    → standing l (call_listener raises k c) ≡ standing l c
unfolding standing call_listener note_listener_error unregister
call_listener-standing_ne raises l k c h =
    let d = c.listener_error_counts in
    let count = error_count k d + 1 in
    let inserted = error_count-insert_ne l k count d h in
    if-cases {A = Coordinator} (λ x. standing l x ≡ standing l c) (raises k) _ _
      (λ _.
        if-cases {A = Coordinator} (λ x. standing l x ≡ standing l c) (leb 3 count) _ _
          (λ _.
            same_pair (is_listed-remove_listener_ne l k c.standalone_listeners h)
              (error_count-erase_ne l k (insert ℕ_discrete k count d) h ∙ inserted))
          (λ _. same_pair refl inserted))
      (λ _. same_pair refl (error_count-erase_ne l k d h))

-- The call of a registered listener itself.
unfoldable pub called : Bool → ℕ → Bool × ℕ
called raised n =
    if raised then (if leb 3 (n + 1) then (false, 0) else (true, n + 1)) else (true, 0)

call_listener-standing_self :
    (raises : ℕ → Bool) (l : ℕ) (c : Coordinator)
    → Sound c
    → is_listed l c.standalone_listeners ≡ true
    → standing l (call_listener raises l c)
      ≡ called (raises l) (error_count l c.listener_error_counts)
unfolding standing call_listener note_listener_error unregister called Sound
call_listener-standing_self raises l c (once, distinct) h =
    let d = c.listener_error_counts in
    let count = error_count l d + 1 in
    standing-if l (raises l) _ _ _ _
      (standing-if l (leb 3 count) _ _ _ _
        (same_pair (is_listed-remove_listener_self l c.standalone_listeners once)
          (error_count-erase_self l _ (insert-Distinct ℕ_discrete l count d distinct)))
        (same_pair h (error_count-insert_self l count d)))
      (same_pair h (error_count-erase_self l d distinct))

-- The same, for what is known of its standing.
pub call_listener-standing :
    (raises : ℕ → Bool) (l n : ℕ) (c : Coordinator)
    → Sound c
    → standing l c ≡ (true, n)
    → standing l (call_listener raises l c) ≡ called (raises l) n
unfolding standing
call_listener-standing raises l n c sound now =
    call_listener-standing_self raises l c sound (ap (λ s. s.0) now)
    ∙ ap (called (raises l)) (ap (λ s. s.1) now)
