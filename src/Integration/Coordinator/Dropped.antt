-- ===== src/Integration/Coordinator/Dropped.antt =====
-- `coordinator.py`: which listeners are dropped over any number of updates.
use tuya_ble_mesh.Prelude.{ℕ, zero, suc, ◌≤◌, ◌≡◌, ◌≢◌, refl, sym, subst, ap, ◌∙◌, arith}
use tuya_ble_mesh.Prelude.{Bool, true, false, not, ◌&&◌, List, [], ◌∷◌, ◌++◌, replicate}
use tuya_ble_mesh.Prelude.{eq_or_ne, inl, inr}
use tuya_ble_mesh.Integration.Coordinator.{
  Coordinator, error_count, call_listener, call_each, notify_listeners,
}
use tuya_ble_mesh.Integration.Coordinator.Listeners.{
  is_listed, Once, Sound, standing, called, call_listener-Sound, call_listener-standing_ne,
  call_listener-standing, same_pair,
}

-- The updates, each with the listeners that raise at it, told one after another.
unfoldable pub notify_all : List (ℕ → Bool) → Coordinator → Coordinator
unfolding notify_listeners
notify_all [] c = c
notify_all (raises ∷ rest) c = notify_all rest (notify_listeners raises c)

-- What a listener did at each update: true where it raised.
unfoldable pub outcomes : ℕ → List (ℕ → Bool) → List Bool
outcomes l [] = []
outcomes l (raises ∷ rest) = raises l ∷ outcomes l rest

-- Three errors with no success between them.
unfoldable pub three_in_a_row : List Bool → Bool
three_in_a_row (true ∷ true ∷ true ∷ rest) = true
three_in_a_row (x ∷ rest) = three_in_a_row rest
three_in_a_row [] = false

call_each-Sound :
    (raises : ℕ → Bool) (ls : List ℕ) (c : Coordinator) → Sound c → Sound (call_each raises ls c)
unfolding call_each
call_each-Sound raises [] c h = h
call_each-Sound raises (l ∷ ls) c h =
    call_each-Sound raises ls (call_listener raises l c) (call_listener-Sound raises l c h)

listed_ne : (l k : ℕ) (ks : List ℕ) → is_listed l (k ∷ ks) ≡ false → l ≢ k
unfolding is_listed
listed_ne l k ks h = ground arith

listed_rest : (l k : ℕ) (ks : List ℕ) → is_listed l (k ∷ ks) ≡ false → is_listed l ks ≡ false
unfolding is_listed
listed_rest l k ks h = ground arith

-- The calls of other listeners.
call_each-standing_ne :
    (raises : ℕ → Bool) (l : ℕ) (ks : List ℕ) (c : Coordinator)
    → is_listed l ks ≡ false
    → standing l (call_each raises ks c) ≡ standing l c
unfolding call_each
call_each-standing_ne raises l [] c h = refl
call_each-standing_ne raises l (k ∷ ks) c h =
    call_each-standing_ne raises l ks (call_listener raises k c) (listed_rest l k ks h)
    ∙ call_listener-standing_ne raises l k c (listed_ne l k ks h)

listed_later : (l k : ℕ) (ks : List ℕ) → is_listed l (k ∷ ks) ≡ true → l ≢ k → is_listed l ks ≡ true
unfolding is_listed
listed_later l k ks h other = ground arith

-- A call of each of some listeners, a registered one among them.
call_each-standing :
    (raises : ℕ → Bool) (l n : ℕ) (ks : List ℕ) (c : Coordinator)
    → Once ks
    → is_listed l ks ≡ true
    → Sound c
    → standing l c ≡ (true, n)
    → standing l (call_each raises ks c) ≡ called (raises l) n
unfolding call_each Once is_listed
call_each-standing raises l n [] c once h sound now = absurd (ground arith)
call_each-standing raises l n (k ∷ ks) c (fresh, once) h sound now = elim (eq_or_ne l k) [
  | inl same ↦
      call_each-standing_ne raises l ks (call_listener raises k c)
        (subst (λ x. is_listed x ks ≡ false) (sym same) fresh)
      ∙ subst (λ x. standing l (call_listener raises x c) ≡ called (raises l) n) same
          (call_listener-standing raises l n c sound now)
  | inr other ↦
      call_each-standing raises l n ks (call_listener raises k c) once (listed_later l k ks h other)
        (call_listener-Sound raises k c sound) (call_listener-standing_ne raises l k c other ∙ now)
]

-- What the outcomes of its calls make of a listener.
unfoldable stands : List Bool → Bool × ℕ → Bool × ℕ
unfolding called
stands [] s = s
stands (raised ∷ rest) (true, n) = stands rest (called raised n)
stands (raised ∷ rest) (false, n) = stands rest (false, n)

notify-standing :
    (raises : ℕ → Bool) (l n : ℕ) (b : Bool) (c : Coordinator)
    → Sound c
    → standing l c ≡ (b, n)
    → standing l (notify_listeners raises c) ≡ stands (raises l ∷ []) (b, n)
unfolding notify_listeners stands Sound standing
notify-standing raises l n true c (once, distinct) now =
    call_each-standing raises l n c.standalone_listeners c once (ap (λ s. s.0) now) (once, distinct)
      now
notify-standing raises l n false c sound now =
    call_each-standing_ne raises l c.standalone_listeners c (ap (λ s. s.0) now) ∙ now

notify_all-standing :
    (updates : List (ℕ → Bool)) (l : ℕ) (c : Coordinator) (s : Bool × ℕ)
    → Sound c
    → standing l c ≡ s
    → standing l (notify_all updates c) ≡ stands (outcomes l updates) s
unfolding notify_all outcomes stands notify_listeners
notify_all-standing [] l c s sound now = now
notify_all-standing (raises ∷ updates) l c (true, n) sound now =
    notify_all-standing updates l (notify_listeners raises c) (called (raises l) n)
      (call_each-Sound raises c.standalone_listeners c sound)
      (notify-standing raises l n true c sound now)
notify_all-standing (raises ∷ updates) l c (false, n) sound now =
    notify_all-standing updates l (notify_listeners raises c) (false, n)
      (call_each-Sound raises c.standalone_listeners c sound)
      (notify-standing raises l n false c sound now)

stands_dropped : (outcomes : List Bool) (n : ℕ) → (stands outcomes (false, n)).0 ≡ false
unfolding stands
stands_dropped [] n = refl
stands_dropped (x ∷ outcomes) n = stands_dropped outcomes n

stands-three_in_a_row :
    (n : ℕ) (outcomes : List Bool)
    → n ≤ 2
    → (stands outcomes (true, n)).0 ≡ not (three_in_a_row (replicate n true ++ outcomes))
unfolding stands three_in_a_row called
stands-three_in_a_row zero [] h = refl
stands-three_in_a_row (suc zero) [] h = refl
stands-three_in_a_row (suc (suc zero)) [] h = refl
stands-three_in_a_row zero (true ∷ xs) h = stands-three_in_a_row 1 xs (omega arith)
stands-three_in_a_row (suc zero) (true ∷ xs) h = stands-three_in_a_row 2 xs (omega arith)
stands-three_in_a_row (suc (suc zero)) (true ∷ xs) h = stands_dropped xs 0
stands-three_in_a_row zero (false ∷ xs) h = stands-three_in_a_row 0 xs (omega arith)
stands-three_in_a_row (suc zero) (false ∷ xs) h = stands-three_in_a_row 0 xs (omega arith)
stands-three_in_a_row (suc (suc zero)) (false ∷ xs) h = stands-three_in_a_row 0 xs (omega arith)
stands-three_in_a_row (suc (suc (suc n))) xs h = absurd (omega arith)

after_all :
    (b : Bool) (outcomes : List Bool)
    → (stands outcomes (b, 0)).0 ≡ (b && not (three_in_a_row outcomes))
after_all true outcomes = stands-three_in_a_row 0 outcomes (omega arith)
after_all false outcomes = stands_dropped outcomes 0

-- After any number of updates a listener is registered exactly where it was before and has not
-- raised at three updates in a row. No listener is registered twice, no counter stands twice, and
-- the listener has no error counted before.
pub is_listed-notify_all :
    (updates : List (ℕ → Bool)) (l : ℕ) (c : Coordinator)
    → Sound c
    → error_count l c.listener_error_counts ≡ 0
    → is_listed l (notify_all updates c).standalone_listeners
      ≡ (is_listed l c.standalone_listeners && not (three_in_a_row (outcomes l updates)))
unfolding standing
is_listed-notify_all updates l c sound fresh =
    let b = is_listed l c.standalone_listeners in
    ap (λ s. s.0) (notify_all-standing updates l c (b, 0) sound (same_pair refl fresh))
    ∙ after_all b (outcomes l updates)
