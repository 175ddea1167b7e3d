-- ===== src/Integration/Polling/Slower.antt =====
-- `connection_manager.py`: how the polling interval develops.
use tuya_ble_mesh.Prelude.{ℕ, ◌≤◌, refl, sym, subst, arith}
use tuya_ble_mesh.Prelude.{Option, none, some, List, [], ◌∷◌, ◌++◌, ◌≡◌}
use tuya_ble_mesh.Prelude.Int.{ℤ}
use tuya_ble_mesh.Integration.Manager.{ConnectionManager}
use tuya_ble_mesh.Integration.Polling.{
  Polling, new_polling, next_interval, adjust_polling_interval, record_state_change,
  one_more_stable, track_stability, rssi_round,
}

-- What happens to the interval of a manager.
pub data Happening : Type 0 where
  state_change : Happening
  round_at : ℕ → Option ℤ → Happening

unfoldable pub happen : List Happening → ConnectionManager × Polling → ConnectionManager × Polling
unfolding rssi_round record_state_change
happen [] s = s
happen (state_change ∷ rest) (m, p) = happen rest (m, record_state_change p)
happen (round_at clock found ∷ rest) s = happen rest (rssi_round clock found s)

-- No change is waiting to be counted, and the interval is not over the longest one.
unfoldable pub Steady : Polling → Type 0
Steady p = (p.state_change_counter ≡ 0) × (60000 ≤ p.rssi_interval) × (p.rssi_interval ≤ 300000)

-- What a happening may do: the interval stays steady and gets no shorter.
unfoldable pub Slower : Polling → Polling → Type 0
unfolding Steady
Slower p q = Steady q × (p.rssi_interval ≤ q.rssi_interval)

pub record_state_change-Slower : (p : Polling) → Steady p → Slower p (record_state_change p)
unfolding Steady Slower record_state_change adjust_polling_interval next_interval
record_state_change-Slower p h = ground arith

one_more_stable-Slower : (p : Polling) → Steady p → Slower p (one_more_stable p)
unfolding Steady Slower one_more_stable adjust_polling_interval next_interval
one_more_stable-Slower p h = ground arith

track_stability-Slower :
    (rssi : ℤ) (previous : Option (ℕ × ℤ)) (p : Polling)
    → Steady p
    → Slower p (track_stability rssi previous p)
unfolding Steady Slower track_stability
track_stability-Slower rssi none p h = ground arith
track_stability-Slower rssi (some (clock, previous)) p h =
    ground (arith, one_more_stable-Slower p h)

pub rssi_round-Slower :
    (clock : ℕ) (found : Option ℤ) (m : ConnectionManager) (p : Polling)
    → Steady p
    → Slower p (rssi_round clock found (m, p)).1
unfolding rssi_round Slower
rssi_round-Slower clock none m p h = (h, omega arith)
rssi_round-Slower clock (some rssi) m p h = track_stability-Slower rssi _ p h

happen-append :
    (before after : List Happening) (s : ConnectionManager × Polling)
    → happen (before ++ after) s ≡ happen after (happen before s)
unfolding happen
happen-append [] after s = refl
happen-append (state_change ∷ before) after (m, p) = happen-append before after _
happen-append (round_at clock found ∷ before) after s = happen-append before after _

happen-Slower :
    (hs : List Happening) (m : ConnectionManager) (p : Polling)
    → Steady p
    → Slower p (happen hs (m, p)).1
unfolding happen Slower
happen-Slower [] m p h = (h, omega arith)
happen-Slower (state_change ∷ hs) m p h =
    let (kept, le) = record_state_change-Slower p h in
    let (steady, more) = happen-Slower hs m _ kept in (steady, omega (arith, le, more))
happen-Slower (round_at clock found ∷ hs) m p h =
    let (kept, le) = rssi_round-Slower clock found m p h in
    let (steady, more) = happen-Slower hs (rssi_round clock found (m, p)).0 _ kept in
    (steady, omega (arith, le, more))

pub new_polling-Steady : Steady new_polling
unfolding Steady new_polling
new_polling-Steady = (refl, omega arith, omega arith)

-- Whatever changes of state and rounds of polling have happened to a new manager, and whatever
-- happens after them, the polling interval gets no shorter, and it is between 60 and 300 seconds.
pub happen-Slower_new :
    (before after : List Happening) (m : ConnectionManager)
    → Slower (happen before (m, new_polling)).1 (happen (before ++ after) (m, new_polling)).1
unfolding Slower
happen-Slower_new before after m =
    let s = happen before (m, new_polling) in
    subst (λ t. Slower s.1 t.1) (sym (happen-append before after (m, new_polling)))
      (happen-Slower after s.0 s.1 (happen-Slower before m new_polling new_polling-Steady).0)
