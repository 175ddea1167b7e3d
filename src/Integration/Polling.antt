-- ===== src/Integration/Polling.antt =====
-- `connection_manager.py`: how often the signal strength is polled. The intervals are numbers of
-- milliseconds, which keeps the factors 0.75 and 1.5 exact on the intervals from 60 s on.
pub mod Slower
mod Tests
use tuya_ble_mesh.Prelude.{ℕ, zero, suc, ◌+◌, ◌-◌, ◌*◌, ◌/◌, ◌≤◌, min, max, refl, sym, subst, arith}
use tuya_ble_mesh.Prelude.{Bool, ◌&&◌, Option, none, some, List, [], ◌∷◌, ◌++◌, ◌≡◌, ap}
use tuya_ble_mesh.Prelude.{if◌then◌else◌, leb, length, get_elem?}
use tuya_ble_mesh.Prelude.Int.{ℤ, pos_part, neg_part}
use tuya_ble_mesh.Integration.Manager.{ConnectionManager, note_rssi, tell, on_state_update}

pub record Polling : Type 0 where
  pub rssi_interval : ℕ
  pub state_change_counter : ℕ
  pub stable_cycles : ℕ

unfoldable pub new_polling : Polling
new_polling = record { rssi_interval = 60000; state_change_counter = 0; stable_cycles = 0 }

-- The interval that `adjust_polling_interval` goes on with.
unfoldable pub next_interval : Polling → ℕ
next_interval p =
    if leb 2 p.state_change_counter
    then max 30000 (p.rssi_interval * 3 / 4)
    else if leb 3 p.stable_cycles
    then min 300000 (p.rssi_interval * 3 / 2)
    else p.rssi_interval

unfoldable pub adjust_polling_interval : Polling → Polling
unfolding next_interval
adjust_polling_interval p = record p { rssi_interval = next_interval p; state_change_counter = 0 }

unfoldable pub record_state_change : Polling → Polling
unfolding adjust_polling_interval
record_state_change p =
    adjust_polling_interval
      (record p { state_change_counter = p.state_change_counter + 1; stable_cycles = 0 })

-- `abs(rssi - prev_rssi) <= 2`
unfoldable pub is_near : ℤ → ℤ → Bool
is_near a b =
    leb (pos_part a + neg_part b) (pos_part b + neg_part a + 2)
    && leb (pos_part b + neg_part a) (pos_part a + neg_part b + 2)

unfoldable pub one_more_stable : Polling → Polling
unfolding adjust_polling_interval
one_more_stable p =
    let q = record p { stable_cycles = p.stable_cycles + 1 } in
    if leb 3 q.stable_cycles then adjust_polling_interval q else q

-- "Track stability": the new strength against the one before it, when there is one.
unfoldable pub track_stability : ℤ → Option (ℕ × ℤ) → Polling → Polling
unfolding is_near one_more_stable
track_stability rssi none p = p
track_stability rssi (some (clock, previous)) p =
    if is_near rssi previous then one_more_stable p else record p { stable_cycles = 0 }

-- The entry before the last one of a history.
unfoldable pub before_last : List (ℕ × ℤ) → Option (ℕ × ℤ)
before_last history =
    if leb 2 (length history) then get_elem? history (length history - 2) else none

-- A round of `_rssi_loop` after its sleep, with the strength that the scan has found.
unfoldable pub rssi_round : ℕ → Option ℤ → ConnectionManager × Polling → ConnectionManager × Polling
unfolding note_rssi tell track_stability before_last
rssi_round clock none (m, p) = (m, p)
rssi_round clock (some rssi) (m, p) =
    let noted = tell on_state_update (note_rssi clock (some rssi) m) in
    (noted, track_stability rssi (before_last noted.stats.rssi_history) p)
