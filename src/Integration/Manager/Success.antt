-- ===== src/Integration/Manager/Success.antt =====
-- What a connect that succeeds leaves.
use tuya_ble_mesh.Prelude.{ℕ, ◌+◌, ◌≡◌, refl, ap, ◌∙◌}
use tuya_ble_mesh.Prelude.{true, false, Option, none, some, []}
use tuya_ble_mesh.Prelude.{if-cases, if◌then◌else◌}
use tuya_ble_mesh.Prelude.Int.{ℤ}
use tuya_ble_mesh.Integration.Manager.{
  ConnectionManager, tell, initial_backoff, note_rssi, start_rssi_polling, clear_repair_issues,
}
use tuya_ble_mesh.Integration.Manager.Reconnect.{Attempt, count_success, note_success}
use tuya_ble_mesh.Integration.Manager.Quiet.{Core, core}

pub note_rssi-core :
    (clock : ℕ) (rssi : Option ℤ) (m : ConnectionManager) → core (note_rssi clock rssi m) ≡ core m
unfolding note_rssi
note_rssi-core clock none m = refl
note_rssi-core clock (some rssi) m = refl

clear-core : (m : ConnectionManager) → core (clear_repair_issues m) ≡ core m
unfolding clear_repair_issues
clear-core m =
    if-cases (λ (n : ConnectionManager). core n ≡ core m) m.has_entry _ _ (λ entry. refl)
      (λ alone. refl)

-- The fields after a success, and the issues.
abbrev pub recovered : Core → Core
recovered c = record c {
  backoff = if c.is_bridge then 3000 else 5000;
  consecutive_failures = 0;
  total_reconnects = c.total_reconnects + 1;
}

pub start_rssi_polling-core : (m : ConnectionManager) → core (start_rssi_polling m) ≡ core m
unfolding start_rssi_polling
start_rssi_polling-core m =
    if-cases (λ (n : ConnectionManager). core n ≡ core m) m.is_bridge _ _ (λ bridge. refl)
      (λ local. refl)

pub note_success-core :
    (a : Attempt) (m : ConnectionManager) → core (note_success a m) ≡ recovered (core m)
unfolding note_success count_success tell initial_backoff
note_success-core a m =
    let noted = note_rssi a.clock a.rssi (count_success a m) in
    let base : core (clear_repair_issues noted) ≡ recovered (core m) =
      clear-core noted ∙ note_rssi-core a.clock a.rssi (count_success a m) in
    if-cases (λ (n : ConnectionManager). core n ≡ recovered (core m)) m.has_on_connected _ _
      (λ told. base) (λ alone. start_rssi_polling-core (clear_repair_issues noted) ∙ base)

note_rssi_storm :
    (clock : ℕ) (rssi : Option ℤ) (m : ConnectionManager)
    → (note_rssi clock rssi m).stats.storm_detected ≡ m.stats.storm_detected
unfolding note_rssi
note_rssi_storm clock none m = refl
note_rssi_storm clock (some rssi) m = refl

-- A success ends the storm and, with an entry, the issues.
pub note_success_calms :
    (a : Attempt) (m : ConnectionManager)
    → ((note_success a m).stats.storm_detected ≡ false)
      × (m.has_entry ≡ true → (note_success a m).raised_repair_issues ≡ [])
unfolding note_success count_success tell clear_repair_issues start_rssi_polling
note_success_calms a m =
    let counted = count_success a m in
    let noted = note_rssi a.clock a.rssi counted in
    let P = λ (n : ConnectionManager).
      (n.stats.storm_detected ≡ false) × (m.has_entry ≡ true → n.raised_repair_issues ≡ []) in
    let calm = note_rssi_storm a.clock a.rssi counted in
    let same = ap (λ (c : Core). c.has_entry) (note_rssi-core a.clock a.rssi counted) in
    let base : P (clear_repair_issues noted) =
      if-cases P noted.has_entry _ _ (λ entry. (calm, λ h. refl))
        (λ alone. (calm, λ h. absurd (cc (alone, same, h)))) in
    if-cases P m.has_on_connected _ _ (λ told. base)
      (λ silent.
        if-cases P (clear_repair_issues noted).is_bridge _ _ (λ bridge. base) (λ local. base))
