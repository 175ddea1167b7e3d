-- ===== src/Integration/Manager/Kept.antt =====
-- The bounds that `ConnectionManager` keeps, over its operations and the rounds of its loops.
use tuya_ble_mesh.Prelude.{ℕ, ◌+◌, ◌-◌, ◌≤◌, ◌≡◌, sym, subst, arith}
use tuya_ble_mesh.Prelude.{false, not, ◌&&◌, Option, none, some, List, [], ◌∷◌, ◌++◌, length}
use tuya_ble_mesh.Prelude.{if-cases, if◌then◌else◌, length-drop}
use tuya_ble_mesh.Prelude.Int.{ℤ}
use tuya_ble_mesh.Integration.Classify.{ErrorClass, Failure}
use tuya_ble_mesh.Integration.Manager.{
  ConnectionManager, ConnectionStatistics, Issue, is_raised, tell, append_max, max_backoff,
  note_rssi, start_rssi_polling,
}
use tuya_ble_mesh.Integration.Manager.{
  record_connection_error, drop_before, check_reconnect_storm, issue_of, raise_issue,
  maybe_create_repair_issue, clear_repair_issues,
}
use tuya_ble_mesh.Integration.Manager.Reconnect.{
  Attempt, count_success, note_success, count_failure, detect_storm, add_event, grow_backoff,
  retry_later,
}
use tuya_ble_mesh.Integration.Manager.Quiet.{Core, core, retry_later-core}
use tuya_ble_mesh.Integration.Manager.Success.{note_success-core}

-- The errors add up, and the delay is in its range.
abbrev pub Sane : Core → Type 0
Sane c =
    (c.total_errors ≡ c.connection_errors + c.command_errors)
    × ((3000 ≤ c.backoff) × (c.backoff ≤ (if c.is_bridge then 120000 else 300000)))

-- The four deques.
abbrev pub Short : ConnectionStatistics → Type 0
Short s =
    (length s.reconnect_times ≤ 50)
    × ((length s.response_times ≤ 100)
        × ((length s.reconnect_timeline ≤ 20) × (length s.rssi_history ≤ 50)))

abbrev pub NoRepeat : List Issue → Type 0
NoRepeat [] = Unit
NoRepeat (issue ∷ issues) = (is_raised issue issues ≡ false) × NoRepeat issues

abbrev pub Tidy : ConnectionManager → Type 0
Tidy m = Short m.stats × NoRepeat m.raised_repair_issues

abbrev pub Kept : ConnectionManager → Type 0
Kept m = Sane (core m) × Tidy m

pub append_max-le {ℓ} : {A : Type ℓ} (n : ℕ) (xs : List A) (x : A) → length (append_max n xs x) ≤ n
unfolding append_max
append_max-le n xs x = omega (arith, length-drop (length (xs ++ (x ∷ [])) - n) (xs ++ (x ∷ [])))

drop_before-le : (now : ℕ) (times : List ℕ) → length (drop_before now times) ≤ length times
unfolding drop_before
drop_before-le now [] = omega arith
drop_before-le now (t ∷ times) = ground (arith, drop_before-le now times)

pub note_rssi-Tidy :
    (clock : ℕ) (rssi : Option ℤ) (m : ConnectionManager) → Tidy m → Tidy (note_rssi clock rssi m)
unfolding note_rssi
note_rssi-Tidy clock none m t = t
note_rssi-Tidy clock (some rssi) m ((times, (responses, (timeline, history))), once) =
    ((times, (responses, (timeline, append_max-le 50 m.stats.rssi_history (clock, rssi)))), once)

clear-Tidy : (m : ConnectionManager) → Tidy m → Tidy (clear_repair_issues m)
unfolding clear_repair_issues
clear-Tidy m (short, once) =
    if-cases Tidy m.has_entry _ _ (λ entry. (short, tt)) (λ alone. (short, once))

pub start_rssi_polling-Tidy : (m : ConnectionManager) → Tidy m → Tidy (start_rssi_polling m)
unfolding start_rssi_polling
start_rssi_polling-Tidy m t = if-cases Tidy m.is_bridge _ _ (λ bridge. t) (λ local. t)

note_success-Tidy : (a : Attempt) (m : ConnectionManager) → Tidy m → Tidy (note_success a m)
unfolding note_success count_success tell
note_success-Tidy a m ((times, (responses, (timeline, history))), once) =
    let noted = note_rssi a.clock a.rssi (count_success a m) in
    let tidy : Tidy (clear_repair_issues noted) = clear-Tidy noted (
      note_rssi-Tidy a.clock a.rssi (count_success a m) (
        (
          append_max-le 50 m.stats.reconnect_times a.clock,
          (append_max-le 100 m.stats.response_times a.response_time, (timeline, history)),
        ),
        once,
      )) in
    if-cases Tidy m.has_on_connected _ _ (λ told. tidy)
      (λ silent. start_rssi_polling-Tidy (clear_repair_issues noted) tidy)

raise_issue-Tidy :
    (issue : Option Issue) (m : ConnectionManager) → Tidy m → Tidy (raise_issue issue m)
unfolding raise_issue tell
raise_issue-Tidy none m t = t
raise_issue-Tidy (some issue) m (short, once) =
    if-cases Tidy (is_raised issue m.raised_repair_issues) _ _ (λ old. (short, once))
      (λ new. (short, (new, once)))

maybe_create-Tidy :
    (error_class : ErrorClass) (m : ConnectionManager)
    → Tidy m
    → Tidy (maybe_create_repair_issue error_class m)
unfolding maybe_create_repair_issue
maybe_create-Tidy error_class m t =
    if-cases Tidy m.has_entry _ _ (λ entry. raise_issue-Tidy (issue_of error_class) m t)
      (λ alone. t)

detect_storm-Tidy : (clock : ℕ) (m : ConnectionManager) → Tidy m → Tidy (detect_storm clock m)
unfolding detect_storm check_reconnect_storm tell
detect_storm-Tidy clock m ((times, lists), once) =
    let fewer = drop_before-le clock m.stats.reconnect_times in
    if-cases Tidy (not m.has_entry) _ _ (λ alone. ((times, lists), once))
      (λ entry.
        if-cases Tidy ((check_reconnect_storm clock m).1 && not m.stats.storm_detected) _ _
          (λ storm. ((omega (arith, fewer, times), lists), once))
          (λ calm. ((omega (arith, fewer, times), lists), once)))

retry_later-Tidy :
    (clock : ℕ) (error_class : ErrorClass) (m : ConnectionManager)
    → Tidy m
    → Tidy (retry_later clock error_class m)
unfolding retry_later add_event grow_backoff tell
retry_later-Tidy clock error_class m t =
    let ((times, (responses, (timeline, history))), once) =
      detect_storm-Tidy clock (maybe_create_repair_issue error_class m)
        (maybe_create-Tidy error_class m t) in
    (
      (
        times,
        (
          responses,
          (
            append_max-le 20
                (detect_storm clock
                  (maybe_create_repair_issue error_class m)).stats.reconnect_timeline
                _,
            history,
          ),
        ),
      ),
      once,
    )

pub retry_later-Kept :
    (clock : ℕ) (error_class : ErrorClass) (m : ConnectionManager)
    → Kept m
    → Kept (retry_later clock error_class m)
unfolding max_backoff
retry_later-Kept clock error_class m ((adds, (low, high)), t) = (
  subst Sane (sym (retry_later-core clock error_class m))
      (adds, (ground (arith, low, high), ground (arith, low, high))),
  retry_later-Tidy clock error_class m t,
)

pub count_failure-Kept :
    (a : Attempt) (failure : Failure) (m : ConnectionManager)
    → Kept m
    → Kept (count_failure a failure m)
unfolding count_failure record_connection_error
count_failure-Kept a failure m ((adds, range), ((times, lists), once)) = (
  (omega (arith, adds), range),
  ((append_max-le 50 m.stats.reconnect_times a.clock, lists), once),
)

pub note_success-Kept : (a : Attempt) (m : ConnectionManager) → Kept m → Kept (note_success a m)
note_success-Kept a m ((adds, (low, high)), t) = (
  subst Sane (sym (note_success-core a m)) (adds, (ground arith, ground arith)),
  note_success-Tidy a m t,
)
