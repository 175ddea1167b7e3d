-- ===== src/Integration/Manager/Quiet.antt =====
-- What the bookkeeping of a failure leaves alone.
use tuya_ble_mesh.Prelude.{ℕ, ◌*◌, ◌≡◌, refl, ap, ◌∙◌, min, Bool, not, ◌&&◌, some, none, Option}
use tuya_ble_mesh.Prelude.{if-cases, if◌then◌else◌}
use tuya_ble_mesh.Integration.Classify.{ErrorClass}
use tuya_ble_mesh.Integration.Manager.{
  ConnectionManager, Issue, tell, raise_issue, issue_of, is_raised, maybe_create_repair_issue,
  check_reconnect_storm, max_backoff,
}
use tuya_ble_mesh.Integration.Manager.Reconnect.{detect_storm, add_event, grow_backoff, retry_later}

-- The fields that the reconnection depends on.
pub record Core : Type 0 where
  pub is_bridge : Bool
  pub has_entry : Bool
  pub has_on_connected : Bool
  pub running : Bool
  pub backoff : ℕ
  pub max_reconnect_failures : ℕ
  pub consecutive_failures : ℕ
  pub total_reconnects : ℕ
  pub total_errors : ℕ
  pub connection_errors : ℕ
  pub command_errors : ℕ

abbrev pub core : ConnectionManager → Core
core m = record {
  is_bridge = m.is_bridge;
  has_entry = m.has_entry;
  has_on_connected = m.has_on_connected;
  running = m.running;
  backoff = m.backoff;
  max_reconnect_failures = m.max_reconnect_failures;
  consecutive_failures = m.consecutive_failures;
  total_reconnects = m.stats.total_reconnects;
  total_errors = m.stats.total_errors;
  connection_errors = m.stats.connection_errors;
  command_errors = m.stats.command_errors;
}

raise_issue-core :
    (issue : Option Issue) (m : ConnectionManager) → core (raise_issue issue m) ≡ core m
unfolding raise_issue tell
raise_issue-core none m = refl
raise_issue-core (some issue) m =
    if-cases (λ (n : ConnectionManager). core n ≡ core m) (is_raised issue m.raised_repair_issues) _
      _ (λ old. refl) (λ new. refl)

maybe_create-core :
    (error_class : ErrorClass) (m : ConnectionManager)
    → core (maybe_create_repair_issue error_class m) ≡ core m
unfolding maybe_create_repair_issue
maybe_create-core error_class m =
    if-cases (λ (n : ConnectionManager). core n ≡ core m) m.has_entry _ _
      (λ entry. raise_issue-core (issue_of error_class) m) (λ alone. refl)

detect_storm-core : (clock : ℕ) (m : ConnectionManager) → core (detect_storm clock m) ≡ core m
unfolding detect_storm check_reconnect_storm tell
detect_storm-core clock m =
    if-cases (λ (n : ConnectionManager). core n ≡ core m) (not m.has_entry) _ _ (λ alone. refl)
      (λ entry.
        if-cases (λ (n : ConnectionManager). core n ≡ core m)
          ((check_reconnect_storm clock m).1 && not m.stats.storm_detected) _ _ (λ storm. refl)
          (λ calm. refl))

-- A failure that is tried again doubles the delay, up to its maximum.
pub retry_later-core :
    (clock : ℕ) (error_class : ErrorClass) (m : ConnectionManager)
    → core (retry_later clock error_class m)
      ≡ record (core m) { backoff = min (m.backoff * 2) (max_backoff m) }
unfolding retry_later add_event grow_backoff tell max_backoff
retry_later-core clock error_class m =
    ap
      (λ (c : Core). record c {
        backoff = min (c.backoff * 2) (if c.is_bridge then 120000 else 300000);
      })
      (detect_storm-core clock (maybe_create_repair_issue error_class m)
        ∙ maybe_create-core error_class m)
