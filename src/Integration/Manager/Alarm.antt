-- ===== src/Integration/Manager/Alarm.antt =====
-- The issue of a storm of reconnections, as `connection_manager.py` raises it: never again before a
-- recovery has deleted it.
use tuya_ble_mesh.Prelude.{ℕ, ◌≡◌, refl, ap, ◌∙◌, Bool, true, false, not, ◌&&◌}
use tuya_ble_mesh.Prelude.{zero, suc, ◌+◌, ◌*◌, ◌||◌, ltb, Error}
use tuya_ble_mesh.Prelude.{Option, none, some, List, [], ◌∷◌, ◌++◌, if-cases, arith}
use tuya_ble_mesh.Prelude.Int.{ℤ}
use tuya_ble_mesh.Integration.Classify.{
  ErrorClass, bridge_down, mesh_auth, device_offline, transient, Failure, classify_error,
}
use tuya_ble_mesh.Integration.Manager.{
  ConnectionManager, Event, issue_created, issue_deleted, reconnect_storm, bridge_unreachable,
  auth_or_mesh_mismatch, device_not_found, timeout_issue, Issue, is_raised, tell, on_state_update,
  note_rssi, start_rssi_polling, check_reconnect_storm, issue_of, raise_issue,
  maybe_create_repair_issue, clear_repair_issues, record_connection_error,
}
use tuya_ble_mesh.Integration.Manager.{
  async_connect, stop_rssi_polling, schedule_reconnect, handle_disconnect, append_max,
  initial_backoff,
}
use tuya_ble_mesh.Integration.Manager.Reconnect.{
  Attempt, Next, is_let_through, is_permanent, count_success, note_success, count_failure,
  detect_storm, add_event, grow_backoff, retry_later, note_failure, after_connect, after_delay,
}
use tuya_ble_mesh.Integration.Manager.Reconnect.{
  Commanded, count_command_error, after_call, call_loop,
}

-- Whether the issue stands after an event; none, once it was created while it stood.
unfoldable pub note_storm : Event → Option Bool → Option Bool
note_storm (issue_created reconnect_storm) (some false) = some true
note_storm (issue_created reconnect_storm) _ = none
note_storm (issue_deleted reconnect_storm) (some stands) = some false
note_storm _ stands = stands

unfoldable pub storm_after : Option Bool → List Event → Option Bool
storm_after stands [] = stands
storm_after stands (e ∷ events) = storm_after (note_storm e stands) events

storm_after-append :
    (stands : Option Bool) (xs ys : List Event)
    → storm_after stands (xs ++ ys) ≡ storm_after (storm_after stands xs) ys
unfolding storm_after
storm_after-append stands [] ys = refl
storm_after-append stands (x ∷ xs) ys = storm_after-append (note_storm x stands) xs ys

-- The issue of a storm was never created while it stood, and it stands exactly where a storm is noted.
abbrev pub Alarm : Bool → Bool → List Event → Type 0
Alarm has_entry storm events =
    (storm_after (some false) events ≡ some storm) × (has_entry ≡ false → storm ≡ false)

abbrev pub Alarmed : ConnectionManager → Type 0
Alarmed m = Alarm m.has_entry m.stats.storm_detected m.events

-- An event that is not about a storm.
tell_other :
    (e : Event) (m : ConnectionManager)
    → ((stands : Option Bool) → note_storm e stands ≡ stands)
    → Alarmed m
    → Alarmed (tell e m)
unfolding tell storm_after
tell_other e m other (told, alone) =
    (storm_after-append (some false) m.events (e ∷ []) ∙ other _ ∙ told, alone)

pub note_rssi-Alarmed :
    (clock : ℕ) (rssi : Option ℤ) (m : ConnectionManager)
    → Alarmed m
    → Alarmed (note_rssi clock rssi m)
unfolding note_rssi
note_rssi-Alarmed clock none m h = h
note_rssi-Alarmed clock (some rssi) m h = h

pub start_rssi_polling-Alarmed :
    (m : ConnectionManager) → Alarmed m → Alarmed (start_rssi_polling m)
unfolding start_rssi_polling
start_rssi_polling-Alarmed m h = if-cases Alarmed m.is_bridge _ _ (λ bridge. h) (λ local. h)

-- A recovery forgets the storm and deletes its issue.
recovered :
    (a : Attempt) (rssi : Option ℤ) (m : ConnectionManager)
    → Alarmed m
    → Alarmed (clear_repair_issues (note_rssi a.clock rssi (count_success a m)))
unfolding clear_repair_issues note_rssi count_success storm_after note_storm
recovered a none m (told, alone) =
    if-cases Alarmed m.has_entry _ _
      (λ entry. (storm_after-append (some false) m.events _ ∙ rw told refl, λ h. refl))
      (λ off. (told ∙ ap some (alone off), λ h. refl))
recovered a (some rssi) m (told, alone) =
    if-cases Alarmed m.has_entry _ _
      (λ entry. (storm_after-append (some false) m.events _ ∙ rw told refl, λ h. refl))
      (λ off. (told ∙ ap some (alone off), λ h. refl))

pub note_success-Alarmed :
    (a : Attempt) (m : ConnectionManager) → Alarmed m → Alarmed (note_success a m)
unfolding note_success note_storm
note_success-Alarmed a m h =
    let c = recovered a a.rssi m h in
    if-cases Alarmed m.has_on_connected _ _ (λ told. tell_other _ _ (λ stands. refl) c)
      (λ silent. start_rssi_polling-Alarmed _ c)

raise_other :
    (issue : Issue) (m : ConnectionManager)
    → ((stands : Option Bool) → note_storm (issue_created issue) stands ≡ stands)
    → Alarmed m
    → Alarmed (raise_issue (some issue) m)
unfolding raise_issue
raise_other issue m other h =
    if-cases Alarmed (is_raised issue m.raised_repair_issues) _ _ (λ old. h)
      (λ new.
        tell_other (issue_created issue)
          (record m { raised_repair_issues = issue ∷ m.raised_repair_issues }) other h)

raise_of :
    (error_class : ErrorClass) (m : ConnectionManager)
    → Alarmed m
    → Alarmed (raise_issue (issue_of error_class) m)
unfolding issue_of raise_issue note_storm
raise_of bridge_down m h = raise_other bridge_unreachable m (λ stands. refl) h
raise_of mesh_auth m h = raise_other auth_or_mesh_mismatch m (λ stands. refl) h
raise_of device_offline m h = raise_other device_not_found m (λ stands. refl) h
raise_of transient m h = raise_other timeout_issue m (λ stands. refl) h
raise_of _ m h = h

first_time :
    (found stands : Bool)
    → found && not stands ≡ true
    → note_storm (issue_created reconnect_storm) (some stands) ≡ some true
unfolding note_storm
first_time found false h = refl
first_time found true h = ground (arith, h)

detect_storm-Alarmed :
    (clock : ℕ) (m : ConnectionManager) → Alarmed m → Alarmed (detect_storm clock m)
unfolding detect_storm check_reconnect_storm tell storm_after note_storm
detect_storm-Alarmed clock m (told, alone) =
    if-cases Alarmed (not m.has_entry) _ _ (λ off. (told, alone))
      (λ entry.
        if-cases Alarmed ((check_reconnect_storm clock m).1 && not m.stats.storm_detected) _ _
          (λ storm. (
            storm_after-append (some false) m.events _
                ∙ ap (note_storm (issue_created reconnect_storm)) told
                ∙ first_time (check_reconnect_storm clock m).1 m.stats.storm_detected storm,
            λ off. ground (arith, entry, off),
          ))
          (λ calm. (told, alone)))

pub retry_later-Alarmed :
    (clock : ℕ) (error_class : ErrorClass) (m : ConnectionManager)
    → Alarmed m
    → Alarmed (retry_later clock error_class m)
unfolding retry_later add_event grow_backoff note_storm maybe_create_repair_issue
retry_later-Alarmed clock error_class m h =
    let raised = maybe_create_repair_issue error_class m in
    tell_other on_state_update
      (grow_backoff (add_event clock error_class (detect_storm clock raised))) (λ stands. refl)
      (detect_storm-Alarmed clock raised
        (if-cases Alarmed m.has_entry _ _ (λ entry. raise_of error_class m h) (λ alone. h)))

note_failure-Alarmed :
    (a : Attempt) (failure : Failure) (m : ConnectionManager)
    → Alarmed m
    → Alarmed (note_failure a failure m).0
unfolding note_failure note_storm count_failure record_connection_error
note_failure-Alarmed a failure m h =
    let P = λ (r : ConnectionManager × Next). Alarmed r.0 in
    if-cases P (is_let_through failure.exception) _ _ (λ raised. h)
      (λ other.
        if-cases P (is_permanent (classify_error failure)) _ _
          (λ lasting. tell_other on_state_update (count_failure a failure m) (λ stands. refl) h)
          (λ later.
            retry_later-Alarmed a.clock (classify_error failure) (count_failure a failure m) h))

pub after_delay-Alarmed :
    (a : Attempt) (m : ConnectionManager) → Alarmed m → Alarmed (after_delay a m).0
unfolding after_delay after_connect
after_delay-Alarmed a m h =
    if-cases (λ (r : ConnectionManager × Next). Alarmed r.0) (a.stopped || not m.running) _ _
      (λ ends. h) (λ goes. connected a.failure)
  where
    connected : (failure : Option Failure) → Alarmed (after_connect a failure m).0
    connected none = note_success-Alarmed a m h
    connected (some failure) = note_failure-Alarmed a failure m h

pub async_connect-Alarmed :
    (response_time clock : ℕ) (rssi : Option ℤ) (m : ConnectionManager)
    → Alarmed m
    → Alarmed (async_connect response_time clock rssi m)
unfolding async_connect
async_connect-Alarmed response_time clock rssi m h = start_rssi_polling-Alarmed _ (
    note_rssi-Alarmed clock rssi
      (record m {
        stats = record m.stats {
          response_times = append_max 100 m.stats.response_times response_time;
          connect_time = some clock;
        };
        backoff = initial_backoff m;
      })
      h)

pub schedule_reconnect-Alarmed :
    (m : ConnectionManager) → Alarmed m → Alarmed (schedule_reconnect m)
unfolding schedule_reconnect
schedule_reconnect-Alarmed m h = if-cases Alarmed m.running _ _ (λ on. h) (λ off. h)

pub handle_disconnect-Alarmed :
    (clock : ℕ) (m : ConnectionManager) → Alarmed m → Alarmed (handle_disconnect clock m)
unfolding handle_disconnect stop_rssi_polling schedule_reconnect
handle_disconnect-Alarmed clock m h = if-cases Alarmed m.running _ _ (λ on. h) (λ off. h)

after_call-Alarmed :
    (left delay : ℕ) (m : ConnectionManager) (rest : ConnectionManager → Commanded)
    (answer : Option Error)
    → ((n : ConnectionManager) → Alarmed n → Alarmed (rest n).manager)
    → Alarmed m
    → Alarmed (after_call left delay m rest answer).manager
unfolding after_call count_command_error
after_call-Alarmed left delay m rest none keeps h = h
after_call-Alarmed left delay m rest (some e) keeps h =
    let P = λ (c : Commanded). Alarmed c.manager in
    if-cases P (is_let_through e) _ _ (λ raised. h)
      (λ other. if-cases P (ltb 0 left) _ _ (λ again. keeps (count_command_error m) h) (λ last. h))

pub call_loop-Alarmed :
    (left delay : ℕ) (call : ℕ → Option Error) (attempt : ℕ) (m : ConnectionManager)
    → Alarmed m
    → Alarmed (call_loop left delay call attempt m).manager
unfolding call_loop
call_loop-Alarmed zero delay call attempt m h = h
call_loop-Alarmed (suc left) delay call attempt m h =
    after_call-Alarmed left delay m (call_loop left (delay * 2) call (attempt + 1)) (call attempt)
      (λ n k. call_loop-Alarmed left (delay * 2) call (attempt + 1) n k) h
