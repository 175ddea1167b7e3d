-- ===== src/Integration/Tests.antt =====
-- The exception of a bridge at an address of the local network.
use tuya_ble_mesh.Prelude.{◌≡◌, refl, true, [], ◌∷◌}
use tuya_ble_mesh.Integration.Classify.{
  codes, transient, classify_error, any_in, contains, starts_with,
}
use tuya_ble_mesh.Integration.Manager.{
  ConnectionManager, new_manager, maybe_create_repair_issue, timeout_issue,
}
use tuya_ble_mesh.Integration.Unreachable.{not_reachable, classify_error-not_reachable}

abbrev manager : ConnectionManager
manager = new_manager true true true

classify_error-not_reachable_example :
    (classify_error (not_reachable (codes "10.0.0.7:8099")) ≡ transient)
    × ((maybe_create_repair_issue
          (classify_error (not_reachable (codes "10.0.0.7:8099")))
          manager).raised_repair_issues
        ≡ timeout_issue ∷ [])
unfolding new_manager any_in contains starts_with
classify_error-not_reachable_example =
    classify_error-not_reachable (codes "10.0.0.7:8099") manager refl refl refl
