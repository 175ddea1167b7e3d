-- ===== src/Integration/Unreachable.antt =====
-- The exception of `sig_mesh_bridge.py` for a bridge that does not answer, as `error_classifier.py`
-- and `connection_manager.py` see it.
use tuya_ble_mesh.Prelude.{ℕ, ◌≡◌, refl, true, false, List, [], ◌∷◌, ◌++◌}
use tuya_ble_mesh.Prelude.{mesh_connection_error}
use tuya_ble_mesh.Telink.Connection.Connect.{is_mesh_connection_error}
use tuya_ble_mesh.Integration.Classify.{
  Failure, codes, starts_with, contains, any_in, transient, type_class, connection_class,
  untyped_class, classify_error,
}
use tuya_ble_mesh.Integration.Manager.{
  ConnectionManager, timeout_issue, tell, issue_of, raise_issue, maybe_create_repair_issue,
}

-- `MeshConnectionError(f"Bridge daemon not reachable at {self._bridge_url}")`, of a host and a port.
abbrev pub not_reachable : List ℕ → Failure
not_reachable address = record {
  exception = mesh_connection_error;
  is_timeout = false;
  type_name = codes "meshconnectionerror";
  message = codes "bridge daemon not reachable at http://" ++ address;
}

-- Where the address of the bridge mentions none of the keywords, the exception of a bridge that does
-- not answer is of the class TRANSIENT, not BRIDGE_DOWN, and a manager with an entry and no issue
-- raises the issue of a timeout, not that of an unreachable bridge.
pub classify_error-not_reachable :
    (address : List ℕ) (m : ConnectionManager)
    → any_in ("refused" ∷ "unreachable" ∷ "no route" ∷ []) address ≡ false
    → m.has_entry ≡ true
    → m.raised_repair_issues ≡ []
    → (classify_error (not_reachable address) ≡ transient)
      × ((maybe_create_repair_issue (classify_error (not_reachable address)) m).raised_repair_issues
          ≡ timeout_issue ∷ [])
unfolding classify_error type_class untyped_class connection_class is_mesh_connection_error any_in
    contains starts_with maybe_create_repair_issue raise_issue issue_of tell
classify_error-not_reachable address m plain entry unraised =
    rw (plain, entry, unraised) (refl, refl)
