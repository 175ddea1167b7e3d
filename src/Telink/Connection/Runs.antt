-- ===== src/Telink/Connection/Runs.antt =====
-- What runs of `BLEConnection` come to: a connect after some failures, and one that is
-- interrupted.
use tuya_ble_mesh.Prelude.{ℕ, zero, suc, ◌+◌, ◌≡◌, true}
use tuya_ble_mesh.Prelude.{some, none, Result, ok, err, Error}
use tuya_ble_mesh.Bytes.{Bytes}
use tuya_ble_mesh.Telink.Connection.{ready, Ended, is_os_error}
use tuya_ble_mesh.Telink.Connection.Connect.{Scan, scan_error, is_connect_retried}

-- From one attempt on, so many fail with an exception that is retried; the next makes a client.
abbrev pub FailsThenConnects : (ℕ → Scan) → ℕ → ℕ → Type 0
FailsThenConnects scan attempt zero = scan_error (scan attempt) ≡ none
FailsThenConnects scan attempt (suc failures) =
    ((e : Error) × ((scan_error (scan attempt) ≡ some e) × (is_connect_retried e ≡ true)))
    × FailsThenConnects scan (attempt + 1) failures

-- The version was read, or the read raised OSError.
abbrev pub Tolerated : Result Bytes → Type 0
Tolerated (ok version) = Unit {0}
Tolerated (err e) = is_os_error e ≡ true

-- A connection with its client, its key and its probes.
pub record Connected (key : Bytes) (ended : Ended) : Type 0 where
  pub returned : ended.outcome ≡ ok tt
  pub state : ended.connection.state ≡ ready
  pub client : ended.connection.has_client ≡ true
  pub keyed : ended.connection.session_key ≡ some key
  pub alive : ended.connection.keep_alive ≡ true
