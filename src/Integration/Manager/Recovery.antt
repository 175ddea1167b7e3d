-- ===== src/Integration/Manager/Recovery.antt =====
-- A reconnection that succeeds after some failures: its delays and what it leaves.
use tuya_ble_mesh.Prelude.{◌≤◌, ◌≡◌, refl, arith}
use tuya_ble_mesh.Prelude.{true, false, none, List, [], ◌∷◌, ◌++◌, All, length}
use tuya_ble_mesh.Integration.Manager.{ConnectionManager, max_backoff}
use tuya_ble_mesh.Integration.Manager.Reconnect.{Attempt, reconnect_loop}
use tuya_ble_mesh.Integration.Manager.Quiet.{core}
use tuya_ble_mesh.Integration.Manager.Rounds.{TriedAgain, Allowed, Recovered, rounds-Recovered}

-- From a running manager whose delay is at most the maximum, where the first attempts fail with
-- exceptions that are tried again, not so many that the manager gives up, and the last succeeds, the
-- loop ends: it waited a delay before each attempt, each twice the one before up to the maximum; the
-- delay is the first one again, no failure is consecutive, one reconnection and each failure are
-- counted, no storm is noted, with an entry no issue is raised, and the other fields of the
-- reconnection are as before.
pub reconnect_loop-Recovered :
    (failures : List Attempt) (last : Attempt) (m : ConnectionManager)
    → m.running ≡ true
    → m.backoff ≤ max_backoff m
    → Allowed (length failures) m
    → All TriedAgain failures
    → last.stopped ≡ false
    → last.failure ≡ none
    → Recovered
        (length failures)
        m.backoff
        (max_backoff m)
        0
        (core m)
        (reconnect_loop (failures ++ (last ∷ [])) m)
reconnect_loop-Recovered failures last m on within allowed failing goes connects =
    rounds-Recovered failures last m.backoff (max_backoff m) 0 m refl on (omega (arith, within))
      allowed failing goes connects
