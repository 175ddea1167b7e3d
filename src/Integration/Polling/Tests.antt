-- ===== src/Integration/Polling/Tests.antt =====
-- A manager whose device changes its state twice in a row while the signal is stable.
use tuya_ble_mesh.Prelude.{true, false, some, List, [], ◌∷◌, ◌++◌, ◌≡◌, refl}
use tuya_ble_mesh.Prelude.Int.{negsuc}
use tuya_ble_mesh.Integration.Manager.{ConnectionManager, new_manager, no_statistics}
use tuya_ble_mesh.Integration.Manager.{note_rssi, tell, append_max}
use tuya_ble_mesh.Integration.Polling.{
  new_polling, record_state_change, adjust_polling_interval, next_interval, rssi_round, before_last,
  track_stability, one_more_stable, is_near,
}
use tuya_ble_mesh.Integration.Polling.Slower.{
  Happening, state_change, round_at, happen, Slower, happen-Slower_new,
}

abbrev some_manager : ConnectionManager
unfolding new_manager no_statistics
some_manager = new_manager false true true

abbrev stable : List Happening
stable =
    round_at 1000 (some (negsuc 59))
    ∷ round_at 61000 (some (negsuc 60))
    ∷ round_at 121000 (some (negsuc 59))
    ∷ round_at 181000 (some (negsuc 61))
    ∷ []

abbrev changing : List Happening
changing = state_change ∷ state_change ∷ state_change ∷ []

-- Three strengths near the ones before them lengthen the interval.
stable_interval : (happen stable (some_manager, new_polling)).1.rssi_interval ≡ 90000
unfolding happen new_manager no_statistics new_polling rssi_round before_last track_stability
    one_more_stable is_near adjust_polling_interval next_interval note_rssi tell append_max
stable_interval = refl

-- Changes of state never shorten it.
changing_interval :
    (happen (stable ++ changing) (some_manager, new_polling)).1.rssi_interval ≡ 90000
unfolding happen new_manager no_statistics new_polling rssi_round before_last track_stability
    one_more_stable is_near adjust_polling_interval next_interval note_rssi tell append_max
    record_state_change
changing_interval = refl

happen-Slower_new_example :
    Slower
      (happen stable (some_manager, new_polling)).1
      (happen (stable ++ changing) (some_manager, new_polling)).1
happen-Slower_new_example = happen-Slower_new stable changing some_manager
