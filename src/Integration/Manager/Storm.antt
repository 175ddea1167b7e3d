-- ===== src/Integration/Manager/Storm.antt =====
-- `_check_reconnect_storm` against the count of the recent attempts.
use tuya_ble_mesh.Prelude.{ℕ, ◌+◌, ◌≤◌, ◌≡◌, refl, ap, arith, false, List, [], ◌∷◌, All}
use tuya_ble_mesh.Prelude.{ltb, leb, length, if◌then◌else◌, Bool-cases, inl, inr}
use tuya_ble_mesh.Integration.Manager.{ConnectionManager, drop_before, check_reconnect_storm}

-- No time is above a later one.
abbrev pub Rising : List ℕ → Type 0
Rising [] = Unit
Rising (t ∷ times) = All (λ u. t ≤ u) times × Rising times

-- The times of the last five minutes.
abbrev pub recent : ℕ → List ℕ → List ℕ
recent now [] = []
recent now (t ∷ times) = if leb now (t + 300000) then t ∷ recent now times else recent now times

recent-All :
    (now t : ℕ) (times : List ℕ)
    → now ≤ t + 300000
    → All (λ u. t ≤ u) times
    → recent now times ≡ times
recent-All now t [] h a = refl
recent-All now t (u ∷ times) h (first, a) = ground (arith, first, h, recent-All now t times h a)

drop_before-recent :
    (now : ℕ) (times : List ℕ) → Rising times → drop_before now times ≡ recent now times
unfolding drop_before
drop_before-recent now [] r = refl
drop_before-recent now (t ∷ times) (above, r) = elim (Bool-cases (ltb (t + 300000) now)) [
  | inl old ↦ ground (arith, old, drop_before-recent now times r)
  | inr new ↦ ground (arith, new, recent-All now t times (omega (arith, not_old new)) above)
]
  where
    not_old : ltb (t + 300000) now ≡ false → now ≤ t + 300000
    not_old h = ground (arith, h)

-- Where the kept times never fall, `_check_reconnect_storm` keeps the attempts of the last five
-- minutes and tells whether they are at least the threshold.
pub check_reconnect_storm-recent :
    (now : ℕ) (m : ConnectionManager)
    → Rising m.stats.reconnect_times
    → check_reconnect_storm now m ≡ (
      record m { stats = record m.stats { reconnect_times = recent now m.stats.reconnect_times } },
      leb m.storm_threshold (length (recent now m.stats.reconnect_times)),
    )
unfolding check_reconnect_storm
check_reconnect_storm-recent now m r =
    ap
      (λ (times : List ℕ). (
        record m { stats = record m.stats { reconnect_times = times } },
        leb m.storm_threshold (length times),
      ))
      (drop_before-recent now m.stats.reconnect_times r)
