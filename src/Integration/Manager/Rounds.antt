-- ===== src/Integration/Manager/Rounds.antt =====
-- The rounds of `_reconnect_loop`, up to a success.
use tuya_ble_mesh.Prelude.{
  ℕ, zero, suc, ◌+◌, ◌*◌, ◌^◌, ◌<◌, ◌≡◌, ◌⊎◌, inl, inr, refl, ap, ap₂, ◌∙◌, sym, arith,
}
use tuya_ble_mesh.Prelude.{min, true, false, none, some, List, [], ◌∷◌, ◌++◌, All, length}
use native.Mathlib.Nat.{pow-suc}
use tuya_ble_mesh.Prelude.{if◌then◌else◌}
use tuya_ble_mesh.Integration.Classify.{Failure, classify_error}
use tuya_ble_mesh.Integration.Manager.{ConnectionManager, max_backoff, record_connection_error}
use tuya_ble_mesh.Integration.Manager.Reconnect.{
  Attempt, continues, finished, is_let_through, is_permanent, note_success, count_failure,
  retry_later, note_failure, after_connect, gives_up, after_delay, Looped, next_round,
  reconnect_loop,
}
use tuya_ble_mesh.Integration.Manager.Quiet.{Core, core, retry_later-core}
use tuya_ble_mesh.Integration.Manager.Success.{recovered, note_success-core, note_success_calms}

-- After so many failures.
abbrev pub failed : ℕ → Core → Core
failed n c = record c {
  total_errors = c.total_errors + n;
  connection_errors = c.connection_errors + n;
}

failed_zero : (c : Core) → failed zero c ≡ c
failed_zero c =
    ap₂ (λ (t : ℕ) (e : ℕ). record c { total_errors = t; connection_errors = e }) (omega arith)
      (omega arith)

failed_suc :
    (n : ℕ) (c : Core)
    → failed n (record c {
      total_errors = c.total_errors + 1;
      connection_errors = c.connection_errors + 1;
    })
      ≡ failed (suc n) c
failed_suc n c =
    ap₂ (λ (t : ℕ) (e : ℕ). record c { total_errors = t; connection_errors = e }) (omega arith)
      (omega arith)

-- The delays of so many failures and a success: each twice the one before, up to the maximum.
abbrev pub doubling : ℕ → ℕ → ℕ → ℕ → List ℕ
doubling zero i base limit = min (base * 2 ^ i) limit ∷ []
doubling (suc n) i base limit = min (base * 2 ^ i) limit ∷ doubling n (suc i) base limit

doubles :
    (i base limit : ℕ) → min (min (base * 2 ^ i) limit * 2) limit ≡ min (base * 2 ^ suc i) limit
doubles i base limit = omega (arith, ap (λ (t : ℕ). base * t) (pow-suc 2 i))

-- An attempt whose connect fails with an exception that is tried again.
abbrev pub TriedAgain : Attempt → Type 0
TriedAgain a =
    (a.stopped ≡ false)
    × ((failure : Failure) × ((a.failure ≡ some failure)
          × ((is_let_through failure.exception ≡ false)
              × (is_permanent (classify_error failure) ≡ false))))

-- So many more failures do not reach the limit.
abbrev pub Allowed : ℕ → ConnectionManager → Type 0
Allowed n m =
    (m.max_reconnect_failures ≡ 0) ⊎ (m.consecutive_failures + n < m.max_reconnect_failures)

gives_up-Allowed : (n : ℕ) (m : ConnectionManager) → Allowed n m → gives_up m ≡ false
unfolding gives_up
gives_up-Allowed n m h = ground (arith, h)

-- Where the loop ends: the delays, the fields, the storm and the issues.
pub record Recovered (n base limit i : ℕ) (before : Core) (looped : Looped) : Type 0 where
  pub ends : looped.next ≡ finished
  pub delays : looped.delays ≡ doubling n i base limit
  pub fields : core looped.manager ≡ recovered (failed n before)
  pub calm : looped.manager.stats.storm_detected ≡ false
  pub cleared : before.has_entry ≡ true → looped.manager.raised_repair_issues ≡ []

reconnect_loop_step :
    (a : Attempt) (attempts : List Attempt) (n : ℕ) (m : ConnectionManager)
    → m.running ≡ true
    → Allowed n m
    → reconnect_loop (a ∷ attempts) m
      ≡ next_round m.backoff (reconnect_loop attempts) (after_delay a m)
unfolding reconnect_loop
reconnect_loop_step a attempts n m on allowed = simp (on, gives_up-Allowed n m allowed)

after_delay-reconnects :
    (a : Attempt) (m : ConnectionManager)
    → m.running ≡ true
    → a.stopped ≡ false
    → a.failure ≡ none
    → after_delay a m ≡ (note_success a m, finished)
unfolding after_delay after_connect
after_delay-reconnects a m on goes connects = simp (on, goes, connects)

after_delay-fails :
    (a : Attempt) (failure : Failure) (m : ConnectionManager)
    → m.running ≡ true
    → a.stopped ≡ false
    → a.failure ≡ some failure
    → is_let_through failure.exception ≡ false
    → is_permanent (classify_error failure) ≡ false
    → after_delay a m
      ≡ (retry_later a.clock (classify_error failure) (count_failure a failure m), continues)
unfolding after_delay after_connect note_failure
after_delay-fails a failure m on goes fails program lasting =
    simp (on, goes, fails, program, lasting)

reconnect_loop-once :
    (base limit i : ℕ) (last : Attempt) (m : ConnectionManager)
    → m.running ≡ true
    → m.backoff ≡ min (base * 2 ^ i) limit
    → Allowed 0 m
    → last.stopped ≡ false
    → last.failure ≡ none
    → Recovered 0 base limit i (core m) (reconnect_loop (last ∷ []) m)
unfolding next_round
reconnect_loop-once base limit i last m on delay allowed goes connects =
    rw (reconnect_loop_step last [] 0 m on allowed, after_delay-reconnects last m on goes connects)
      (record {
        ends = refl;
        delays = ap (λ (d : ℕ). d ∷ []) delay;
        fields = note_success-core last m ∙ ap recovered (sym (failed_zero (core m)));
        calm = (note_success_calms last m).0;
        cleared = (note_success_calms last m).1;
      })

-- The rounds after a failure, with the failure before them.
reconnect_loop-again :
    (n base limit i : ℕ) (a : Attempt) (failure : Failure) (m later : ConnectionManager)
    (looped : Looped)
    → m.backoff ≡ min (base * 2 ^ i) limit
    → core later ≡ record (core (count_failure a failure m)) { backoff = min (m.backoff * 2) limit }
    → Recovered n base limit (suc i) (core later) looped
    → Recovered (suc n) base limit i (core m) (record looped { delays = m.backoff ∷ looped.delays })
unfolding count_failure record_connection_error
reconnect_loop-again n base limit i a failure m later looped delay same r = record {
  ends = r.ends;
  delays = ap₂ (λ (d : ℕ) (ds : List ℕ). d ∷ ds) delay r.delays;
  fields =
      r.fields
      ∙ ap (λ (c : Core). recovered (failed n c)) same
      ∙ ap recovered (failed_suc n (core m));
  calm = r.calm;
  cleared = λ h. r.cleared (ap (λ (c : Core). c.has_entry) same ∙ h);
}

retry-core :
    (limit : ℕ) (a : Attempt) (failure : Failure) (m : ConnectionManager)
    → max_backoff m ≡ limit
    → core (retry_later a.clock (classify_error failure) (count_failure a failure m))
      ≡ record (core (count_failure a failure m)) { backoff = min (m.backoff * 2) limit }
unfolding count_failure record_connection_error max_backoff
retry-core limit a failure m capped =
    retry_later-core a.clock (classify_error failure) (count_failure a failure m)
    ∙ ap (λ (l : ℕ). record (core (count_failure a failure m)) { backoff = min (m.backoff * 2) l })
        capped

Allowed-suc :
    (n : ℕ) (a : Attempt) (failure : Failure) (m later : ConnectionManager) (delay : ℕ)
    → core later ≡ record (core (count_failure a failure m)) { backoff = delay }
    → Allowed (suc n) m
    → Allowed n later
unfolding count_failure record_connection_error
Allowed-suc n a failure m later delay same (inl unlimited) =
    inl (ap (λ (c : Core). c.max_reconnect_failures) same ∙ unlimited)
Allowed-suc n a failure m later delay same (inr below) = inr (
    omega (
      arith,
      below,
      ap (λ (c : Core). c.max_reconnect_failures) same,
      ap (λ (c : Core). c.consecutive_failures) same,
    ))

later_fields :
    (delay : ℕ) (a : Attempt) (failure : Failure) (m later : ConnectionManager)
    → core later ≡ record (core (count_failure a failure m)) { backoff = delay }
    → (later.running ≡ m.running) × (max_backoff later ≡ max_backoff m)
unfolding count_failure record_connection_error max_backoff
later_fields delay a failure m later same = (
  ap (λ (c : Core). c.running) same,
  ap (λ (c : Core). if c.is_bridge then 120000 else 300000) same,
)

pub rounds-Recovered :
    (failures : List Attempt) (last : Attempt) (base limit i : ℕ) (m : ConnectionManager)
    → max_backoff m ≡ limit
    → m.running ≡ true
    → m.backoff ≡ min (base * 2 ^ i) limit
    → Allowed (length failures) m
    → All TriedAgain failures
    → last.stopped ≡ false
    → last.failure ≡ none
    → Recovered (length failures) base limit i (core m) (reconnect_loop (failures ++ (last ∷ [])) m)
unfolding next_round
rounds-Recovered [] last base limit i m capped on delay allowed failing goes connects =
    reconnect_loop-once base limit i last m on delay allowed goes connects
rounds-Recovered (a ∷ failures) last base limit i m capped on delay allowed
      ((runs, (failure, (fails, (program, lasting)))), failing) goes connects =
    let later = retry_later a.clock (classify_error failure) (count_failure a failure m) in
    let same = retry-core limit a failure m capped in
    let (runs_on, capped_too) = later_fields _ a failure m later same in
    rw
      (
        reconnect_loop_step a (failures ++ (last ∷ [])) (suc (length failures)) m on allowed,
        after_delay-fails a failure m on runs fails program lasting,
      )
      (reconnect_loop-again (length failures) base limit i a failure m later _ delay same (
        rounds-Recovered failures last base limit (suc i) later (capped_too ∙ capped) (runs_on ∙ on)
          (ap (λ (c : Core). c.backoff) same
            ∙ ap (λ (b : ℕ). min (b * 2) limit) delay
            ∙ doubles i base limit)
          (Allowed-suc (length failures) a failure m later _ same allowed) failing goes connects))
