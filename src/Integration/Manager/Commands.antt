-- ===== src/Integration/Manager/Commands.antt =====
-- A command that `send_command_with_retry` brings through after some failures.
use tuya_ble_mesh.Prelude.{ℕ, zero, suc, ◌+◌, ◌*◌, ◌^◌, ◌<◌, ◌≡◌, ap, ap₂, arith, false}
use tuya_ble_mesh.Prelude.{Option, some, none, List, [], ◌∷◌, ok, Error, lt→ltb}
use tuya_ble_mesh.Integration.Manager.{ConnectionManager}
use tuya_ble_mesh.Integration.Manager.Reconnect.{
  is_let_through, count_command_error, after_call, call_loop, send_command_with_retry,
}
use native.Mathlib.Nat.{pow-suc}

-- From one call on, so many fail with an exception that is tried again; the next returns.
abbrev pub FailsThenReturns : (ℕ → Option Error) → ℕ → ℕ → Type 0
FailsThenReturns call attempt zero = call attempt ≡ none
FailsThenReturns call attempt (suc failures) =
    ((e : Error) × ((call attempt ≡ some e) × (is_let_through e ≡ false)))
    × FailsThenReturns call (attempt + 1) failures

-- The delays after so many failures, each twice the one before.
abbrev pub waits : ℕ → ℕ → ℕ → List ℕ
waits zero i base = []
waits (suc n) i base = (base * 2 ^ i) ∷ waits n (suc i) base

abbrev pub counted : ℕ → ConnectionManager → ConnectionManager
counted n m = record m {
  stats = record m.stats {
    command_errors = m.stats.command_errors + n;
    total_errors = m.stats.total_errors + n;
  };
}

counted_zero : (m : ConnectionManager) → m ≡ counted zero m
counted_zero m =
    ap₂
      (λ (c : ℕ) (t : ℕ). record m {
        stats = record m.stats { command_errors = c; total_errors = t };
      })
      (omega arith) (omega arith)

counted_suc :
    (n : ℕ) (m : ConnectionManager) → counted n (count_command_error m) ≡ counted (suc n) m
unfolding count_command_error
counted_suc n m =
    ap₂
      (λ (c : ℕ) (t : ℕ). record m {
        stats = record m.stats { command_errors = c; total_errors = t };
      })
      (omega arith) (omega arith)

call_loop-returns :
    (failures left base i attempt delay : ℕ) (call : ℕ → Option Error) (m : ConnectionManager)
    → delay ≡ base * 2 ^ i
    → failures < left
    → FailsThenReturns call attempt failures
    → call_loop left delay call attempt m ≡ record {
      manager = counted failures m;
      calls = failures + 1;
      delays = waits failures i base;
      outcome = ok tt;
    }
unfolding call_loop after_call
call_loop-returns zero (suc left) base i attempt delay call m d h returns = rw returns (
    ap (λ (n : ConnectionManager). record { manager = n; calls = 1; delays = []; outcome = ok tt })
      (counted_zero m))
call_loop-returns (suc failures) (suc left) base i attempt delay call m d h
      ((e, (fails, program)), later) =
    let more =
      call_loop-returns failures left base (suc i) (attempt + 1) (delay * 2) call
        (count_command_error m) (omega (arith, d, ap (λ (t : ℕ). base * t) (pow-suc 2 i)))
        (omega (arith, h)) later in
    let managers = counted_suc failures m in
    let total : 1 + (failures + 1) ≡ suc failures + 1 = omega arith in
    rw (fails, program, lt→ltb 0 left (omega (arith, h)), more)
      (λ j. record {
        manager = managers j;
        calls = total j;
        delays = d j ∷ waits failures (suc i) base;
        outcome = ok tt;
      })
call_loop-returns failures left base i attempt delay call m d h _ = absurd (omega (arith, h))

-- Where the first calls fail with exceptions that are tried again, fewer than `max_retries` of them,
-- and the next returns, the command returns; it was called once more than it failed, after delays
-- that double from the first one, and the manager differs only in that each failure is counted.
pub send_command_with_retry-returns :
    (failures max_retries base_delay : ℕ) (call : ℕ → Option Error) (m : ConnectionManager)
    → failures < max_retries
    → FailsThenReturns call 1 failures
    → send_command_with_retry max_retries base_delay call m ≡ record {
      manager = counted failures m;
      calls = failures + 1;
      delays = waits failures 0 base_delay;
      outcome = ok tt;
    }
unfolding send_command_with_retry
send_command_with_retry-returns failures max_retries base_delay call m h f =
    call_loop-returns failures max_retries base_delay 0 1 base_delay call m (omega arith) h f
