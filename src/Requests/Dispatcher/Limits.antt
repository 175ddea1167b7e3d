-- ===== src/Requests/Dispatcher/Limits.antt =====
-- The limits on requests in flight, over every interleaving of the pieces of the dispatcher's code.
use tuya_ble_mesh.Prelude.{
  ℕ, ◌+◌, ◌-◌, ◌≤◌, ◌≡◌, refl, subst, arith, true, false, none, some, List, [], ◌∷◌, length,
}
use tuya_ble_mesh.Prelude.{ltb, Bool-cases, if-cases, not, Option-cases, inl, inr, Bool}
use tuya_ble_mesh.Prelude.Dict.{lookup, erase}
use tuya_ble_mesh.Requests.Request.{CommandRequest, CommandResult, is_expired}
use tuya_ble_mesh.Requests.Dispatcher.{
  Dispatcher, new_dispatcher, enqueue, accept, reject_expired, coalesce_loop,
}
use tuya_ble_mesh.Requests.Dispatcher.{
  take_next, poll_capacity, launch, can_send, complete_request, complete_all, land,
}
use tuya_ble_mesh.Requests.Dispatcher.{start, stop, count_of, timed_out}
use tuya_ble_mesh.Requests.Dispatcher.Flying.{
  flying, length-insert, length-erase, flying-insert, flying-erase, count_of-insert,
}
use native.Mathlib.Decide.{ℕ_discrete}
use mathlib.Core.Logic.{ite}

-- The code between two points of suspension, with the number of tasks that outlived a stop and end
-- here. The identifiers of requests are UUIDs, so the one that the worker holds is not in flight. A
-- task goes on after a stop: it finds its request gone, and while the dispatcher is stopped no counter.
pub data Step : ℕ → Dispatcher → Dispatcher → Type 0 where
  enqueued : {d : Dispatcher} (r : CommandRequest) (now : ℕ) → Step 0 d (enqueue d r now).0
  taken : {d : Dispatcher} (now : ℕ) → Step 0 d (take_next d now)
  polled :
      {d : Dispatcher} (r : CommandRequest) (now : ℕ)
      → d.held ≡ some r
      → lookup ℕ_discrete r.request_id d.in_flight ≡ none
      → Step 0 d (poll_capacity d r now)
  completed :
      {d : Dispatcher} (r : CommandRequest) (result : CommandResult)
      → Step 0 d (complete_request d r result)
  expired : {d : Dispatcher} (rs : List CommandRequest) (now : ℕ) → Step 0 d (complete_all d rs now)
  landed :
      {d : Dispatcher} (r : CommandRequest)
      → lookup ℕ_discrete r.request_id d.in_flight ≡ some r
      → Step 0 d (land d r)
  landed_late : {d : Dispatcher} (r : CommandRequest) → d.running ≡ false → Step 0 d (land d r)
  landed_lost :
      {d : Dispatcher} (r : CommandRequest)
      → lookup ℕ_discrete r.request_id d.in_flight ≡ none
      → Step 1 d (land d r)
  started : {d : Dispatcher} → Step 0 d (start d)
  stopped : {d : Dispatcher} → Step 0 d (stop d)

-- A run, with the number of tasks in it that outlived a stop and ended after the next start.
pub data Reach (a : Dispatcher) : ℕ → Dispatcher → Type 0 where
  here : Reach a 0 a
  next : {m n : ℕ} {b c : Dispatcher} → Reach a m b → Step n b c → Reach a (m + n) c

-- The five fields that the limits look at: the settings, the requests in flight, their counts, and
-- whether the dispatcher runs.
pub record Fits (per_device_limit total_limit lost device_setting total_setting : ℕ)
    (in_flight : List (ℕ × CommandRequest)) (counts : List (ℕ × ℕ)) (running : Bool) : Type 0 where
  pub device_set : device_setting ≡ per_device_limit
  pub total_set : total_setting ≡ total_limit
  pub total : length in_flight ≤ total_limit
  pub device : (node : ℕ) → count_of node counts ≤ per_device_limit
  pub counted : (node : ℕ) → count_of node counts ≤ flying node in_flight
  pub missed : (node : ℕ) → flying node in_flight ≤ count_of node counts + lost
  pub idle : running ≡ false → (in_flight ≡ []) × (counts ≡ [])

abbrev pub Within : ℕ → ℕ → ℕ → Dispatcher → Type 0
Within p t n d =
    Fits p t n d.per_device_limit d.total_limit d.in_flight d.in_flight_per_device d.running

complete_all-Within :
    (p t n : ℕ) (d : Dispatcher) (rs : List CommandRequest) (now : ℕ)
    → Within p t n d
    → Within p t n (complete_all d rs now)
unfolding complete_all complete_request
complete_all-Within p t n d [] now w = w
complete_all-Within p t n d (r ∷ rs) now w =
    complete_all-Within p t n (complete_request d r (timed_out r now)) rs now w

enqueue-Within :
    (p t n : ℕ) (d : Dispatcher) (r : CommandRequest) (now : ℕ)
    → Within p t n d
    → Within p t n (enqueue d r now).0
unfolding enqueue accept reject_expired
enqueue-Within p t n d r now w = elim (Bool-cases (is_expired r now)) [
  | inl late ↦ rw late w
  | inr fresh ↦ elim (Option-cases (coalesce_loop d r now d.in_flight)) [
    | inl new ↦ rw (fresh, new) w
    | inr (future, old) ↦ rw (fresh, old) w
  ]
]

nothing_flies :
    (p t n device_setting total_setting : ℕ) (running : Bool)
    → device_setting ≡ p
    → total_setting ≡ t
    → Fits p t n device_setting total_setting [] [] running
unfolding flying lookup
nothing_flies p t n device_setting total_setting running device_set total_set = record {
  device_set = device_set;
  total_set = total_set;
  total = omega arith;
  device = λ node. omega arith;
  counted = λ node. omega arith;
  missed = λ node. omega arith;
  idle = λ h. (refl, refl);
}

launch-Within :
    (p t n : ℕ) (d : Dispatcher) (r : CommandRequest)
    → Within p t n d
    → d.running ≡ true
    → can_send d r ≡ true
    → lookup ℕ_discrete r.request_id d.in_flight ≡ none
    → Within p t n (launch d r)
unfolding launch can_send
launch-Within p t n d r w on free fresh = record {
  device_set = w.device_set;
  total_set = w.total_set;
  total = ground (arith, length-insert r.request_id r d.in_flight fresh, w.total_set);
  device = λ node. rw count_of-insert (ground (arith, w.device_set, w.device node));
  counted = λ node.
      rw (count_of-insert, flying-insert node r.request_id r d.in_flight fresh)
        (ground (arith, w.counted node, w.counted r.target_node));
  missed = λ node.
      rw (count_of-insert, flying-insert node r.request_id r d.in_flight fresh)
        (ground (arith, w.missed node, w.missed r.target_node));
  idle = λ off. ground (arith, on, off);
}

poll_capacity-Within :
    (p t n : ℕ) (d : Dispatcher) (r : CommandRequest) (now : ℕ)
    → Within p t n d
    → lookup ℕ_discrete r.request_id d.in_flight ≡ none
    → Within p t n (poll_capacity d r now)
unfolding poll_capacity complete_request
poll_capacity-Within p t n d r now w fresh =
    if-cases (Within p t n) (not d.running) _ _ (λ off. w)
      λ on.
        if-cases (Within p t n) (is_expired r now) _ _ (λ late. w)
          λ early.
            if-cases (Within p t n) (can_send d r) _ _
              (λ free. launch-Within p t n d r w (running d.running on) free fresh) (λ full. w)
  where
    running : (b : Bool) → not b ≡ false → b ≡ true
    running true h = refl
    running false h = ground (arith, h)

-- The counters after a task has ended.
land-count :
    (d : Dispatcher) (r : CommandRequest) (node : ℕ)
    → count_of node (land d r).in_flight_per_device
      ≡ ite
          (ℕ_discrete r.target_node node)
          (count_of r.target_node d.in_flight_per_device - 1)
          (count_of node d.in_flight_per_device)
unfolding land
land-count d r node =
    if-cases
      (λ (c : List (ℕ × ℕ)).
        count_of node c
        ≡ ite (ℕ_discrete r.target_node node) (count_of r.target_node d.in_flight_per_device - 1)
            (count_of node d.in_flight_per_device))
      (ltb 0 (count_of r.target_node d.in_flight_per_device)) _ _
      (λ some. count_of-insert r.target_node node _ d.in_flight_per_device) (λ none. ground arith)

land-Within :
    (p t n : ℕ) (d : Dispatcher) (r : CommandRequest)
    → Within p t n d
    → lookup ℕ_discrete r.request_id d.in_flight ≡ some r
    → Within p t n (land d r)
unfolding land
land-Within p t n d r w there = record {
  device_set = w.device_set;
  total_set = w.total_set;
  total = omega (arith, length-erase r.request_id r d.in_flight there, w.total);
  device = λ node. rw land-count (ground (arith, w.device node, w.device r.target_node));
  counted = λ node.
      rw land-count
        (ground (arith, flying-erase node r.request_id r d.in_flight there, w.counted node));
  missed = λ node.
      rw land-count
        (ground (arith, flying-erase node r.request_id r d.in_flight there, w.missed node));
  idle = λ off.
      let (gone, _) = w.idle off in
      ground (arith, gone, length-erase r.request_id r d.in_flight there);
}

erase_absent :
    {A : Type 0} (k : ℕ) (xs : List (ℕ × A))
    → lookup ℕ_discrete k xs ≡ none
    → erase ℕ_discrete k xs ≡ xs
unfolding lookup erase
erase_absent k [] h = refl
erase_absent k ((j, v) ∷ xs) h = ground (arith, erase_absent k xs)

-- A task whose request is gone may take one from the counter of another request.
land_lost-Within :
    (p t n : ℕ) (d : Dispatcher) (r : CommandRequest)
    → Within p t n d
    → lookup ℕ_discrete r.request_id d.in_flight ≡ none
    → Within p t (n + 1) (land d r)
unfolding land lookup
land_lost-Within p t n d r w gone = rw (erase_absent r.request_id d.in_flight gone) record {
  device_set = w.device_set;
  total_set = w.total_set;
  total = w.total;
  device = λ node. rw land-count (ground (arith, w.device node, w.device r.target_node));
  counted = λ node. rw land-count (ground (arith, w.counted node, w.counted r.target_node));
  missed = λ node. rw land-count (ground (arith, w.missed node, w.missed r.target_node));
  idle = λ off. let (no_flight, no_count) = w.idle off in (no_flight, rw no_count refl);
}

land_late-Within :
    (p t n : ℕ) (d : Dispatcher) (r : CommandRequest)
    → Within p t n d
    → d.running ≡ false
    → Within p t n (land d r)
unfolding land lookup erase
land_late-Within p t n d r w off =
    let (no_flight, no_count) = w.idle off in
    rw (no_flight, no_count) (nothing_flies p t n _ _ d.running w.device_set w.total_set)

take_next-Within :
    (p t n : ℕ) (d : Dispatcher) (now : ℕ) → Within p t n d → Within p t n (take_next d now)
unfolding take_next complete_request
take_next-Within p t n d now w =
    elim d.queue as (λ q. Within p t n (take_next (record d { queue = q }) now)) [
      | [] ↦ w
      | (r ∷ rest) ↦ if-cases (Within p t n) (is_expired r now) _ _ (λ late. w) (λ early. w)
    ]

as_many : (p t n : ℕ) (d : Dispatcher) → Within p t n d → Within p t (n + 0) d
as_many p t n d w = subst (λ m. Within p t m d) (omega arith) w

Step-Within :
    (p t n : ℕ) {k : ℕ} {d e : Dispatcher} → Step k d e → Within p t n d → Within p t (n + k) e
unfolding complete_request start stop
Step-Within p t n {d = d} {e = e} (enqueued r now) w =
    as_many p t n e (enqueue-Within p t n d r now w)
Step-Within p t n {d = d} {e = e} (taken now) w = as_many p t n e (take_next-Within p t n d now w)
Step-Within p t n {d = d} {e = e} (polled r now held fresh) w =
    as_many p t n e (poll_capacity-Within p t n d r now w fresh)
Step-Within p t n {d = d} {e = e} (completed r result) w = as_many p t n e w
Step-Within p t n {d = d} {e = e} (expired rs now) w =
    as_many p t n e (complete_all-Within p t n d rs now w)
Step-Within p t n {d = d} {e = e} (landed r there) w =
    as_many p t n e (land-Within p t n d r w there)
Step-Within p t n {d = d} {e = e} (landed_late r off) w =
    as_many p t n e (land_late-Within p t n d r w off)
Step-Within p t n {d = d} {e = e} (landed_lost r gone) w = land_lost-Within p t n d r w gone
Step-Within p t n {d = d} {e = e} started w = as_many p t n e (
    if-cases (Within p t n) d.running _ _ (λ on. w)
      (λ off.
        let (no_flight, no_count) = w.idle off in
        record {
          device_set = w.device_set;
          total_set = w.total_set;
          total = w.total;
          device = w.device;
          counted = w.counted;
          missed = w.missed;
          idle = λ h. (no_flight, no_count);
        }))
Step-Within p t n {d = d} {e = e} stopped w = as_many p t n e (
    if-cases (Within p t n) d.running _ _
      (λ on. nothing_flies p t n _ _ false w.device_set w.total_set) (λ off. w))

Reach-Within :
    (p t : ℕ) {a : Dispatcher} {n : ℕ} {b : Dispatcher}
    → Reach a n b
    → Within p t 0 a
    → Within p t n b
Reach-Within p t here w = w
Reach-Within p t (next {m = m} run s) w = Step-Within p t m s (Reach-Within p t run w)

-- After any sequence of steps from a new dispatcher, in which so many tasks outlived a stop and ended
-- after the next start: there are at most `total_limit` requests in flight, none when the dispatcher is
-- stopped; the counter of each node is at most `per_device_limit` and at most the number of its
-- requests in flight, which is at most that counter and those tasks together.
pub Reach-new_dispatcher :
    (p t window n : ℕ) (d : Dispatcher) → Reach (new_dispatcher p t window) n d → Within p t n d
unfolding new_dispatcher
Reach-new_dispatcher p t window n d run =
    Reach-Within p t run (nothing_flies p t 0 p t false refl refl)
