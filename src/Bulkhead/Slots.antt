-- ===== src/Bulkhead/Slots.antt =====
-- The invariant of the slots and the queue of src/queue/bulkhead.ts over a history.
use vereda.Common.{
  ℕ, suc, ◌+◌, ◌-◌, ◌≤◌, ◌≡◌, refl, sym, ap, ◌∙◌, ◌⊎◌, inl, inr, String, Bool, Option, none, some,
  List, [], ◌∷◌, length, length-append, length-erase, includes, Bool-cases, Option-cases, ltb,
  or_default, arith,
}
use vereda.Errors.{cancelled_error}
use vereda.Semaphore
use vereda.Semaphore.{Semaphore}
use vereda.Bulkhead.{
  Bulkhead, PartitionConfig, Phase, awaits, refused, runs_task, Flight, Outcome, of_task, of_error,
  Op, runs, permits, refuses, settles, aborts, elsewhere, new, execute, drain_from,
  drain_wait_queue, release_slot, run_call, phase_of, without, in_phase, release_permit, leave,
  on_permit, on_refused, on_task_settled, abort_permit, on_abort, step, run_all, is_granted,
  use_elsewhere, default_concurrency, default_max_queue_size,
}

-- `c` slots, a queue of `m` calls, and `due` calls whose promise is about to settle.
pub record Inv (c m due : ℕ) (b : Bulkhead) : Type 0 where
  pub slots : b.concurrency ≡ c
  pub limit : b.max_queue_size ≡ m
  pub counted : b.running ≡ length b.flights
  pub capped : b.running ≤ c
  pub bounded : length b.wait_queue ≤ m
  pub no_idle : (b.wait_queue ≡ []) ⊎ (b.running ≡ c)
  pub conserved : length b.wait_queue + length b.flights + length b.outcomes + due ≡ b.next_call

length-in_phase :
    (call : ℕ) (p : Phase) (fs : List Flight) → length (in_phase call p fs) ≡ length fs
length-in_phase call p [] = refl
length-in_phase call p ((c, q) ∷ fs) = ground (arith, length-in_phase call p fs)

length-without :
    (call : ℕ) (p : Phase) (fs : List Flight)
    → phase_of call fs ≡ some p
    → suc (length (without call fs)) ≡ length fs
length-without call p [] h = ground (arith, h)
length-without call p ((c, q) ∷ fs) h = ground (arith, h, length-without call p fs)

-- What `execute` does to everything but the semaphore.
record Executed (b b' : Bulkhead) : Type 0 where
  one_more : b'.running ≡ suc b.running
  one_flight : length b'.flights ≡ suc (length b.flights)
  same_slots : b'.concurrency ≡ b.concurrency
  same_limit : b'.max_queue_size ≡ b.max_queue_size
  same_queue : b'.wait_queue ≡ b.wait_queue
  same_outcomes : b'.outcomes ≡ b.outcomes
  same_calls : b'.next_call ≡ b.next_call

execute_lem : (call : ℕ) (b : Bulkhead) → Executed b (execute call b)
unfolding execute
execute_lem call b = elim (Option-cases b.semaphore) [
  | inl e ↦ rw e (record {
    one_more = refl;
    one_flight = refl;
    same_slots = refl;
    same_limit = refl;
    same_queue = refl;
    same_outcomes = refl;
    same_calls = refl;
  })
  | inr (s, e) ↦ rw e (record {
    one_more = refl;
    one_flight = refl;
    same_slots = refl;
    same_limit = refl;
    same_queue = refl;
    same_outcomes = refl;
    same_calls = refl;
  })
]

-- The queue of the loop is `q`; the loop ends with every slot taken or nobody waiting.
drain_from-Inv :
    (c m due : ℕ) (q : List ℕ) (b : Bulkhead)
    → b.concurrency ≡ c
    → b.max_queue_size ≡ m
    → b.running ≡ length b.flights
    → b.running ≤ c
    → length q ≤ m
    → length q + length b.flights + length b.outcomes + due ≡ b.next_call
    → Inv c m due (drain_from q b)
unfolding drain_from
drain_from-Inv c m due [] b hs hl hc hk hb hv = record {
  slots = hs;
  limit = hl;
  counted = hc;
  capped = hk;
  bounded = hb;
  no_idle = inl refl;
  conserved = hv;
}
drain_from-Inv c m due (next ∷ rest) b hs hl hc hk hb hv =
    elim (Bool-cases (ltb b.running b.concurrency)) [
      | inl e ↦
          let b0 : Bulkhead = record b { wait_queue = rest } in
          let x = execute_lem next b0 in
          rw e (
            drain_from-Inv c m due rest (execute next b0) (x.same_slots ∙ hs) (x.same_limit ∙ hl)
              (omega (arith, x.one_more, x.one_flight, hc)) (ground (arith, x.one_more, e, hs))
              (omega (arith, hb))
              (ground (
                arith,
                x.one_flight,
                ap (λ (l : List (ℕ × Outcome)). length l) x.same_outcomes,
                x.same_calls,
                hv,
              )))
      | inr e ↦ rw e (record {
        slots = hs;
        limit = hl;
        counted = hc;
        capped = hk;
        bounded = hb;
        no_idle = inr (ground (arith, e, hs, hk));
        conserved = hv;
      })
    ]

-- The operations that touch neither a slot nor the queue.
semaphore-Inv :
    (c m due : ℕ) (b : Bulkhead) (s : Option Semaphore) (fs : List Flight)
    → length fs ≡ length b.flights
    → Inv c m due b
    → Inv c m due (record b { semaphore = s; flights = fs })
semaphore-Inv c m due b s fs h v = record {
  slots = v.slots;
  limit = v.limit;
  counted = v.counted ∙ sym h;
  capped = v.capped;
  bounded = v.bounded;
  no_idle = v.no_idle;
  conserved = omega (arith, h, v.conserved);
}

run_call-Inv :
    (c m : ℕ) (b : Bulkhead) (aborted : Bool) → Inv c m 0 b → Inv c m 0 (run_call b aborted)
unfolding run_call
run_call-Inv c m b aborted v =
    let x = execute_lem b.next_call (record b { next_call = suc b.next_call }) in
    let outcomes = ap (λ (l : List (ℕ × Outcome)). length l) x.same_outcomes in
    let queue = ap (λ (l : List ℕ). length l) x.same_queue in
    let longer = length-append b.wait_queue (b.next_call ∷ []) in
    record {
      slots = ground (arith, x.same_slots, v.slots);
      limit = ground (arith, x.same_limit, v.limit);
      counted = ground (arith, x.one_more, x.one_flight, v.counted);
      capped = ground (arith, x.one_more, v.capped, v.slots);
      bounded = ground (arith, queue, v.bounded, longer, v.limit);
      no_idle = ground (arith, x.same_queue, x.one_more, v.no_idle, v.slots, v.capped);
      conserved = ground (arith, x.one_flight, outcomes, queue, x.same_calls, longer, v.conserved);
    }

leave-Inv :
    (c m : ℕ) (b : Bulkhead) (call : ℕ) (p : Phase) (outcome : Outcome)
    → phase_of call b.flights ≡ some p
    → Inv c m 0 b
    → Inv c m 0 (leave call outcome b)
unfolding leave release_slot drain_wait_queue
leave-Inv c m b call p outcome h v =
    let fewer = length-without call p b.flights h in
    let d =
      drain_from-Inv c m 1 b.wait_queue
        (record b { flights = without call b.flights; running = b.running - 1 }) v.slots v.limit
        (omega (arith, fewer, v.counted)) (omega (arith, v.capped)) v.bounded
        (omega (arith, fewer, v.conserved)) in
    record {
      slots = d.slots;
      limit = d.limit;
      counted = d.counted;
      capped = d.capped;
      bounded = d.bounded;
      no_idle = d.no_idle;
      conserved = omega (arith, d.conserved);
    }

on_permit-Inv : (c m : ℕ) (b : Bulkhead) (call : ℕ) → Inv c m 0 b → Inv c m 0 (on_permit b call)
unfolding on_permit
on_permit-Inv c m b call v = elim (Option-cases (phase_of call b.flights)) [
  | inl e ↦ rw (e, on_permit) v
  | inr (awaits p, e) ↦
      rw (e, on_permit)
        (elim (Bool-cases (is_granted p b.semaphore)) [
          | inl g ↦ rw g (
              semaphore-Inv c m 0 b b.semaphore (in_phase call (runs_task (some p)) b.flights)
                (length-in_phase call (runs_task (some p)) b.flights) v)
          | inr g ↦ rw g v
        ])
  | inr (refused x, e) ↦ rw (e, on_permit) v
  | inr (runs_task q, e) ↦ rw (e, on_permit) v
]

on_refused-Inv : (c m : ℕ) (b : Bulkhead) (call : ℕ) → Inv c m 0 b → Inv c m 0 (on_refused b call)
unfolding on_refused
on_refused-Inv c m b call v = elim (Option-cases (phase_of call b.flights)) [
  | inl e ↦ rw (e, on_refused) v
  | inr (awaits p, e) ↦ rw (e, on_refused) v
  | inr (refused x, e) ↦ rw (e, on_refused) (leave-Inv c m b call (refused x) (of_error x) e v)
  | inr (runs_task q, e) ↦ rw (e, on_refused) v
]

on_task_settled-Inv :
    (c m : ℕ) (b : Bulkhead) (call : ℕ) → Inv c m 0 b → Inv c m 0 (on_task_settled b call)
unfolding on_task_settled
on_task_settled-Inv c m b call v = elim (Option-cases (phase_of call b.flights)) [
  | inl e ↦ rw (e, on_task_settled) v
  | inr (awaits p, e) ↦ rw (e, on_task_settled) v
  | inr (refused x, e) ↦ rw (e, on_task_settled) v
  | inr (runs_task q, e) ↦
      rw (e, on_task_settled)
        (leave-Inv c m (record b { semaphore = release_permit q b.semaphore }) call (runs_task q)
          of_task e (semaphore-Inv c m 0 b (release_permit q b.semaphore) b.flights refl v))
]

abort_permit-Inv :
    (c m : ℕ) (b : Bulkhead) (call p : ℕ) (s : Option Semaphore)
    → Inv c m 0 b
    → Inv c m 0 (abort_permit b call p s)
unfolding abort_permit
abort_permit-Inv c m b call p none v = v
abort_permit-Inv c m b call p (some s) v = elim (Bool-cases (includes p s.wait_queue)) [
  | inl e ↦ rw e (
      semaphore-Inv c m 0 b (some (Semaphore.on_abort s p))
        (in_phase call (refused cancelled_error) b.flights)
        (length-in_phase call (refused cancelled_error) b.flights) v)
  | inr e ↦ rw e v
]

on_abort-Inv : (c m : ℕ) (b : Bulkhead) (call : ℕ) → Inv c m 0 b → Inv c m 0 (on_abort b call)
unfolding on_abort
on_abort-Inv c m b call v = elim (Bool-cases (includes call b.wait_queue)) [
  | inl e ↦
      let shorter = length-erase call b.wait_queue in
      rw e (record {
        slots = v.slots;
        limit = v.limit;
        counted = v.counted;
        capped = v.capped;
        bounded = omega (arith, shorter, v.bounded);
        no_idle = ground (arith, v.no_idle, e);
        conserved = ground (arith, shorter, e, v.conserved);
      })
  | inr e ↦ rw e (elim (Option-cases (phase_of call b.flights)) [
    | inl f ↦ rw f v
    | inr (awaits p, f) ↦ rw f (abort_permit-Inv c m b call p b.semaphore v)
    | inr (refused x, f) ↦ rw f v
    | inr (runs_task q, f) ↦ rw f v
  ])
]

step-Inv : (c m : ℕ) (b : Bulkhead) (op : Op) → Inv c m 0 b → Inv c m 0 (step b op)
unfolding step
step-Inv c m b (runs aborted) v = run_call-Inv c m b aborted v
step-Inv c m b (permits call) v = on_permit-Inv c m b call v
step-Inv c m b (refuses call) v = on_refused-Inv c m b call v
step-Inv c m b (settles call) v = on_task_settled-Inv c m b call v
step-Inv c m b (aborts call) v = on_abort-Inv c m b call v
step-Inv c m b (elsewhere op) v =
    semaphore-Inv c m 0 b (use_elsewhere b.semaphore op) b.flights refl v

run_all-Inv : (c m : ℕ) (b : Bulkhead) (ops : List Op) → Inv c m 0 b → Inv c m 0 (run_all b ops)
unfolding run_all
run_all-Inv c m b [] v = v
run_all-Inv c m b (op ∷ ops) v = run_all-Inv c m (step b op) ops (step-Inv c m b op v)

-- After every history of a partition, its callers and the other users of the semaphore, in any order:
-- the running count is the number of calls that hold a slot and is at most the concurrency; at most
-- the queue's limit are queued; while one is queued every slot is taken; and the calls that are queued,
-- that hold a slot and whose promise has settled add up to the calls that were made.
pub run_all-new-Inv :
    (name : String) (config : PartitionConfig) (semaphore : Option Semaphore) (ops : List Op)
    → Inv
        (or_default config.concurrency default_concurrency)
        (or_default config.max_queue_size default_max_queue_size)
        0
        (run_all (new name config semaphore) ops)
unfolding new
run_all-new-Inv name config semaphore ops =
    run_all-Inv (or_default config.concurrency default_concurrency)
      (or_default config.max_queue_size default_max_queue_size) (new name config semaphore) ops
      (record {
        slots = refl;
        limit = refl;
        counted = refl;
        capped = omega arith;
        bounded = omega arith;
        no_idle = inl refl;
        conserved = refl;
      })
