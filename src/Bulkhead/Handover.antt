-- ===== src/Bulkhead/Handover.antt =====
-- The callbacks of a finished task in src/queue/bulkhead.ts, which free its permit and its slot.
use vereda.Common.{
  ℕ, suc, ◌-◌, ◌<◌, ◌≡◌, refl, sym, ◌∙◌, true, false, some, List, [], ◌∷◌, inl, inr, Bool-cases,
  includes, ltb, arith,
}
use vereda.Semaphore
use vereda.Semaphore.{Semaphore, Acquired, resolved}
use vereda.Bulkhead.{
  Bulkhead, awaits, runs_task, execute, drain_from, drain_wait_queue, release_slot, phase_of,
  without, release_permit, is_granted, leave, on_task_settled,
}

release_free :
    (s : Semaphore) (p : ℕ)
    → includes p s.releases ≡ true
    → s.wait_queue ≡ []
    → (0 < (Semaphore.release s p).available) × ((Semaphore.release s p).next_call ≡ s.next_call)
unfolding Semaphore.release Semaphore.drain Semaphore.drain_from
release_free s p h e = rw (h, e) (omega arith, refl)

acquire_free :
    (s : Semaphore)
    → 0 < s.available
    → ((Semaphore.acquire s false).1 ≡ resolved)
      × (includes s.next_call (Semaphore.acquire s false).0.releases ≡ true)
unfolding Semaphore.acquire Semaphore.grant
acquire_free s h = elim (Bool-cases (ltb 0 s.available)) [
  | inl e ↦ rw e (refl, ground arith)
  | inr e ↦ ground (arith, h, e)
]

drain_from-full :
    (q : List ℕ) (b : Bulkhead)
    → b.running ≡ b.concurrency
    → ((drain_from q b).flights ≡ b.flights) × ((drain_from q b).semaphore ≡ b.semaphore)
unfolding drain_from
drain_from-full [] b h = (refl, refl)
drain_from-full (next ∷ rest) b h = elim (Bool-cases (ltb b.running b.concurrency)) [
  | inl e ↦ ground (arith, h, e)
  | inr e ↦ rw e (refl, refl)
]

-- With a permit free the call that gets a slot gets the permit too.
record Granted (call permit : ℕ) (b b' : Bulkhead) : Type 0 where
  one_more : b'.running ≡ suc b.running
  same_slots : b'.concurrency ≡ b.concurrency
  phase : phase_of call b'.flights ≡ some (awaits permit)
  granted : is_granted permit b'.semaphore ≡ true

execute_free :
    (call : ℕ) (b : Bulkhead) (s : Semaphore)
    → b.semaphore ≡ some s
    → 0 < s.available
    → Granted call s.next_call b (execute call b)
unfolding execute
execute_free call b s e free =
    let a = acquire_free s free in
    rw (e, execute, a.0)
      (record { one_more = refl; same_slots = refl; phase = ground arith; granted = a.1 })

-- With one slot free the loop runs the oldest waiter, and no other.
drain_from-one :
    (next : ℕ) (rest : List ℕ) (b : Bulkhead) (s : Semaphore) (n : ℕ)
    → suc b.running ≡ b.concurrency
    → b.semaphore ≡ some s
    → 0 < s.available
    → s.next_call ≡ n
    → let b' = drain_from (next ∷ rest) b in
      (phase_of next b'.flights ≡ some (awaits n)) × (is_granted n b'.semaphore ≡ true)
unfolding drain_from
drain_from-one next rest b s n h e free named = elim (Bool-cases (ltb b.running b.concurrency)) [
  | inl l ↦
      let b0 : Bulkhead = record b { wait_queue = rest } in
      let x = execute_free next b0 s e free in
      let full = drain_from-full rest (execute next b0) (x.one_more ∙ h ∙ sym x.same_slots) in
      rw (l, full.0, full.1, ← named) (x.phase, x.granted)
  | inr l ↦ ground (arith, h, l)
]

-- When a task that holds a permit settles while every slot is taken and calls are queued for one,
-- the oldest of them gets the slot and is granted a global permit at once, in the same step, if
-- nobody waits for one elsewhere: it is neither refused nor queued at the semaphore, even if no
-- permit was free before and the semaphore's own queue has no room.
pub on_task_settled-hands_over :
    (b : Bulkhead) (s : Semaphore) (call permit next : ℕ) (rest : List ℕ)
    → b.semaphore ≡ some s
    → phase_of call b.flights ≡ some (runs_task (some permit))
    → includes permit s.releases ≡ true
    → s.wait_queue ≡ []
    → b.wait_queue ≡ next ∷ rest
    → b.running ≡ b.concurrency
    → 0 < b.running
    → let b' = on_task_settled b call in
      (phase_of next b'.flights ≡ some (awaits s.next_call))
      × (is_granted s.next_call b'.semaphore ≡ true)
unfolding on_task_settled leave release_slot drain_wait_queue release_permit
on_task_settled-hands_over b s call permit next rest es ep held idle eq full busy =
    let free = release_free s permit held idle in
    let one =
      drain_from-one next rest
        (record b {
          semaphore = some (Semaphore.release s permit);
          flights = without call b.flights;
          running = b.running - 1;
          wait_queue = next ∷ rest;
        })
        (Semaphore.release s permit) s.next_call (omega (arith, full, busy)) refl free.0 free.1 in
    rw (ep, on_task_settled, es, eq) one
