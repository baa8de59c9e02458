-- ===== src/Registry/Sweep.antt =====
-- What the sweeps of a registry leave.
use vereda.Common.{
  ℕ, suc, ◌+◌, ◌≤◌, ◌≡◌, refl, Bool, false, Option, some, List, [], ◌∷◌, length, keep,
  length-keep-le, or_default, arith,
}
use vereda.Common.Text.{Text, text_eq_refl}
use vereda.Registry.{
  Slot, PartitionRegistry, new, lookup, touch, stays, prune, adjust_size_sweep_trigger, sweep, get,
  Op, gets, prunes, step, run,
}

pub record Bounded {T : Type 0} (r : PartitionRegistry T) : Type 0 where
  pub few : length r.entries ≤ r.size_sweep_trigger
  pub floor : 100 ≤ r.size_sweep_trigger

length-touch :
    {T : Type 0}
    → (create : Text → T) (name : Text) (now : ℕ) (ss : List (Slot T))
    → length (touch create name now ss) ≤ suc (length ss)
unfolding touch
length-touch create name now [] = omega arith
length-touch create name now (s ∷ ss) = ground (arith, length-touch create name now ss)

prune-Bounded :
    {T : Type 0}
    → (r : PartitionRegistry T) (now : ℕ) (evictable : T → Bool) → Bounded r
    → Bounded (prune r now evictable)
unfolding prune
prune-Bounded r now evictable v = record {
  few = omega (arith, v.few, length-keep-le (stays r.ttl_ms now evictable) r.entries);
  floor = v.floor;
}

-- A sweep may meet one entry more than the trigger.
sweep-Bounded :
    {T : Type 0}
    → (r : PartitionRegistry T) (now : ℕ) (evictable : T → Bool)
    → length r.entries ≤ suc r.size_sweep_trigger
    → 100 ≤ r.size_sweep_trigger
    → Bounded (sweep r now evictable)
unfolding sweep prune adjust_size_sweep_trigger
sweep-Bounded r now evictable h k =
    let shorter = length-keep-le (stays r.ttl_ms now evictable) r.entries in
    record { few = ground (arith, shorter, h, k); floor = ground (arith, shorter, h, k) }

step-Bounded :
    {T : Type 0} → (r : PartitionRegistry T) (op : Op T) → Bounded r → Bounded (step r op)
unfolding step get
step-Bounded r (prunes now evictable) v = prune-Bounded r now evictable v
step-Bounded r (gets name now evictable) v =
    sweep-Bounded
      (record r { call_counter = r.call_counter + 1; entries = touch r.create name now r.entries })
      now evictable (omega (arith, v.few, length-touch r.create name now r.entries)) v.floor

run-Bounded :
    {T : Type 0} → (r : PartitionRegistry T) (ops : List (Op T)) → Bounded r → Bounded (run r ops)
unfolding run
run-Bounded r [] v = v
run-Bounded r (op ∷ ops) v = run-Bounded (step r op) ops (step-Bounded r op v)

-- After every history of lookups and sweeps, with any answers of `isEvictable`, a registry holds no
-- more entries than the size at which its next lookup sweeps, and that size is never below 100.
pub run-new-Bounded :
    {T : Type 0}
    → (create : Text → T) (ttl_ms : Option ℕ) (ops : List (Op T))
    → Bounded (run (new create ttl_ms) ops)
unfolding new
run-new-Bounded create ttl_ms ops =
    run-Bounded (new create ttl_ms) ops (record { few = omega arith; floor = omega arith })

lookup-touch :
    {T : Type 0}
    → (create : Text → T) (name other : Text) (now : ℕ) (e : T) (ss : List (Slot T))
    → lookup name ss ≡ some e
    → lookup name (touch create other now ss) ≡ some e
unfolding touch
lookup-touch create name other now e [] h = ground (arith, h)
lookup-touch create name other now e (s ∷ ss) h =
    ground (arith, h, lookup-touch create name other now e ss)

lookup-touched :
    {T : Type 0}
    → (create : Text → T) (name : Text) (now : ℕ) (ss : List (Slot T))
    → lookup name (touch create name now ss) ≡ some (or_default (lookup name ss) (create name))
unfolding touch
lookup-touched create name now [] = rw (text_eq_refl name) refl
lookup-touched create name now (s ∷ ss) = ground (arith, lookup-touched create name now ss)

lookup-keep :
    {T : Type 0}
    → (ttl now : ℕ) (evictable : T → Bool) (name : Text) (e : T) (ss : List (Slot T))
    → evictable e ≡ false
    → lookup name ss ≡ some e
    → lookup name (keep (stays ttl now evictable) ss) ≡ some e
lookup-keep ttl now evictable name e [] held h = ground (arith, h)
lookup-keep ttl now evictable name e (s ∷ ss) held h =
    ground (arith, held, h, lookup-keep ttl now evictable name e ss held)

-- An entry in use: each time an operation asks, it is not evictable.
abbrev pub InUse : {T : Type 0} → T → List (Op T) → Type 0
InUse e [] = Unit
InUse e (gets name now evictable ∷ ops) = (evictable e ≡ false) × InUse e ops
InUse e (prunes now evictable ∷ ops) = (evictable e ≡ false) × InUse e ops

lookup-sweep :
    {T : Type 0}
    → (r : PartitionRegistry T) (now : ℕ) (evictable : T → Bool) (name : Text) (e : T)
    → evictable e ≡ false
    → lookup name r.entries ≡ some e
    → lookup name (sweep r now evictable).entries ≡ some e
unfolding sweep prune adjust_size_sweep_trigger
lookup-sweep r now evictable name e held h =
    let kept = lookup-keep r.ttl_ms now evictable name e r.entries held h in ground (arith, h, kept)

lookup-run :
    {T : Type 0}
    → (r : PartitionRegistry T) (name : Text) (e : T) (ops : List (Op T))
    → lookup name r.entries ≡ some e
    → InUse e ops
    → lookup name (run r ops).entries ≡ some e
unfolding run step get prune
lookup-run r name e [] h u = h
lookup-run r name e (gets other now evictable ∷ ops) h u =
    lookup-run (step r (gets other now evictable)) name e ops
      (lookup-sweep
        (record r {
          call_counter = r.call_counter + 1;
          entries = touch r.create other now r.entries;
        })
        now evictable name e u.0 (lookup-touch r.create name other now e r.entries h))
      u.1
lookup-run r name e (prunes now evictable ∷ ops) h u =
    lookup-run (step r (prunes now evictable)) name e ops
      (lookup-keep r.ttl_ms now evictable name e r.entries u.0 h) u.1

-- An entry is never replaced while it is in use: once a lookup of a partition has returned an entry
-- that the sweep of that lookup does not find evictable, every later lookup of the partition returns
-- that same entry, whatever lookups and sweeps come between, however much time passes and however
-- many partitions there are, as long as none of those sweeps finds it evictable.
pub get-run-get :
    {T : Type 0}
    → (r : PartitionRegistry T) (name : Text) (now : ℕ) (evictable : T → Bool) (ops : List (Op T))
      (later : ℕ) (evictable' : T → Bool)
    → evictable (get r name now evictable).1 ≡ false
    → InUse (get r name now evictable).1 ops
    → (get (run (get r name now evictable).0 ops) name later evictable').1
      ≡ (get r name now evictable).1
unfolding get
get-run-get r name now evictable ops later evictable' held u =
    let e : _ = or_default (lookup name r.entries) (r.create name) in
    let touched : PartitionRegistry _ = record r {
      call_counter = r.call_counter + 1;
      entries = touch r.create name now r.entries;
    } in
    let there =
      lookup-run (sweep touched now evictable) name e ops
        (lookup-sweep touched now evictable name e held
          (lookup-touched r.create name now r.entries))
        u in
    rw there refl
