-- ===== src/Registry.antt =====
-- src/queue/partition-registry.ts: one entry per partition, made on first use and swept when it has
-- not been asked for and is not in use. An entry is a handle (an object that its holders share), and
-- what `isEvictable` answers of it is an argument, since it changes with what they do to the object.
pub mod Sweep
mod Examples
use vereda.Common.{
  ℕ, suc, ◌+◌, ◌-◌, ◌*◌, ◌%◌, Bool, true, false, ◌&&◌, ◌||◌, not, Option, none, some, List, [], ◌∷◌,
  ◌++◌, length, ltb, leb, ◌==◌, or_default, keep, if◌then◌else◌,
}
use vereda.Common.Text.{Text, text_eq}

abbrev pub default_partition_ttl_ms : ℕ
default_partition_ttl_ms = 60000

abbrev pub sweep_interval : ℕ
sweep_interval = 10

abbrev pub sweep_size_threshold : ℕ
sweep_size_threshold = 100

-- A key of `entries` with its pair.
pub record Slot (T : Type 0) : Type 0 where
  pub name : Text
  pub entry : T
  pub last_accessed : ℕ

pub record PartitionRegistry (T : Type 0) : Type 0 where
  pub entries : List (Slot T)  -- in the order of insertion
  pub create : Text → T
  pub ttl_ms : ℕ
  pub call_counter : ℕ
  pub size_sweep_trigger : ℕ

unfoldable pub new : {T : Type 0} → (Text → T) → (ttl_ms : Option ℕ) → PartitionRegistry T
new create ttl_ms = record {
  entries = [];
  create = create;
  ttl_ms = or_default ttl_ms default_partition_ttl_ms;
  call_counter = 0;
  size_sweep_trigger = sweep_size_threshold;
}

abbrev pub lookup : {T : Type 0} → Text → List (Slot T) → Option T
lookup name [] = none
lookup name (s ∷ ss) = if text_eq s.name name then some s.entry else lookup name ss

-- Writes the last access of the entry that is there, or adds the one that was created.
unfoldable pub touch : {T : Type 0} → (Text → T) → Text → (now : ℕ) → List (Slot T) → List (Slot T)
touch create name now [] = record { name = name; entry = create name; last_accessed = now } ∷ []
touch create name now (s ∷ ss) =
    let rest = touch create name now ss in
    if text_eq s.name name then record s { last_accessed = now } ∷ ss else s ∷ rest

-- Whether the sweep keeps a slot.
abbrev pub stays : {T : Type 0} → (ttl_ms now : ℕ) → (evictable : T → Bool) → Slot T → Bool
stays ttl_ms now evictable s = not (ltb ttl_ms (now - s.last_accessed) && evictable s.entry)

unfoldable pub prune :
    {T : Type 0} → PartitionRegistry T → (now : ℕ) → (evictable : T → Bool) → PartitionRegistry T
prune r now evictable = record r { entries = keep (stays r.ttl_ms now evictable) r.entries }

unfoldable pub adjust_size_sweep_trigger :
    {T : Type 0} → PartitionRegistry T → (removed : ℕ) → PartitionRegistry T
adjust_size_sweep_trigger r removed =
    let size : ℕ = length r.entries in
    if leb size sweep_size_threshold
    then record r { size_sweep_trigger = sweep_size_threshold }
    else if (removed == 0) && ltb r.size_sweep_trigger size
    then record r { size_sweep_trigger = size * 2 }
    else r

-- The sweep of `get`, if it is due.
unfoldable pub sweep :
    {T : Type 0} → PartitionRegistry T → (now : ℕ) → (evictable : T → Bool) → PartitionRegistry T
sweep r now evictable =
    let before : ℕ = length r.entries in
    let pruned = prune r now evictable in
    if ((r.call_counter % sweep_interval) == 0) || ltb r.size_sweep_trigger before
    then adjust_size_sweep_trigger pruned (before - length pruned.entries)
    else r

unfoldable pub get :
    {T : Type 0}
    → PartitionRegistry T
    → Text
    → (now : ℕ) → (evictable : T → Bool) → PartitionRegistry T × T
get r name now evictable =
    let touched = record r {
      call_counter = r.call_counter + 1;
      entries = touch r.create name now r.entries;
    } in
    (sweep touched now evictable, or_default (lookup name r.entries) (r.create name))

-- `delete`.
unfoldable pub delete_entry : {T : Type 0} → PartitionRegistry T → Text → PartitionRegistry T
delete_entry r name = record r { entries = keep (λ s. not (text_eq s.name name)) r.entries }

-- `values`.
unfoldable pub values : {T : Type 0} → List (Slot T) → List T
values [] = []
values (s ∷ ss) = s.entry ∷ values ss

-- What the client does to a registry, each at a time and with what `isEvictable` then answers.
pub data Op (T : Type 0) : Type 0 where
  gets : (name : Text) → (now : ℕ) → (evictable : T → Bool) → Op T
  prunes : (now : ℕ) → (evictable : T → Bool) → Op T

unfoldable pub step : {T : Type 0} → PartitionRegistry T → Op T → PartitionRegistry T
step r (gets name now evictable) = (get r name now evictable).0
step r (prunes now evictable) = prune r now evictable

unfoldable pub run : {T : Type 0} → PartitionRegistry T → List (Op T) → PartitionRegistry T
unfolding step
run r [] = r
run r (op ∷ ops) = run (step r op) ops
