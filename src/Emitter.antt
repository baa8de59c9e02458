-- ===== src/Emitter.antt =====
-- src/core/listeners.ts: the emitter. A listener is a number, what it does when it is called a list of
-- calls of `on` and `off` and whether it throws; an error that it throws goes to reportCallbackError,
-- here a log.
pub mod Snapshot
mod Examples
use vereda.Common.{
  ℕ, Bool, true, false, Option, none, some, List, [], ◌∷◌, ◌++◌, includes, ◌==◌, or_default,
  if◌then◌else◌,
}
use vereda.Common.Text.{Text, text_eq}

-- The registrations of each event, the oldest first; an event without any has no entry.
abbrev pub Listeners : Type 0
Listeners = List (Text × List ℕ)

abbrev pub get : Text → Listeners → Option (List ℕ)
get event [] = none
get event ((name, list) ∷ rest) =
    let found = get event rest in if text_eq name event then some list else found

abbrev pub on : Text → ℕ → Listeners → Listeners
on event listener [] = (event, listener ∷ []) ∷ []
on event listener ((name, list) ∷ rest) =
    let others = on event listener rest in
    if text_eq name event then (name, list ++ (listener ∷ [])) ∷ rest else (name, list) ∷ others

-- `splice(lastIndexOf(listener), 1)`: none where the listener does not occur.
abbrev pub remove_last : ℕ → List ℕ → Option (List ℕ)
remove_last listener [] = none
remove_last listener (l ∷ list) = elim (remove_last listener list) [
  | some list' ↦ some (l ∷ list')
  | none ↦ if l == listener then some list else none
]

abbrev pub with_list : Text → Option (List ℕ) → (unchanged rest : Listeners) → Listeners
with_list name none unchanged rest = unchanged
with_list name (some []) unchanged rest = rest
with_list name (some (l ∷ list)) unchanged rest = (name, l ∷ list) ∷ rest

abbrev pub off : Text → ℕ → Listeners → Listeners
off event listener [] = []
off event listener ((name, list) ∷ rest) =
    let others = off event listener rest in
    if text_eq name event
    then with_list name (remove_last listener list) ((name, list) ∷ rest) rest
    else (name, list) ∷ others

pub data Call : Type 0 where
  calls_on calls_off : Text → ℕ → Call

abbrev pub make : Listeners → List Call → Listeners
make ls [] = ls
make ls (calls_on event l ∷ calls) = make (on event l ls) calls
make ls (calls_off event l ∷ calls) = make (off event l ls) calls

pub record Behaviour : Type 0 where
  pub calls : List Call
  pub throws : Bool

pub record Emission : Type 0 where
  pub listeners : Listeners
  pub called : List ℕ
  pub reported : List ℕ  -- the listeners whose error was reported

-- The loop over the snapshot.
abbrev pub call_each : (ℕ → Behaviour) → List ℕ → Emission → Emission
call_each behaves [] s = s
call_each behaves (l ∷ ls) s = call_each behaves ls (record {
  listeners = make s.listeners (behaves l).calls;
  called = s.called ++ (l ∷ []);
  reported = (if (behaves l).throws then s.reported ++ (l ∷ []) else s.reported);
})

unfoldable pub emit : (ℕ → Behaviour) → Text → Listeners → Emission
emit behaves event ls =
    call_each behaves (or_default (get event ls) [])
      (record { listeners = ls; called = []; reported = [] })
