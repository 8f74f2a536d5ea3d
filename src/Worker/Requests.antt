-- ===== src/Worker/Requests.antt =====
-- Requests and their lifecycle: model_worker/request_registry.py. Times are whole milliseconds of the
-- registry's clock; `now` is `none` where the clock's answer is no finite number, so `_now` raises.
-- A caller refers to a record by its id: a record that has been pruned is terminal, and no call
-- changes it.
use llama.Prelude.{
  ℕ, ◌+◌, Bool, true, false, not, ◌&&◌, List, [], ◌∷◌, ◌++◌, Option, none, some, String,
  String_discrete, is_yes, any, select, length, if◌then◌else◌, Result, ok, err,
}
use llama.Prelude.Dict
use llama.Prelude.Dict.{Dict}

pub data Lifecycle : Type 0 where
  received preflighted queued running completed failed cancelled timed_out : Lifecycle

-- `TERMINAL`
abbrev pub is_terminal : Lifecycle → Bool
is_terminal completed = true
is_terminal failed = true
is_terminal cancelled = true
is_terminal timed_out = true
is_terminal _ = false

-- `target in ALLOWED.get(current, set())`
abbrev pub allowed : Lifecycle → Lifecycle → Bool
allowed received preflighted = true
allowed received failed = true
allowed preflighted queued = true
allowed preflighted failed = true
allowed queued running = true
allowed queued cancelled = true
allowed queued timed_out = true
allowed queued failed = true
allowed running completed = true
allowed running failed = true
allowed running cancelled = true
allowed running timed_out = true
allowed _ _ = false

pub Lifecycle-discrete : Discrete Lifecycle
Lifecycle-discrete = hlevel

-- `request`, `result` and `error` are values of the callers, of a type A.
pub record RequestRecord (A : Type 0) : Type 0 where
  pub attempt_id : String
  pub request : A
  pub queue_deadline : ℕ
  pub execution_timeout : ℕ
  pub lifecycle : Lifecycle
  pub timestamps : Dict Lifecycle ℕ
  pub cancel_event : Bool
  pub result : Option A
  pub error : Option A

-- An observer is named by its identity.
pub record RequestRegistry (A : Type 0) : Type 0 where
  pub records : Dict String (RequestRecord A)
  pub terminal_observers : List String
  pub terminal_observer_failures : ℕ

pub data RegistryError : Type 0 where
  invalid_transition invalid_clock invalid_argument : RegistryError

-- What a call leaves behind and what it returns or raises.
abbrev pub Reply : Type 0 → Type 0
Reply A = RequestRegistry A × Result RegistryError Bool

-- `add_terminal_observer`
unfoldable pub add_terminal_observer : {A : Type 0} → RequestRegistry A → String → Reply A
add_terminal_observer r o =
    if any (λ p. is_yes (String_discrete p o)) r.terminal_observers
    then (r, ok false)
    else (record r { terminal_observers = r.terminal_observers ++ o ∷ [] }, ok true)

-- The first observer of an identity goes.
unfoldable pub drop_observer : String → List String → List String
drop_observer o [] = []
drop_observer o (p ∷ ps) = if is_yes (String_discrete p o) then ps else p ∷ drop_observer o ps

-- `remove_terminal_observer`
unfoldable pub remove_terminal_observer : {A : Type 0} → RequestRegistry A → String → Reply A
unfolding drop_observer
remove_terminal_observer r o =
    if any (λ p. is_yes (String_discrete p o)) r.terminal_observers
    then (record r { terminal_observers = drop_observer o r.terminal_observers }, ok true)
    else (r, ok false)

-- `create`, with the ids that `uuid4` returned
unfoldable pub create :
    {A : Type 0} → RequestRegistry A → String → String → A → ℕ → ℕ → Option ℕ → Reply A
create r request_id attempt_id request queue_timeout_ms execution_timeout_ms none =
    (r, err invalid_clock)
create r request_id attempt_id request queue_timeout_ms execution_timeout_ms (some now) = (
  record r {
    records =
        Dict.put String_discrete request_id
          (record {
            attempt_id = attempt_id;
            request = request;
            queue_deadline = now + queue_timeout_ms;
            execution_timeout = execution_timeout_ms;
            lifecycle = received;
            timestamps = (received, now) ∷ [];
            cancel_event = false;
            result = none;
            error = none;
          })
          r.records;
  },
  ok true,
)

-- `_transition_locked`: the record as the call leaves it, and what it returns or raises. The
-- lifecycle is written before the clock is read.
unfoldable pub transition_locked :
    {A : Type 0}
    → RequestRecord A
    → Lifecycle
    → Option A
    → Option A
    → Option ℕ
    → RequestRecord A × Result RegistryError Bool
unfolding Lifecycle-discrete
transition_locked record_ target result error now =
    if is_terminal record_.lifecycle
    then (record_, ok false)
    else if not (allowed record_.lifecycle target)
    then (record_, err invalid_transition)
    else elim now [
      | none ↦ (record record_ { lifecycle = target }, err invalid_clock)
      | some at ↦ (
        record record_ {
          lifecycle = target;
          timestamps = Dict.put Lifecycle-discrete target at record_.timestamps;
          result = result;
          error = error;
        },
        ok true,
      )
    ]

-- A record is shared with the table, so the table sees what is written to it.
abbrev pub store : {A : Type 0} → RequestRegistry A → String → RequestRecord A → RequestRegistry A
store r request_id x = record r { records = Dict.put String_discrete request_id x r.records }

module _ (fails : String → Bool) where
  -- `_notify_terminal`, for a transition that was won to a terminal target. `fails` tells which
  -- observers raise.
  unfoldable pub notify_terminal :
      {A : Type 0} → RequestRegistry A → Lifecycle → Result RegistryError Bool → RequestRegistry A
  notify_terminal r target (ok true) =
      if is_terminal target
      then record r {
        terminal_observer_failures =
            r.terminal_observer_failures + length (select fails r.terminal_observers);
      }
      else r
  notify_terminal r target _ = r

  -- A transition of a record of the table, and its observers
  unfoldable pub transition_stored :
      {A : Type 0}
      → RequestRegistry A
      → String
      → RequestRecord A
      → Lifecycle
      → Option A
      → Option A
      → Option ℕ
      → Reply A
  unfolding transition_locked notify_terminal
  transition_stored r request_id x target result error now =
      let done = transition_locked x target result error now in
      (notify_terminal (store r request_id done.0) target done.1, done.1)

  -- `transition`
  unfoldable pub transition :
      {A : Type 0}
      → RequestRegistry A
      → String
      → Lifecycle
      → Option A
      → Option A
      → Option ℕ
      → Reply A
  unfolding transition_stored
  transition r request_id target result error now =
      elim (Dict.get String_discrete request_id r.records) [
        | none ↦ (r, ok false)
        | some x ↦ transition_stored r request_id x target result error now
      ]

  -- `compare_and_transition`, with what the predicate returns
  unfoldable pub compare_and_transition :
      {A : Type 0}
      → RequestRegistry A
      → String
      → Lifecycle
      → Lifecycle
      → Bool
      → Option A
      → Option A
      → Option ℕ
      → Reply A
  unfolding transition_stored Lifecycle-discrete
  compare_and_transition r request_id expected target predicate result error now =
      elim (Dict.get String_discrete request_id r.records) [
        | none ↦ (r, ok false)
        | some x ↦
            if is_yes (Lifecycle-discrete x.lifecycle expected) && predicate
            then transition_stored r request_id x target result error now
            else (r, ok false)
      ]

  -- The reply of `cancel` once the transition has not raised
  abbrev always : {E : Type 0} → Result E Bool → Result E Bool
  always (ok b) = ok true
  always (err e) = err e

  abbrev is_queued : Lifecycle → Bool
  is_queued queued = true
  is_queued _ = false

  -- `cancel`; `cancelled` is the error text
  unfoldable pub cancel : {A : Type 0} → RequestRegistry A → String → A → Option ℕ → Reply A
  unfolding transition_stored
  cancel r request_id text now = elim (Dict.get String_discrete request_id r.records) [
    | none ↦ (r, ok false)
    | some x ↦
        if is_terminal x.lifecycle
        then (r, ok false)
        else let y = record x { cancel_event = true } in
          if is_queued x.lifecycle
          then (let done = transition_stored r request_id y cancelled none (some text) now in
              (done.0, always done.1))
          else (store r request_id y, ok true)
  ]
