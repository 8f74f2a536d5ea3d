-- ===== src/Backend/Registry.antt =====
-- Loading, leasing and unloading backends: inference_runtime/registry.py. A method that leaves the
-- lock in the middle is one definition for each section under the lock. Times are whole milliseconds
-- of `time.monotonic`, and an instance is named by its identity.
use Prim.Native.Nat.{Ordering}
use Prim.Native.String.{compare}
use Prim.Native.String.{len}
use llama.Prelude.{
  ℕ, ◌+◌, ◌-◌, Bool, true, false, not, ◌&&◌, ◌||◌, List, [], ◌∷◌, Option, none, some, String,
  String_discrete, is_yes, any, select, map, leb, ◌==◌, if◌then◌else◌, Result, ok, err,
}
use llama.Prelude.Dict
use llama.Prelude.Dict.{Dict, values}
use llama.Prelude.Int.{ℤ, ltb_ℤ}

pub data BackendMode : Type 0 where
  steppable managed : BackendMode

pub data BackendLifecycle : Type 0 where
  unloaded loading ready draining failed : BackendLifecycle

pub record BackendDescriptor : Type 0 where
  pub name : String
  pub mode : BackendMode
  pub models : List String
  pub supports_sequence_steps : Bool
  pub supports_full_request : Bool
  pub supports_streaming : Bool
  pub supports_cancellation : Bool
  pub priority : ℤ
  pub keepalive : ℕ

-- Whether `BackendDescriptor.__post_init__` accepts a descriptor.
unfoldable pub valid_descriptor : BackendDescriptor → Bool
valid_descriptor d =
    not (len d.name == 0)
    && leb (len d.name) 128
    && elim d.mode [ steppable ↦ d.supports_sequence_steps | managed ↦ d.supports_full_request ]

-- `_Entry`
pub record Entry : Type 0 where
  pub descriptor : BackendDescriptor
  pub lifecycle : BackendLifecycle
  pub generation : ℕ
  pub instance_ : Option ℕ
  pub active_leases : ℕ
  pub last_used : ℕ
  pub failure : Option String

pub record BackendLease : Type 0 where
  pub name : String
  pub generation : ℕ
  pub instance_ : ℕ

pub data BackendRegistryError : Type 0 where
  duplicate_backend no_route all_backends_failed backend_draining capability_mismatch :
      BackendRegistryError
  backend_load_failed unknown_backend backend_busy backend_state_conflict : BackendRegistryError

abbrev pub Registry : Type 0
Registry = Dict String Entry

abbrev pub new_entry : BackendDescriptor → ℕ → Entry
new_entry d now = record {
  descriptor = d;
  lifecycle = unloaded;
  generation = 0;
  instance_ = none;
  active_leases = 0;
  last_used = now;
  failure = none;
}

-- `register`
unfoldable pub register : Registry → BackendDescriptor → ℕ → Result BackendRegistryError Registry
register r d now = elim (Dict.get String_discrete d.name r) [
  | some e ↦ err duplicate_backend
  | none ↦ ok (Dict.put String_discrete d.name (new_entry d now) r)
]

abbrev same_mode : BackendMode → BackendMode → Bool
same_mode steppable steppable = true
same_mode managed managed = true
same_mode _ _ = false

abbrev mode_fits : Option BackendMode → BackendMode → Bool
mode_fits none m = true
mode_fits (some k) m = same_mode k m

-- The filter of `_candidate_names`
unfoldable pub routes : String → Option BackendMode → Bool → Bool → Entry → Bool
routes model require_mode require_streaming require_cancellation e =
    any (λ m. is_yes (String_discrete m model)) e.descriptor.models
    && mode_fits require_mode e.descriptor.mode
    && (not require_streaming || e.descriptor.supports_streaming)
    && (not require_cancellation || e.descriptor.supports_cancellation)

abbrev name_before : String → String → Bool
name_before s t = elim (compare s t) [ Ordering.gt ↦ false | _ ↦ true ]

-- The higher priority comes first, then the smaller name.
abbrev pub before : Entry → Entry → Bool
before a b =
    if ltb_ℤ b.descriptor.priority a.descriptor.priority
    then true
    else if ltb_ℤ a.descriptor.priority b.descriptor.priority
    then false
    else name_before a.descriptor.name b.descriptor.name

abbrev insert : Entry → List Entry → List Entry
insert a [] = a ∷ []
insert a (b ∷ bs) = let rest = insert a bs in if before a b then a ∷ b ∷ bs else b ∷ rest

unfoldable pub sort : List Entry → List Entry
sort [] = []
sort (a ∷ bs) = insert a (sort bs)

-- `_candidate_names`
unfoldable pub candidate_names : Registry → String → Option BackendMode → Bool → Bool → List String
unfolding routes sort
candidate_names r model require_mode require_streaming require_cancellation =
    map (λ e. e.descriptor.name)
      (sort (select (routes model require_mode require_streaming require_cancellation) (values r)))

-- What the first section of `_acquire_name` decides: to wait for a load, to raise, to return a lease,
-- or to load.
pub data Attempt : Type 0 where
  waits : Attempt
  raises : BackendRegistryError → Attempt
  leases : ℕ → Attempt
  loads : Attempt

-- The first section of `_acquire_name`
unfoldable pub begin_acquire : Entry → ℕ → Entry × Attempt
begin_acquire e now = elim e.lifecycle [
  | loading ↦ (e, waits)
  | draining ↦ (e, raises backend_draining)
  | ready ↦ (record e { active_leases = e.active_leases + 1; last_used = now }, leases e.generation)
  | unloaded ↦ (record e { lifecycle = loading; failure = none }, loads)
  | failed ↦ (record e { lifecycle = loading; failure = none }, loads)
]

-- The section of `_acquire_name` after the factory has raised
unfoldable pub load_failed : Entry → String → Entry
load_failed e reason = record e { lifecycle = failed; failure = some reason; instance_ = none }

-- The last section of `_acquire_name`
unfoldable pub load_finished : Entry → ℕ → ℕ → Entry
load_finished e i now = record e {
  instance_ = some i;
  generation = e.generation + 1;
  active_leases = 1;
  last_used = now;
  lifecycle = ready;
}

-- `release` of a lease of a generation
unfoldable pub release_entry : Entry → ℕ → ℕ → Entry × Bool
release_entry e generation now =
    if not (e.generation == generation) || e.active_leases == 0
    then (e, false)
    else (record e { active_leases = e.active_leases - 1; last_used = now }, true)

-- The first section of `unload`; `ok false` when there is nothing to unload
unfoldable pub begin_unload : Entry → Result BackendRegistryError (Entry × Bool)
begin_unload e = elim e.lifecycle [
  | unloaded ↦ ok (e, false)
  | ready ↦
      if not (e.active_leases == 0)
      then err backend_busy
      else ok (record e { lifecycle = draining }, true)
  | failed ↦
      if not (e.active_leases == 0)
      then err backend_busy
      else ok (record e { lifecycle = draining }, true)
  | loading ↦ if not (e.active_leases == 0) then err backend_busy else err backend_state_conflict
  | draining ↦ if not (e.active_leases == 0) then err backend_busy else err backend_state_conflict
]

-- The last section of `unload`
unfoldable pub finish_unload : Entry → Bool → ℕ → Entry
finish_unload e stopped now = record e {
  instance_ = none;
  lifecycle = if stopped then unloaded else failed;
  failure = if stopped then none else some "shutdown_failed";
  last_used = now;
}

-- `release`
unfoldable pub release : Registry → BackendLease → ℕ → Registry × Bool
unfolding release_entry
release r lease now = elim (Dict.get String_discrete lease.name r) [
  | none ↦ (r, false)
  | some e ↦
      let after = release_entry e lease.generation now in
      (Dict.put String_discrete lease.name after.0 r, after.1)
]

abbrev is_ready : BackendLifecycle → Bool
is_ready ready = true
is_ready _ = false

-- The targets of `sweep`
unfoldable pub sweep_targets : Registry → ℕ → List String
sweep_targets r now =
    map (λ e. e.descriptor.name)
      (select
        (λ e.
          is_ready e.lifecycle
          && e.active_leases == 0
          && leb (e.last_used + e.descriptor.keepalive) now)
        (values r))

-- `preferred_mode`
unfoldable pub preferred_mode : Registry → String → Result BackendRegistryError BackendMode
unfolding candidate_names
preferred_mode r model = elim (candidate_names r model none false false) [
  | [] ↦ err no_route
  | name ∷ names ↦ elim (Dict.get String_discrete name r) [
    | none ↦ err no_route
    | some e ↦ ok e.descriptor.mode
  ]
]

pub record BackendRegistrySnapshot : Type 0 where
  pub name : String
  pub mode : BackendMode
  pub priority : ℤ
  pub lifecycle : BackendLifecycle
  pub generation : ℕ
  pub active_leases : ℕ
  pub last_used : ℕ
  pub failure : Option String

abbrev insert_named : Entry → List Entry → List Entry
insert_named a [] = a ∷ []
insert_named a (b ∷ bs) =
    let rest = insert_named a bs in
    if name_before a.descriptor.name b.descriptor.name then a ∷ b ∷ bs else b ∷ rest

unfoldable pub sort_named : List Entry → List Entry
sort_named [] = []
sort_named (a ∷ bs) = insert_named a (sort_named bs)

-- `snapshots`, without the capabilities
unfoldable pub snapshots : Registry → List BackendRegistrySnapshot
unfolding sort_named
snapshots r =
    map
      (λ e. record {
        name = e.descriptor.name;
        mode = e.descriptor.mode;
        priority = e.descriptor.priority;
        lifecycle = e.lifecycle;
        generation = e.generation;
        active_leases = e.active_leases;
        last_used = e.last_used;
        failure = e.failure;
      })
      (sort_named (values r))
