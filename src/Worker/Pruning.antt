-- ===== src/Worker/Pruning.antt =====
-- Pruning terminal requests: `prune_terminal` of model_worker/request_registry.py.
use Prim.Native.Nat.{Ordering}
use Prim.Native.Nat.{compare as compare_ℕ}
use Prim.Native.String.{compare}
use llama.Prelude.{
  ℕ, suc, ◌+◌, ◌-◌, Bool, true, false, ◌&&◌, List, [], ◌∷◌, Option, none, some, String,
  String_discrete, length, take, select, leb, ltb, if◌then◌else◌, Result, ok, err, ◌>>=◌,
}
use llama.Prelude.Dict
use llama.Prelude.Dict.{Dict}
use llama.Worker.Requests.{
  Lifecycle-discrete, is_terminal, RequestRecord, RequestRegistry, RegistryError, invalid_clock,
  invalid_argument,
}

pub record RegistryPruneStats : Type 0 where
  pub scanned_records : ℕ
  pub terminal_records : ℕ
  pub eligible_records : ℕ
  pub removed_records : ℕ
  pub remaining_records : ℕ
  pub eligible_remaining : ℕ
  pub max_records : ℕ
  pub limit_reached : Bool

-- The time a record ended and its id.
abbrev pub Candidate : Type 0
Candidate = ℕ × String

abbrev pub expired : ℕ → ℕ → Option ℕ → Bool
expired ttl now none = false
expired ttl now (some at) = leb (at + ttl) now

abbrev or_zero : Option ℕ → ℕ
or_zero none = 0
or_zero (some n) = n

-- When the record reached the lifecycle it has.
unfoldable pub terminal_at : {A : Type 0} → RequestRecord A → Option ℕ
terminal_at x = Dict.get Lifecycle-discrete x.lifecycle x.timestamps

-- The loop that collects the candidates
unfoldable pub candidates : {A : Type 0} → ℕ → ℕ → Dict String (RequestRecord A) → List Candidate
unfolding terminal_at
candidates ttl now [] = []
candidates ttl now ((id, x) ∷ m) =
    let rest = candidates ttl now m in
    if is_terminal x.lifecycle && expired ttl now (terminal_at x)
    then (or_zero (terminal_at x), id) ∷ rest
    else rest

-- `item[0], item[1]` of one candidate come before those of another.
abbrev pub before : Candidate → Candidate → Bool
before a b = elim (compare_ℕ a.0 b.0) [
  | Ordering.lt ↦ true
  | Ordering.gt ↦ false
  | Ordering.eq ↦ elim (compare a.1 b.1) [ Ordering.gt ↦ false | _ ↦ true ]
]

abbrev pub insert : Candidate → List Candidate → List Candidate
insert a [] = a ∷ []
insert a (b ∷ bs) = let rest = insert a bs in if before a b then a ∷ b ∷ bs else b ∷ rest

-- `candidates.sort(key=...)`
unfoldable pub sort : List Candidate → List Candidate
sort [] = []
sort (a ∷ bs) = insert a (sort bs)

-- The loop that deletes, and the number of deletions
unfoldable pub delete :
    {A : Type 0}
    → List Candidate
    → Dict String (RequestRecord A)
    → Dict String (RequestRecord A) × ℕ
delete [] m = (m, 0)
delete ((at, id) ∷ cs) m = elim (Dict.get String_discrete id m) [
  | none ↦ delete cs m
  | some x ↦ let rest = delete cs (Dict.remove String_discrete id m) in (rest.0, suc rest.1)
]

abbrev count_terminal : {A : Type 0} → Dict String (RequestRecord A) → ℕ
count_terminal m = length (select (λ e. is_terminal e.1.lifecycle) m)

-- `prune_terminal` once its arguments are known to be valid, at the time `now`
unfoldable pub prune_at :
    {A : Type 0} → RequestRegistry A → ℕ → ℕ → ℕ → RequestRegistry A × RegistryPruneStats
unfolding candidates sort delete
prune_at r ttl max_records now =
    let found = candidates ttl now r.records in
    let done = delete (take max_records (sort found)) r.records in
    (
      record r { records = done.0 },
      record {
        scanned_records = length r.records;
        terminal_records = count_terminal r.records;
        eligible_records = length found;
        removed_records = done.1;
        remaining_records = length (done.0);
        eligible_remaining = length found - done.1;
        max_records = max_records;
        limit_reached = ltb 0 (length found - done.1) && leb max_records done.1;
      },
    )

-- The argument `now`: absent, with what the clock answers, or passed; `none` is no finite number.
pub data Now : Type 0 where
  by_clock : Option ℕ → Now
  passed : Option ℕ → Now

abbrev read_now : Now → Result RegistryError ℕ
read_now (by_clock none) = err invalid_clock
read_now (by_clock (some now)) = ok now
read_now (passed none) = err invalid_argument
read_now (passed (some now)) = ok now

-- `prune_terminal`. `none` is a duration or a limit of a wrong type, or negative.
unfoldable pub prune_terminal :
    {A : Type 0}
    → RequestRegistry A
    → Option ℕ
    → Option ℕ
    → Now
    → Result RegistryError (RequestRegistry A × RegistryPruneStats)
unfolding prune_at
prune_terminal r none max_records now = err invalid_argument
prune_terminal r (some ttl) none now = err invalid_argument
prune_terminal r (some ttl) (some max_records) now =
    read_now now >>= λ at. ok (prune_at r ttl max_records at)
