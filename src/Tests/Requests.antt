-- ===== src/Tests/Requests.antt =====
-- Requests of the model worker, with a request that is queued and cancelled.
use llama.Prelude.{
  is_yes, arith, ◌≢◌, length, false, Bool, some, none, [], ◌∷◌, refl, ◌≡◌, ◌≤◌, ◌+◌, String,
  String_discrete, arith,
}
use llama.Prelude.Dict
use llama.Prelude.Dict.{Distinct}
use llama.Worker.Requests.{RequestRecord, RequestRegistry, completed, received}
use llama.Worker.Pruning.{prune_at}
use llama.Worker.Sparing.{is_expired, prune_at-Spares}
use llama.Worker.History.{Calls-stable, Calls, done, next, cancels, creates, lookup}
use llama.Worker.Requests.{create, cancel}

abbrev ended : RequestRecord String
ended = record {
  attempt_id = "t1";
  request = "hello";
  queue_deadline = 100;
  execution_timeout = 1000;
  lifecycle = completed;
  timestamps = (received, 1) ∷ (completed, 7) ∷ [];
  cancel_event = false;
  result = some "world";
  error = none;
}

abbrev one_ended : RequestRegistry String
one_ended = record {
  records = ("r1", ended) ∷ [];
  terminal_observers = "metrics" ∷ [];
  terminal_observer_failures = 0;
}

abbrev silent : String → Bool
silent o = false

different : {P : Type 0} (d : Dec P) → is_yes d ≡ false → ¬ P
different (yes p) h q = absurd (ground arith)
different (no n) h q = n q

abbrev first_id : String
first_id = "r1"

abbrev second_id : String
second_id = "r2"

other_id : second_id ≢ first_id
unfolding String_discrete
other_id = different (String_discrete "r2" "r1") refl

two-Calls :
    Calls silent "r1" one_ended
      (cancel silent (create one_ended "r2" "t2" "hi" 5 5 (some 9)).0 "r1" "cancelled" (some 10)).0
two-Calls =
    next (next done (creates "r2" "t2" "hi" 5 5 (some 9) other_id))
      (cancels "r1" "cancelled" (some 10))

Calls-stable_example :
    lookup "r1"
      (cancel silent (create one_ended "r2" "t2" "hi" 5 5 (some 9)).0 "r1" "cancelled" (some 10)).0
    ≡ some ended
unfolding Dict.get String_discrete
Calls-stable_example = Calls-stable silent "r1" ended two-Calls refl refl

-- A request that is live beside one that ended long ago
abbrev live_and_ended : RequestRegistry String
live_and_ended = record one_ended {
  records = ("r1", ended) ∷ ("r2", record ended { lifecycle = received; result = none }) ∷ [];
}

two-Distinct : Distinct String_discrete live_and_ended.records
unfolding Dict.get String_discrete
two-Distinct = (refl, (refl, tt))

prune_at-Spares_example :
    ((id : String) (x : RequestRecord String)
      → lookup id live_and_ended ≡ some x
      → is_expired 5 100 x ≡ false
      → lookup id (prune_at live_and_ended 5 1 100).0 ≡ some x)
    × ((prune_at live_and_ended 5 1 100).1.removed_records ≤ 1)
    × (length ((prune_at live_and_ended 5 1 100).0.records)
          + (prune_at live_and_ended 5 1 100).1.removed_records
        ≡ length live_and_ended.records)
prune_at-Spares_example = prune_at-Spares live_and_ended 5 1 100 two-Distinct
