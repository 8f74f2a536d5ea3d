-- ===== src/Scheduler/Sound.antt =====
-- The entries of the table of inference_runtime/continuous_scheduler.py, and what the end of a request
-- does to them.
pub mod Closing
pub mod Draining
pub mod Picking
pub mod Working
pub mod Stepping
pub mod Batching
pub mod Rounds
pub mod Calling
pub mod Reaches
use mathlib.Core.Path.{subst}
use llama.Prelude.{
  All, ℕ, Bool, true, false, not, ◌||◌, Bool-cases, Option, none, some, Option-cases, String,
  String_discrete, Result, ok, err, inl, inr, ◌⊎◌, ite, ◌≡◌, ◌≢◌, refl, sym, ◌∙◌, ap, arith,
}
use llama.Prelude.Dict
use llama.Prelude.Dict.{Dict, get-put, put-put, put-All, get-All}
use llama.Scheduler.State.{InferenceRuntimeError, GenerateResult, RequestEntry, is_terminal}

abbrev pub Table : Type 0
Table = Dict String RequestEntry

-- A result or an error, and not both
abbrev pub has_one : Option GenerateResult → Option InferenceRuntimeError → Bool
has_one (some r) none = true
has_one none (some x) = true
has_one _ _ = false

pub record IsSound (e : RequestEntry) : Type 0 where
  pub still_open : is_terminal e.state ≡ false → e.terminalizing ≡ false
  pub answered : is_terminal e.state ≡ true → has_one e.result e.error ≡ true
  pub accepted :
      (r : GenerateResult) → e.result ≡ some r → e.request.accepts r.completion.final_text ≡ true

-- An entry stands under its own id, and is sound.
abbrev pub IsRow : String × RequestEntry → Type 0
IsRow r = (r.1.scheduling.request_id ≡ r.0) × IsSound r.1

abbrev pub Sound : Table → Type 0
Sound m = All IsRow m

pub lookup :
    (m : Table) (id : String) (e : RequestEntry)
    → Sound m
    → Dict.get String_discrete id m ≡ some e
    → (e.scheduling.request_id ≡ id) × IsSound e
lookup m id e i p = get-All String_discrete IsRow id e m p i

abbrev pub write : RequestEntry → Table → Table
write e m = Dict.put String_discrete e.scheduling.request_id e m

pub put-Sound : (e : RequestEntry) (m : Table) → IsSound e → Sound m → Sound (write e m)
put-Sound e m i h = put-All String_discrete IsRow e.scheduling.request_id e m (refl, i) h

-- A later version of an entry, which is not over
pub record Continues (e f : RequestEntry) : Type 0 where
  pub request : f.request ≡ e.request
  pub id : f.scheduling.request_id ≡ e.scheduling.request_id
  pub result : f.result ≡ e.result
  pub terminalizing : f.terminalizing ≡ e.terminalizing
  pub still_open : is_terminal f.state ≡ false

pub continued-IsSound :
    (e f : RequestEntry) → IsSound e → is_terminal e.state ≡ false → Continues e f → IsSound f
continued-IsSound e f i n c = record {
  still_open = λ p. c.terminalizing ∙ i.still_open n;
  answered = λ p. let q = c.still_open in absurd (ground arith);
  accepted = λ g p. rw c.request (i.accepted g (sym c.result ∙ p));
}

-- The entry of an id, if there is one, is not over.
abbrev pub IsOpen : Table → String → Type 0
IsOpen m id =
    (e : RequestEntry) → Dict.get String_discrete id m ≡ some e → is_terminal e.state ≡ false

pub put-IsOpen :
    (e : RequestEntry) (m : Table) (id : String)
    → is_terminal e.state ≡ false
    → IsOpen m id
    → IsOpen (write e m) id
put-IsOpen e m id h o c p = elim (String_discrete e.scheduling.request_id id) [
  | yes q ↦
      let g : Path (Option RequestEntry) (some e) (some c) =
        ground (arith, get-put String_discrete e.scheduling.request_id id e m) in
      let f : e ≡ c = ground arith in rw (sym f) h
  | no q ↦ o c (ground (arith, get-put String_discrete e.scheduling.request_id id e m))
]

-- The table stays sound, and no entry that is not over ends.
abbrev pub Advances : Table → Table → Type 0
Advances m n = Sound n × ((id : String) → IsOpen m id → IsOpen n id)

pub continue-Advances :
    (e f : RequestEntry) (m : Table)
    → Sound m
    → Dict.get String_discrete e.scheduling.request_id m ≡ some e
    → is_terminal e.state ≡ false
    → Continues e f
    → Advances m (write f m)
continue-Advances e f m i p n c = (
  put-Sound f m (continued-IsSound e f (lookup m e.scheduling.request_id e i p).1 n c) i,
  λ id o. put-IsOpen f m id c.still_open o,
)

-- What a write to one id leaves alone
abbrev pub Same : String → Table → Table → Type 0
Same id m n = (j : String) → j ≢ id → Dict.get String_discrete j n ≡ Dict.get String_discrete j m

pub put-Same : (e : RequestEntry) (m : Table) → Same e.scheduling.request_id m (write e m)
put-Same e m j h = ground (arith, get-put String_discrete e.scheduling.request_id j e m)

pub get-write :
    (e : RequestEntry) (m : Table)
    → Dict.get String_discrete e.scheduling.request_id (write e m) ≡ some e
get-write e m =
    ground (arith, get-put String_discrete e.scheduling.request_id e.scheduling.request_id e m)

-- One request ends, and nothing else changes.
pub record Ends (id : String) (m n : Table) : Type 0 where
  pub sound : Sound n
  pub same : Same id m n
  pub over :
      (e : RequestEntry) → Dict.get String_discrete id n ≡ some e → is_terminal e.state ≡ true

pub write-write :
    (d e : RequestEntry) (m : Table)
    → d.scheduling.request_id ≡ e.scheduling.request_id
    → write d (write e m) ≡ write d m
write-write d e m p =
    subst
      (λ k.
        Dict.put String_discrete d.scheduling.request_id d (Dict.put String_discrete k e m)
        ≡ write d m)
      p (put-put String_discrete d.scheduling.request_id d e m)

pub write-Ends :
    (e : RequestEntry) (m : Table)
    → IsSound e
    → Sound m
    → is_terminal e.state ≡ true
    → Ends e.scheduling.request_id m (write e m)
write-Ends e m i h p = record {
  sound = put-Sound e m i h;
  same = put-Same e m;
  over = λ c q.
      let f : Path (Option RequestEntry) (some e) (some c) = sym (get-write e m) ∙ q in
      let g : e ≡ c = ground arith in rw (sym g) p;
}

-- Nothing stands under the id.
pub none-Ends :
    (id : String) (m : Table) → Sound m → Dict.get String_discrete id m ≡ none → Ends id m m
none-Ends id m i p = record { sound = i; same = λ j h. refl; over = λ e q. absurd (ground arith) }

-- A write to the id first makes no difference.
pub Ends-after : (id : String) (l m n : Table) → Same id l m → Ends id m n → Ends id l n
Ends-after id l m n h e = record {
  sound = e.sound;
  same = λ j q. e.same j q ∙ h j q;
  over = e.over;
}

pub write-IsOpen :
    (f : RequestEntry) (m : Table)
    → is_terminal f.state ≡ false
    → IsOpen (write f m) f.scheduling.request_id
write-IsOpen f m h c p =
    let g : Path (Option RequestEntry) (some f) (some c) = sym (get-write f m) ∙ p in
    let k : f ≡ c = ground arith in rw (sym k) h

pub Advances-trans : (l m n : Table) → Advances l m → Advances m n → Advances l n
Advances-trans l m n a b = (b.0, λ id o. b.1 id (a.1 id o))
