-- ===== src/Scheduler/Sound/Stepping.antt =====
-- The batches of inference_runtime/continuous_scheduler.py on the table of entries.
use mathlib.Core.Path.{subst}
use llama.Prelude.{
  false, if-rule, List, [], ◌∷◌, some, Option-cases, String, inl, inr, ◌≡◌, refl, sym, All,
}
use llama.Contracts.Outcomes.{PrefillOutcome, PrefillStatus, DecodeOutcome}
use llama.Scheduler.State.{
  RuntimeRequestState, prefill, decode, releasing, RequestEntry, Scheduler, is_terminal, find,
}
use llama.Scheduler.Batches.{
  amend, same_handle, set_states, apply_prefill, requeue, mismatched, settle_prefill,
}
use llama.Scheduler.Decoding.{checked, with_delta, is_progressed, apply_decode, settle_decode}
use llama.Scheduler.Sound.{
  lookup, Sound, Table, IsOpen, Advances, Advances-trans, Continues, continue-Advances,
}

abbrev pub AllOpen : Table → List RequestEntry → Type 0
AllOpen m es = All (λ e. IsOpen m e.scheduling.request_id) es

pub AllOpen-Advances :
    (m n : Table) (es : List RequestEntry) → Advances m n → AllOpen m es → AllOpen n es
AllOpen-Advances m n [] a o = tt
AllOpen-Advances m n (e ∷ es) a o = (a.1 e.scheduling.request_id o.0, AllOpen-Advances m n es a o.1)

pub amend-Advances :
    (s : Scheduler) (id : String) (f : RequestEntry → RequestEntry)
    → Sound s.entries
    → IsOpen s.entries id
    → ((e : RequestEntry) → Continues e (f e))
    → Advances s.entries (amend s id f).entries
amend-Advances s id f i o c = elim (Option-cases (find s id)) [
  | inl p ↦ rw (amend, p) (i, λ j k. k)
  | inr (e, p) ↦
      let own : find s e.scheduling.request_id ≡ some e =
        subst (λ j. find s j ≡ some e) (sym (lookup s.entries id e i p).0) p in
      rw (amend, p) (continue-Advances e (f e) s.entries i own (o e p) (c e))
]

pub set_states-Advances :
    (s : Scheduler) (es : List RequestEntry) (state : RuntimeRequestState)
    → is_terminal state ≡ false
    → Sound s.entries
    → AllOpen s.entries es
    → Advances s.entries (set_states s es state).entries
set_states-Advances s [] state n i o = (i, λ j k. k)
set_states-Advances s (e ∷ es) state n i o =
    let s1 = amend s e.scheduling.request_id (λ c. record c { state = state }) in
    let a =
      amend-Advances s e.scheduling.request_id (λ c. record c { state = state }) i o.0
        (λ c. record {
          request = refl;
          id = refl;
          result = refl;
          terminalizing = refl;
          still_open = n;
        }) in
    Advances-trans s.entries s1.entries _ a
      (set_states-Advances s1 es state n a.0 (AllOpen-Advances s.entries s1.entries es a o.1))

requeue-Advances :
    (s : Scheduler) (id : String) (status : PrefillStatus)
    → Sound s.entries
    → IsOpen s.entries id
    → Advances s.entries (requeue s id status).entries
requeue-Advances s id PrefillStatus.ready i o =
    amend-Advances s id (λ c. record c { state = decode }) i o
      (λ c. record {
        request = refl;
        id = refl;
        result = refl;
        terminalizing = refl;
        still_open = refl;
      })
requeue-Advances s id PrefillStatus.partial i o =
    amend-Advances s id (λ c. record c { state = prefill }) i o
      (λ c. record {
        request = refl;
        id = refl;
        result = refl;
        terminalizing = refl;
        still_open = refl;
      })

settle_prefill-Advances :
    (s : Scheduler) (e : RequestEntry) (out : PrefillOutcome)
    → Sound s.entries
    → IsOpen s.entries e.scheduling.request_id
    → Advances s.entries (settle_prefill s e out).entries
unfolding settle_prefill
settle_prefill-Advances s e out i o =
    if-rule {A = Scheduler} (λ t. Advances s.entries t.entries) (same_handle e.handle out.handle) _
      _ (requeue-Advances s e.scheduling.request_id out.status i o)
      (amend-Advances s e.scheduling.request_id mismatched i o (λ c. record {
        request = refl;
        id = refl;
        result = refl;
        terminalizing = refl;
        still_open = refl;
      }))

pub apply_prefill-Advances :
    (s : Scheduler) (es : List RequestEntry) (os : List PrefillOutcome)
    → Sound s.entries
    → AllOpen s.entries es
    → Advances s.entries (apply_prefill s es os).entries
unfolding apply_prefill
apply_prefill-Advances s [] os i o = (i, λ j k. k)
apply_prefill-Advances s (e ∷ es) [] i o = (i, λ j k. k)
apply_prefill-Advances s (e ∷ es) (out ∷ os) i o =
    let s1 = settle_prefill s e out in
    let a = settle_prefill-Advances s e out i o.0 in
    Advances-trans s.entries s1.entries _ a
      (apply_prefill-Advances s1 es os a.0 (AllOpen-Advances s.entries s1.entries es a o.1))

with_delta-Continues :
    (delta : String) (state : RuntimeRequestState) (e : RequestEntry)
    → is_terminal state ≡ false
    → Continues e (record (with_delta delta e) { state = state })
with_delta-Continues delta state e n =
    if-rule {A = RequestEntry} (λ f. Continues e (record f { state = state })) _ _ _
      (record { request = refl; id = refl; result = refl; terminalizing = refl; still_open = n })
      (record { request = refl; id = refl; result = refl; terminalizing = refl; still_open = n })

settle_decode-Advances :
    (s : Scheduler) (id : String) (out : DecodeOutcome)
    → Sound s.entries
    → IsOpen s.entries id
    → Advances s.entries (settle_decode s id out).entries
unfolding settle_decode
settle_decode-Advances s id out i o =
    if-rule {A = Scheduler} (λ t. Advances s.entries t.entries) (is_progressed out.status) _ _
      (amend-Advances s id (λ c. record (with_delta out.text_delta c) { state = decode }) i o
        (λ c. with_delta-Continues out.text_delta decode c refl))
      (amend-Advances s id (λ c. record (with_delta out.text_delta c) { state = releasing }) i o
        (λ c. with_delta-Continues out.text_delta releasing c refl))

pub apply_decode-Advances :
    (s : Scheduler) (es : List RequestEntry) (os : List DecodeOutcome)
    → Sound s.entries
    → AllOpen s.entries es
    → Advances s.entries (apply_decode s es os).entries
unfolding apply_decode
apply_decode-Advances s [] os i o = (i, λ j k. k)
apply_decode-Advances s (e ∷ es) [] i o = (i, λ j k. k)
apply_decode-Advances s (e ∷ es) (out ∷ os) i o =
    let s1 = settle_decode s e.scheduling.request_id (checked e out) in
    let a = settle_decode-Advances s e.scheduling.request_id (checked e out) i o.0 in
    Advances-trans s.entries s1.entries _ a
      (apply_decode-Advances s1 es os a.0 (AllOpen-Advances s.entries s1.entries es a o.1))
