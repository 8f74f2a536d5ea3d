-- ===== src/Governance/Selector/Lanes.antt =====
-- Which lane is served, and which of its entries.
use mathlib.Core.Path.{subst}
use llama.Prelude.{
  first_min, first_min-In, ℕ, ◌+◌, ◌<◌, ◌≡◌, refl, inl, inr, Bool, true, false, not, List, [], ◌∷◌,
  some, ltb, if◌then◌else◌, arith, ok, All, In, select, Bool-cases, In-select, select-All,
  length-select_pos, ◌∙◌,
}
use llama.Governance.Selector.Key.{SchedulableEntry, Selector, key, key_lt, is_emergency}
use llama.Governance.Selector.Order.{key_lt_asym, key_lt_trans, first_min-Least}
use llama.Governance.Selector.Weights.{
  HasWeights, Weighted, note_weights-HasWeights, key-IsPositive,
}
use llama.Governance.Selector.{
  note_weights, lane, count_emergency, choose, select_noted, select_next,
}

-- The three ways in which a lane is chosen.
lane-cases {ℓ} :
    (P : List SchedulableEntry → Type ℓ) (s : Selector) (es : List SchedulableEntry)
    → P (select (λ e. is_emergency s.policy e) es)
    → P (select (λ e. not (is_emergency s.policy e)) es)
    → P es
    → P (lane s es)
unfolding lane
lane-cases P s es a b c = ground arith

lane-All :
    (P : SchedulableEntry → Type 0) (s : Selector) (es : List SchedulableEntry)
    → All P es
    → All P (lane s es)
lane-All P s es a = lane-cases (All P) s es (select-All P _ es a) (select-All P _ es a) a

lane-In :
    (s : Selector) (x : SchedulableEntry) (es : List SchedulableEntry) → In x (lane s es) → In x es
lane-In s x es =
    lane-cases (λ l. In x l → In x es) s es (λ i. (In-select _ x es i).0)
      (λ i. (In-select _ x es i).0) (λ i. i)

module _ (s : Selector) (now : ℕ) where
  choose-Least :
      (es : List SchedulableEntry) (t : Selector) (e : SchedulableEntry)
      → HasWeights s
      → All Weighted es
      → choose s now es ≡ (t, ok (some e))
      → In e es × All (λ x. key_lt (key s now x) (key s now e) ≡ false) es
  unfolding choose
  choose-Least [] t e w g h = absurd (ground arith)
  choose-Least (x ∷ xs) t e w g h =
      let least =
        first_min-Least (λ a b. key_lt (key s now a) (key s now b)) Weighted
          (λ a b. key_lt_asym (key s now a) (key s now b))
          (λ a b c p q r.
            key_lt_trans (key s now a) (key s now b) (key s now c) (key-IsPositive s now a w p)
              (key-IsPositive s now b w q) (key-IsPositive s now c w r))
          x xs g in
      let e' : first_min (λ a b. key_lt (key s now a) (key s now b)) x xs ≡ e = ground arith in
      subst (λ r. In r (x ∷ xs) × All (λ y. key_lt (key s now y) (key s now r) ≡ false) (x ∷ xs)) e'
        (least.0, least.1)

  choose-counts :
      (es : List SchedulableEntry) (t : Selector) (e : SchedulableEntry)
      → choose s now es ≡ (t, ok (some e))
      → (t.policy ≡ s.policy)
        × (t.consecutive_emergency
            ≡ (if is_emergency s.policy e then s.consecutive_emergency + 1 else 0))
  unfolding choose count_emergency
  choose-counts [] t e h = absurd (ground arith)
  choose-counts (x ∷ xs) t e h = ground arith

-- A call that selected went through its loop, and chose from the lane that is served.
select_next-choose :
    (s : Selector) (es : List SchedulableEntry) (now : ℕ) (t : Selector) (e : SchedulableEntry)
    → select_next s es now ≡ (t, ok (some e))
    → choose (note_weights s es).0 now (lane (note_weights s es).0 es) ≡ (t, ok (some e))
unfolding select_next select_noted
select_next-choose s [] now t e h = absurd (ground arith)
select_next-choose s (x ∷ xs) now t e h = ground arith

choose-In :
    (s : Selector) (now : ℕ) (es : List SchedulableEntry) (t : Selector) (e : SchedulableEntry)
    → choose s now es ≡ (t, ok (some e))
    → In e es
unfolding choose
choose-In s now [] t e h = absurd (ground arith)
choose-In s now (x ∷ xs) t e h =
    let p : first_min (λ a b. key_lt (key s now a) (key s now b)) x xs ≡ e = ground arith in
    subst (λ r. In r (x ∷ xs)) p (first_min-In _ x xs)

-- Whatever the weights are, what `select` returns was offered.
pub select_next-In :
    (s : Selector) (es : List SchedulableEntry) (now : ℕ) (t : Selector) (e : SchedulableEntry)
    → select_next s es now ≡ (t, ok (some e))
    → In e es
select_next-In s es now t e h =
    let noted = (note_weights s es).0 in
    lane-In noted e es (choose-In noted now (lane noted es) t e (select_next-choose s es now t e h))

-- The entry that `select` returns is one of the entries offered, it stands in the lane that is
-- served, and no entry of that lane has a smaller key. The recorded weights and those of the
-- entries are taken to be positive, as `SchedulingMetadata` checks.
pub select_next-minimal :
    (s : Selector) (es : List SchedulableEntry) (now : ℕ) (t : Selector) (e : SchedulableEntry)
    → HasWeights s
    → All Weighted es
    → select_next s es now ≡ (t, ok (some e))
    → let noted = (note_weights s es).0 in
      In e es
      × In e (lane noted es)
      × All (λ x. key_lt (key noted now x) (key noted now e) ≡ false) (lane noted es)
select_next-minimal s es now t e w g h =
    let noted = (note_weights s es).0 in
    let kept = note_weights-HasWeights s es g w in
    let least =
      choose-Least noted now (lane noted es) t e kept.0 (lane-All Weighted noted es g)
        (select_next-choose s es now t e h) in
    (lane-In noted e es least.0, least.0, least.1)

not-false : (b : Bool) → not b ≡ true → b ≡ false
not-false b h = ground arith

-- An emergency entry is served beside a normal one only below the cap.
lane_emergency :
    (s : Selector) (es : List SchedulableEntry) (e x : SchedulableEntry)
    → In e (lane s es)
    → is_emergency s.policy e ≡ true
    → In x es
    → is_emergency s.policy x ≡ false
    → s.consecutive_emergency < s.policy.emergency_burst_cap
unfolding lane
lane_emergency s es e x i em j normal =
    elim (Bool-cases (ltb s.consecutive_emergency s.policy.emergency_burst_cap)) [
      | inl below ↦ ground arith
      | inr reached ↦
          let waiting =
            length-select_pos (λ y. not (is_emergency s.policy y)) x es j (rw normal refl) in
          let served : lane s es ≡ select (λ y. not (is_emergency s.policy y)) es = ground arith in
          let other = In-select (λ y. not (is_emergency s.policy y)) e es (rw served at i) in
          absurd (ground arith)
    ]

-- What an emergency selection beside a normal entry does to the counter.
pub served_emergency :
    (s : Selector) (es : List SchedulableEntry) (now : ℕ) (t : Selector) (e x : SchedulableEntry)
    → HasWeights s
    → All Weighted es
    → select_next s es now ≡ (t, ok (some e))
    → is_emergency s.policy e ≡ true
    → In x es
    → is_emergency s.policy x ≡ false
    → (t.policy ≡ s.policy)
      × (t.consecutive_emergency ≡ s.consecutive_emergency + 1)
      × (s.consecutive_emergency < s.policy.emergency_burst_cap)
served_emergency s es now t e x w g h em j normal =
    let noted = (note_weights s es).0 in
    let kept = note_weights-HasWeights s es g w in
    let policy : noted.policy ≡ s.policy = kept.1 in
    let count : noted.consecutive_emergency ≡ s.consecutive_emergency = kept.2 in
    let em' : is_emergency noted.policy e ≡ true = rw policy em in
    let normal' : is_emergency noted.policy x ≡ false = rw policy normal in
    let counts = choose-counts noted now (lane noted es) t e (select_next-choose s es now t e h) in
    let in_lane = (select_next-minimal s es now t e w g h).1 in
    let below = lane_emergency noted es e x in_lane em' j normal' in
    (counts.0 ∙ policy, ground arith, ground arith)
