-- ===== src/Breaker/Isolation.antt =====
-- What is recorded of one provider in src/core/circuit-breaker.js leaves the others alone.
use para11ax.Common.{
  ◌+◌, ◌<◌, ◌⊎◌, subst, leb, leb→le, ◌==ₛ◌, ℕ, max, String, ◌≡◌, refl, ◌∙◌, ◌≢◌, inl, inr, Bool,
  true, false, Option, none, some, [], ◌∷◌, arith, eq_iff, ltb, Bool-cases, Option-cases,
}
use para11ax.JsMap.{JsMap, size, get, delete}
use para11ax.JsMap.Laws.{get-put_other, get-delete_other}
use para11ax.Breaker.{
  fail, succeed, Circuit, Breaker, closed, trim, touch, assign, can_run, record_success,
  record_failure, half_open, state,
}
use para11ax.Breaker.Invariant.{IsSound, Operation, asks, succeeds, fails, reports, step, IsValid}

trim_room : (max : ℕ) (m : JsMap Circuit) → size m < max → trim max m ≡ m
unfolding trim
trim_room max [] h = refl
trim_room max ((oldest, c) ∷ rest) h = ground arith

-- The first of a map that is full.
abbrev pub IsOldest : ℕ → String → JsMap Circuit → Type 0
IsOldest max name [] = ⊥
IsOldest max name ((oldest, c) ∷ rest) = (oldest ≡ name) × (size rest + 1 ≡ max)

trim-cases :
    (max : ℕ) (other : String) (m : JsMap Circuit)
    → IsSound max m
    → (get other (trim max m) ≡ get other m)
      ⊎ (IsOldest max other m × (get other (trim max m) ≡ none))
unfolding trim get
trim-cases max other [] v = inl refl
trim-cases max other ((oldest, c) ∷ rest) v =
    let few = v.few in
    elim (Bool-cases (leb max (size ((oldest, c) ∷ rest)))) [
      | inr room ↦ inl (rw room refl)
      | inl full ↦
          let kept = trim_room max rest (omega (arith, few)) in
          elim (Bool-cases (oldest ==ₛ other)) [
            | inr differs ↦ inl (rw (full, kept, differs) refl)
            | inl same ↦
                let name : oldest ≡ other = (eq_iff oldest other).0 same in
                let size_eq : size rest + 1 ≡ max =
                  omega (arith, few, leb→le max (size ((oldest, c) ∷ rest)) full) in
                inr (
                  (name, size_eq),
                  rw (full, kept) (subst (λ k. get k rest ≡ none) name v.distinct.0),
                )
          ]
    ]

touch-cases :
    (max : ℕ) (name other : String) (creates : Bool) (m : JsMap Circuit)
    → name ≢ other
    → IsSound max m
    → (get other (touch max name creates m).1 ≡ get other m)
      ⊎ ((get name m ≡ none)
          × (creates ≡ true)
          × IsOldest max other m
          × (get other (touch max name creates m).1 ≡ none))
unfolding touch
touch-cases max name other creates m apart v = elim (Option-cases (get name m)) [
  | inr (e, found) ↦ inl (
      rw (found, touch)
        (get-put_other name other e (delete name m) apart ∙ get-delete_other name other m apart))
  | inl absent ↦ elim (Bool-cases creates) [
    | inr keep ↦ inl (rw (absent, touch, keep) refl)
    | inl make ↦
        let put_it = get-put_other name other closed (trim max m) apart in
        elim (trim-cases max other m v) [
          | inl same ↦ inl (rw (absent, touch, make) (put_it ∙ same))
          | inr (oldest, gone) ↦
              inr (absent, make, oldest, rw (absent, touch, make) (put_it ∙ gone))
        ]
  ]
]

get-assign_other :
    (name other : String) (f : Circuit → Circuit) (o : Option Circuit) (m : JsMap Circuit)
    → name ≢ other
    → get other (assign name f (o, m)) ≡ get other m
get-assign_other name other f none m apart = refl
get-assign_other name other f (some c) m apart = get-put_other name other (f c) m apart

get-can_run_other :
    (now : ℕ) (name other : String) (b : Breaker)
    → name ≢ other
    → get other (can_run now name b).1.circuits
      ≡ get other (touch b.max_providers name false b.circuits).1
unfolding can_run
get-can_run_other now name other b apart =
    elim (Option-cases (touch b.max_providers name false b.circuits).0) [
      | inl absent ↦ rw (absent, can_run) refl
      | inr (c, found) ↦ elim (Bool-cases (ltb now c.open_until)) [
        | inl open_still ↦ rw (found, can_run, open_still) refl
        | inr over ↦ rw (found, can_run, over) (get-put_other name other (half_open c) _ apart)
      ]
    ]

-- The provider that an operation is about.
abbrev pub subject : Operation → String
subject (asks now name) = name
subject (succeeds now name) = name
subject (fails now later name retryable retry_after) = name
subject (reports now name) = name

abbrev Creates : Operation → Type 0
Creates (asks now name) = ⊥
Creates (succeeds now name) = Unit
Creates (fails now later name retryable retry_after) = Unit
Creates (reports now name) = ⊥

-- The circuit of `other` was the one used least recently in a full breaker, and has made room for that of
-- a provider that succeeds or fails for the first time.
pub record Evicted (o : Operation) (other : String) (b : Breaker) : Type 0 where
  pub creates : Creates o
  pub unknown : get (subject o) b.circuits ≡ none
  pub oldest : IsOldest b.max_providers other b.circuits
  pub gone : get other (step o b).circuits ≡ none

-- An operation leaves the circuit of each provider that it is not about as it was, or as absent as it was,
-- with one exception: when a provider without a circuit succeeds or fails and the breaker is full, the
-- circuit that was used least recently is gone.
pub get-step_other :
    (o : Operation) (other : String) (b : Breaker)
    → IsValid b
    → subject o ≢ other
    → (get other (step o b).circuits ≡ get other b.circuits) ⊎ Evicted o other b
unfolding step record_success record_failure state
get-step_other (asks now name) other b v apart =
    let same = get-can_run_other now name other b apart in
    elim (touch-cases b.max_providers name other false b.circuits apart v.sound) [
      | inl kept ↦ inl (same ∙ kept)
      | inr (absent, never, oldest, gone) ↦ cc
    ]
get-step_other (succeeds now name) other b v apart =
    let same =
      get-assign_other name other (succeed now) (touch b.max_providers name true b.circuits).0
        (touch b.max_providers name true b.circuits).1 apart in
    elim (touch-cases b.max_providers name other true b.circuits apart v.sound) [
      | inl kept ↦ inl (same ∙ kept)
      | inr (absent, made, oldest, gone) ↦
          inr (record { creates = tt; unknown = absent; oldest = oldest; gone = same ∙ gone })
    ]
get-step_other (fails now later name retryable retry_after) other b v apart =
    let same =
      get-assign_other name other
        (fail b.failure_threshold b.open_ms now later retryable retry_after)
        (touch b.max_providers name true b.circuits).0
        (touch b.max_providers name true b.circuits).1 apart in
    elim (touch-cases b.max_providers name other true b.circuits apart v.sound) [
      | inl kept ↦ inl (same ∙ kept)
      | inr (absent, made, oldest, gone) ↦
          inr (record { creates = tt; unknown = absent; oldest = oldest; gone = same ∙ gone })
    ]
get-step_other (reports now name) other b v apart =
    elim (touch-cases b.max_providers name other false b.circuits apart v.sound) [
      | inl kept ↦ inl kept
      | inr (absent, never, oldest, gone) ↦ cc
    ]
