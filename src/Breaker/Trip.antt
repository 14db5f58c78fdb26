-- ===== src/Breaker/Trip.antt =====
-- When the circuit of src/core/circuit-breaker.js opens, how long it stays open, and what closes it.
use para11ax.Common.{
  ℕ, ◌+◌, ◌-◌, ◌≤◌, ◌<◌, max, String, ◌≡◌, refl, sym, ap, ◌∙◌, inl, inr, Bool, true, false, ◌&&◌,
  Option, none, some, List, [], ◌∷◌, ◌++◌, arith, eq_iff, ltb, leb, if◌then◌else◌, Bool-cases,
  leb→le, leb→lt, length,
}
use para11ax.JsMap.{JsMap, get}
use para11ax.JsMap.Laws.{get-put}
use para11ax.Breaker.{
  Circuit, Breaker, Permission, granted, closed, touch, assign, can_run, succeed, record_success,
  fail, record_failure,
}

abbrev pub or_closed : Option Circuit → Circuit
or_closed none = closed
or_closed (some c) = c

-- The state with which the operations go on for a provider.
abbrev pub circuit_of : String → Breaker → Circuit
circuit_of name b = or_closed (get name b.circuits)

-- What `canRun` answers for such a state.
abbrev pub permission : ℕ → Circuit → Permission
permission now c =
    if ltb now c.open_until
    then record { allowed = false; retry_after_ms = c.open_until - now }
    else granted

touch_create :
    (max : ℕ) (name : String) (m : JsMap Circuit)
    → (touch max name true m).0 ≡ some (or_closed (get name m))
unfolding touch
touch_create max name m = ground arith

get-assign :
    (name : String) (f : Circuit → Circuit) (o : Option Circuit) (m : JsMap Circuit) (c : Circuit)
    → o ≡ some c
    → get name (assign name f (o, m)) ≡ some (f c)
get-assign name f none m c h = cc
get-assign name f (some d) m c h = ground (arith, get-put name name (f d) m, eq_iff name name)

touch_found :
    (max : ℕ) (name : String) (m : JsMap Circuit) → (touch max name false m).0 ≡ get name m
unfolding touch
touch_found max name m = ground arith

get-touch-assign :
    (max : ℕ) (name : String) (f : Circuit → Circuit) (m : JsMap Circuit)
    → get name (assign name f (touch max name true m)) ≡ some (f (or_closed (get name m)))
get-touch-assign max name f m =
    get-assign name f (touch max name true m).0 (touch max name true m).1 _
      (touch_create max name m)

circuit-record_success :
    (now : ℕ) (name : String) (b : Breaker)
    → circuit_of name (record_success now name b) ≡ succeed now (circuit_of name b)
unfolding record_success
circuit-record_success now name b =
    ap or_closed (get-touch-assign b.max_providers name (succeed now) b.circuits)

circuit-record_failure :
    (now later : ℕ) (name : String) (retryable : Bool) (retry_after : Option String) (b : Breaker)
    → circuit_of name (record_failure now later name retryable retry_after b)
      ≡ fail b.failure_threshold b.open_ms now later retryable retry_after (circuit_of name b)
unfolding record_failure
circuit-record_failure now later name retryable retry_after b = ap or_closed (
    get-touch-assign b.max_providers name
      (fail b.failure_threshold b.open_ms now later retryable retry_after) b.circuits)

can_run-permission :
    (now : ℕ) (name : String) (b : Breaker)
    → (can_run now name b).0 ≡ permission now (circuit_of name b)
unfolding can_run
can_run-permission now name b =
    rw (touch_found b.max_providers name b.circuits, can_run) (ground arith)

-- A retryable failure, as the scheduler records one.
pub record Failure : Type 0 where
  pub now : ℕ
  pub later : ℕ
  pub retry_after : Option String

abbrev pub record_failures : String → List Failure → Breaker → Breaker
record_failures name [] b = b
record_failures name (f ∷ fs) b =
    record_failures name fs (record_failure f.now f.later name true f.retry_after b)

limits-record_failures :
    (name : String) (fs : List Failure) (b : Breaker)
    → ((record_failures name fs b).failure_threshold ≡ b.failure_threshold)
      × ((record_failures name fs b).open_ms ≡ b.open_ms)
unfolding record_failure
limits-record_failures name [] b = (refl, refl)
limits-record_failures name (f ∷ fs) b =
    limits-record_failures name fs (record_failure f.now f.later name true f.retry_after b)

record_failures-append :
    (name : String) (fs gs : List Failure) (b : Breaker)
    → record_failures name (fs ++ gs) b ≡ record_failures name gs (record_failures name fs b)
record_failures-append name [] gs b = refl
record_failures-append name (f ∷ fs) gs b = record_failures-append name fs gs _

same_threshold :
    (f : Failure) (name : String) (b : Breaker)
    → (record_failure f.now f.later name true f.retry_after b).failure_threshold
      ≡ b.failure_threshold
unfolding record_failure
same_threshold f name b = refl

count-record_failure :
    (name : String) (f : Failure) (b : Breaker)
    → (circuit_of name
        (record_failure f.now f.later name true f.retry_after b)).consecutive_failures
      ≡ (circuit_of name b).consecutive_failures + 1
count-record_failure name f b =
    rw (circuit-record_failure f.now f.later name true f.retry_after b, circuit_of) (ground arith)

count-record_failures :
    (name : String) (fs : List Failure) (b : Breaker)
    → (circuit_of name (record_failures name fs b)).consecutive_failures
      ≡ (circuit_of name b).consecutive_failures + length fs
count-record_failures name [] b = omega arith
count-record_failures name (f ∷ fs) b =
    let next = record_failure f.now f.later name true f.retry_after b in
    omega (arith, count-record_failures name fs next, count-record_failure name f b)

stays-fail :
    (threshold open_ms : ℕ) (f : Failure) (c : Circuit)
    → c.consecutive_failures + 1 < threshold
    → (fail threshold open_ms f.now f.later true f.retry_after c).open_until ≡ c.open_until
stays-fail threshold open_ms f c few = ground arith

opens-fail :
    (threshold open_ms : ℕ) (f : Failure) (c : Circuit)
    → threshold ≤ c.consecutive_failures + 1
    → (fail threshold open_ms f.now f.later true f.retry_after c).open_until ≡ f.later + open_ms
opens-fail threshold open_ms f c many = ground arith

-- Below the threshold a failure does not open the circuit.
stays-record_failure :
    (name : String) (f : Failure) (b : Breaker)
    → (circuit_of name b).consecutive_failures + 1 < b.failure_threshold
    → (circuit_of name (record_failure f.now f.later name true f.retry_after b)).open_until
      ≡ (circuit_of name b).open_until
stays-record_failure name f b few =
    ap (λ c. c.open_until) (circuit-record_failure f.now f.later name true f.retry_after b)
    ∙ stays-fail b.failure_threshold b.open_ms f (circuit_of name b) few

-- At the threshold and above it does.
opens-record_failure :
    (name : String) (f : Failure) (b : Breaker)
    → b.failure_threshold ≤ (circuit_of name b).consecutive_failures + 1
    → (circuit_of name (record_failure f.now f.later name true f.retry_after b)).open_until
      ≡ f.later + b.open_ms
opens-record_failure name f b many =
    ap (λ c. c.open_until) (circuit-record_failure f.now f.later name true f.retry_after b)
    ∙ opens-fail b.failure_threshold b.open_ms f (circuit_of name b) many

stays-record_failures :
    (name : String) (fs : List Failure) (b : Breaker)
    → (circuit_of name b).consecutive_failures + length fs < b.failure_threshold
    → (circuit_of name (record_failures name fs b)).open_until ≡ (circuit_of name b).open_until
stays-record_failures name [] b few = refl
stays-record_failures name (f ∷ fs) b few =
    let next = record_failure f.now f.later name true f.retry_after b in
    stays-record_failures name fs next
      (omega (arith, count-record_failure name f b, same_threshold f name b))
    ∙ stays-record_failure name f b (omega arith)

-- The answer once a circuit has been opened at the threshold, and before that.
abbrev pub tripped : (threshold failures until now : ℕ) → Permission
tripped threshold failures until now =
    if leb threshold failures && ltb now until
    then record { allowed = false; retry_after_ms = until - now }
    else granted

permission-tripped :
    (threshold failures until now : ℕ) (c : Circuit)
    → leb threshold failures ≡ true
    → c.open_until ≡ until
    → permission now c ≡ tripped threshold failures until now
permission-tripped threshold failures until now c many opened = rw (many, opened) (ground arith)

permission-shut :
    (threshold failures until now : ℕ) (c : Circuit)
    → leb threshold failures ≡ false
    → c.open_until ≡ 0
    → permission now c ≡ tripped threshold failures until now
permission-shut threshold failures until now c few shut = rw (few, shut) (ground arith)

-- A success closes the circuit. Of the retryable failures in a row that follow it, those below the
-- threshold leave the provider allowed; from the threshold on, `canRun` refuses it until `openMs` after
-- the last one, with the time that is left, and allows it then.
pub can_run-record_failures :
    (name : String) (fs : List Failure) (f : Failure) (at now : ℕ) (b : Breaker)
    → (can_run now name (record_failures name (fs ++ f ∷ []) (record_success at name b))).0
      ≡ tripped b.failure_threshold (length fs + 1) (f.later + b.open_ms) now
unfolding record_success
can_run-record_failures name fs f at now b =
    let start = record_success at name b in
    let mid = record_failures name fs start in
    let last = record_failure f.now f.later name true f.retry_after mid in
    let fresh = circuit-record_success at name b in
    let none_yet : (circuit_of name start).consecutive_failures ≡ 0 =
      ap (λ c. c.consecutive_failures) fresh in
    let shut : (circuit_of name start).open_until ≡ 0 = ap (λ c. c.open_until) fresh in
    let counted = count-record_failures name fs start in
    let (threshold, open_ms) = limits-record_failures name fs start in
    rw (record_failures-append name fs (f ∷ []) start) (
      can_run-permission now name last
      ∙ elim (Bool-cases (leb b.failure_threshold (length fs + 1))) [
        | inl many ↦
            permission-tripped b.failure_threshold (length fs + 1) (f.later + b.open_ms) now
              (circuit_of name last) many
              (opens-record_failure name f mid (
                  omega (
                    arith,
                    leb→le b.failure_threshold (length fs + 1) many,
                    threshold,
                    counted,
                    none_yet,
                  ))
                ∙ ap (λ (t : ℕ). f.later + t) open_ms)
        | inr few ↦
            let room = leb→lt b.failure_threshold (length fs + 1) few in
            permission-shut b.failure_threshold (length fs + 1) (f.later + b.open_ms) now
              (circuit_of name last) few
              (stays-record_failure name f mid (omega (arith, room, threshold, counted, none_yet))
                ∙ stays-record_failures name fs start (omega (arith, room, none_yet))
                ∙ shut)
      ])

-- A failure that is not retryable starts the count anew and leaves the answer of `canRun` as it was, an
-- open circuit open.
pub can_run-permanent_failure :
    (at later now : ℕ) (name : String) (retry_after : Option String) (b : Breaker)
    → ((can_run now name (record_failure at later name false retry_after b)).0
        ≡ (can_run now name b).0)
      × ((circuit_of name (record_failure at later name false retry_after b)).consecutive_failures
          ≡ 0)
can_run-permanent_failure at later now name retry_after b =
    let after = circuit-record_failure at later name false retry_after b in
    (
      can_run-permission now name (record_failure at later name false retry_after b)
          ∙ ap (permission now) after
          ∙ sym (can_run-permission now name b),
      ap (λ c. c.consecutive_failures) after,
    )
