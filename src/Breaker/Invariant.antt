-- ===== src/Breaker/Invariant.antt =====
-- The circuit breaker of src/core/circuit-breaker.js keeps each provider once, and no more of them than
-- it may, whatever is done with it.
use para11ax.Common.{
  ℕ, ◌+◌, ◌≤◌, ◌<◌, max, String, ◌≡◌, refl, subst, inl, inr, Bool, true, false, Option, none, some,
  List, [], ◌∷◌, arith, eq_iff, ltb, leb, Bool-cases, Option-cases, leb→lt, length-append,
}
use para11ax.JsMap.{JsMap, get, put, delete, size}
use para11ax.JsMap.Laws.{
  IsDistinct, get-put, get-delete_self, put-IsDistinct, delete-IsDistinct, size-delete, put-absent,
}
use para11ax.Breaker.{
  Circuit, Breaker, create, closed, trim, touch, assign, half_open, can_run, record_success,
  record_failure, state,
}

pub record IsSound (max : ℕ) (m : JsMap Circuit) : Type 0 where
  pub distinct : IsDistinct m
  pub few : size m ≤ max

trim-IsSound :
    (max : ℕ) (m : JsMap Circuit)
    → IsSound max m
    → 0 < max
    → IsDistinct (trim max m) × (size (trim max m) < max)
unfolding trim
trim-IsSound max [] v h = (tt, h)
trim-IsSound max ((oldest, c) ∷ rest) v h =
    let more =
      trim-IsSound max rest (record { distinct = v.distinct.1; few = omega (arith, v.few) }) h in
    elim (Bool-cases (leb max (size ((oldest, c) ∷ rest)))) [
      | inl full ↦ rw full more
      | inr room ↦ rw room (v.distinct, leb→lt max _ room)
    ]

size-put_absent :
    (name : String) (c : Circuit) (m : JsMap Circuit)
    → get name m ≡ none
    → size (put name c m) ≡ size m + 1
size-put_absent name c m absent = rw (put-absent name c m absent) (length-append m ((name, c) ∷ []))

get-trim :
    (max : ℕ) (name : String) (m : JsMap Circuit) → get name m ≡ none → get name (trim max m) ≡ none
unfolding trim get
get-trim max name [] h = refl
get-trim max name ((oldest, c) ∷ rest) h = ground (arith, get-trim max name rest)

-- A provider that is there keeps its state under new assignments.
size-put_found :
    (name : String) (c d : Circuit) (m : JsMap Circuit)
    → get name m ≡ some d
    → size (put name c m) ≡ size m
unfolding get put
size-put_found name c d [] h = cc
size-put_found name c d ((j, e) ∷ m) h = ground (arith, size-put_found name c d m)

put-IsSound :
    (max : ℕ) (name : String) (c d : Circuit) (m : JsMap Circuit)
    → get name m ≡ some d
    → IsSound max m
    → IsSound max (put name c m)
put-IsSound max name c d m found v = record {
  distinct = put-IsDistinct name c m v.distinct;
  few = rw (size-put_found name c d m found) v.few;
}

pub get-touch :
    (max : ℕ) (name : String) (creates : Bool) (m : JsMap Circuit) (c : Circuit)
    → (touch max name creates m).0 ≡ some c
    → get name (touch max name creates m).1 ≡ some c
unfolding touch
get-touch max name creates m c h = ground (
  arith,
  eq_iff name name,
  get-put name name c (delete name m),
  get-put name name closed (trim max m),
)

touch-IsSound :
    (max : ℕ) (name : String) (creates : Bool) (m : JsMap Circuit)
    → 0 < max
    → IsSound max m
    → IsSound max (touch max name creates m).1
unfolding touch
touch-IsSound max name creates m h v = elim (Option-cases (get name m)) [
  | inr (c, found) ↦
      let gone = get-delete_self name m v.distinct in
      let fewer = size-delete name c m found in
      rw (found, touch)
        (record {
          distinct = put-IsDistinct name c (delete name m) (delete-IsDistinct name m v.distinct);
          few = rw (size-put_absent name c (delete name m) gone) (omega (arith, v.few));
        })
  | inl absent ↦
      let (d, room) = trim-IsSound max m v h in
      rw (absent, touch)
        (elim (Bool-cases creates) [
          | inr keep ↦ rw keep v
          | inl make ↦ rw make (record {
            distinct = put-IsDistinct name closed (trim max m) d;
            few =
                rw (size-put_absent name closed (trim max m) (get-trim max name m absent))
                  (omega (arith, room));
          })
        ])
]

assign-IsSound :
    (max : ℕ) (name : String) (f : Circuit → Circuit) (o : Option Circuit) (m : JsMap Circuit)
    → ((c : Circuit) → o ≡ some c → get name m ≡ some c)
    → IsSound max m
    → IsSound max (assign name f (o, m))
assign-IsSound max name f none m there v = v
assign-IsSound max name f (some c) m there v = put-IsSound max name (f c) c m (there c refl) v

touch-assign-IsSound :
    (max : ℕ) (name : String) (f : Circuit → Circuit) (m : JsMap Circuit)
    → 0 < max
    → IsSound max m
    → IsSound max (assign name f (touch max name true m))
touch-assign-IsSound max name f m h v =
    assign-IsSound max name f (touch max name true m).0 (touch max name true m).1
      (get-touch max name true m) (touch-IsSound max name true m h v)

-- No provider twice, and at most `max_providers` of them.
pub record IsValid (b : Breaker) : Type 0 where
  pub one : 0 < b.max_providers
  pub sound : IsSound b.max_providers b.circuits

pub create-IsValid : (t o n : ℕ) (b : Breaker) → create t o n ≡ some b → IsValid b
unfolding create
create-IsValid t o n b h =
    let positive : 0 < n = ground arith in
    let made : record { failure_threshold = t; open_ms = o; max_providers = n; circuits = [] } ≡ b =
      ground arith in
    subst IsValid made
      record { one = positive; sound = record { distinct = tt; few = omega arith } }

can_run-IsValid :
    (now : ℕ) (name : String) (b : Breaker) → IsValid b → IsValid (can_run now name b).1
unfolding can_run
can_run-IsValid now name b v =
    let after = touch-IsSound b.max_providers name false b.circuits v.one v.sound in
    let there = get-touch b.max_providers name false b.circuits in
    elim (Option-cases (touch b.max_providers name false b.circuits).0) [
      | inl absent ↦ rw (absent, can_run) record { one = v.one; sound = after }
      | inr (c, found) ↦ elim (Bool-cases (ltb now c.open_until)) [
        | inl tripped ↦ rw (found, can_run, tripped) record { one = v.one; sound = after }
        | inr over ↦
            rw (found, can_run, over)
              record {
                one = v.one;
                sound = put-IsSound b.max_providers name (half_open c) c _ (there c found) after;
              }
      ]
    ]

-- What a client does with a breaker.
pub data Operation : Type 0 where
  asks : (now : ℕ) (name : String) → Operation
  succeeds : (now : ℕ) (name : String) → Operation
  fails :
      (now later : ℕ) (name : String) (retryable : Bool) (retry_after : Option String) → Operation
  reports : (now : ℕ) (name : String) → Operation

unfoldable pub step : Operation → Breaker → Breaker
step (asks now name) b = (can_run now name b).1
step (succeeds now name) b = record_success now name b
step (fails now later name retryable retry_after) b =
    record_failure now later name retryable retry_after b
step (reports now name) b = (state now name b).1

unfoldable pub run : List Operation → Breaker → Breaker
run [] b = b
run (o ∷ os) b = run os (step o b)

step-IsValid : (o : Operation) (b : Breaker) → IsValid b → IsValid (step o b)
unfolding step record_success record_failure state
step-IsValid (asks now name) b v = can_run-IsValid now name b v
step-IsValid (succeeds now name) b v = record {
  one = v.one;
  sound = touch-assign-IsSound b.max_providers name _ b.circuits v.one v.sound;
}
step-IsValid (fails now later name retryable retry_after) b v = record {
  one = v.one;
  sound = touch-assign-IsSound b.max_providers name _ b.circuits v.one v.sound;
}
step-IsValid (reports now name) b v = record {
  one = v.one;
  sound = touch-IsSound b.max_providers name false b.circuits v.one v.sound;
}

run-keeps : (os : List Operation) (b : Breaker) → IsValid b → IsValid (run os b)
unfolding run
run-keeps [] b v = v
run-keeps (o ∷ os) b v = run-keeps os (step o b) (step-IsValid o b v)

-- From a breaker that the constructor accepts, whatever is asked and recorded, the breaker knows each
-- provider once and at most `max_providers` of them.
pub run-IsBounded :
    (threshold open_ms max_providers : ℕ) (b : Breaker) (os : List Operation)
    → create threshold open_ms max_providers ≡ some b
    → IsValid (run os b)
run-IsBounded threshold open_ms max_providers b os made =
    run-keeps os b (create-IsValid threshold open_ms max_providers b made)
