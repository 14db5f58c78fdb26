-- ===== src/Cache/Trace.antt =====
-- Any use of a `BoundedCache` of src/core/cache.js: a sequence of its operations, with the parts of
-- `getOrLoad` wherever the event loop puts them.
use para11ax.Common.{
  ℕ, String, ◌≡◌, inl, inr, Bool, true, false, Option, some, List, [], ◌∷◌, Option-cases,
}
use para11ax.JsMap.{get}
use para11ax.Cache.{Cache, create, lookup, store, erase, clear}
use para11ax.Cache.Flight.{launch, load_missing, begin_load, settle_load, finish_load}
use para11ax.Cache.Invariant.{IsValid, create-IsValid, lookup-IsValid, erase-IsValid, clear-IsValid}
use para11ax.Cache.Storing.{store-IsValid}

pub data Operation {ℓ} (V : Type ℓ) : Type ℓ where
  gets : (now : ℕ) (key namespace : String) → Operation V
  sets : (now : ℕ) (key namespace : String) (value : V) (ttl : ℕ) → Operation V
  deletes : (key namespace : String) → Operation V
  clears : Operation V
  begins : (throws cache : Bool) (now : ℕ) (key namespace : String) → Operation V
  settles : (now : ℕ) (key namespace : String) (value : V) (ttl : ℕ) → Operation V
  finishes : (key namespace : String) → Operation V

module _ {ℓ} {V : Type ℓ} where
  launch-IsValid :
      (throws : Bool) (full : String) (c : Cache V) → IsValid c → IsValid (launch throws full c).1
  launch-IsValid true full c v = v
  launch-IsValid false full c v = record {
    distinct = v.distinct;
    counted = v.counted;
    one = v.one;
    few = v.few;
    small = v.small;
  }

  load_missing-IsValid :
      (throws : Bool) (full : String) (c : Cache V)
      → IsValid c
      → IsValid (load_missing throws full c).1
  load_missing-IsValid throws full c v = elim (Option-cases (get full c.inflight)) [
    | inl idle ↦ rw (idle, load_missing) (launch-IsValid throws full c v)
    | inr (promise, flying) ↦ rw (flying, load_missing) v
  ]

  begin_load-IsValid :
      (throws cache : Bool) (now : ℕ) (key namespace : String) (c : Cache V)
      → IsValid c
      → IsValid (begin_load throws cache now key namespace c).1
  unfolding begin_load
  begin_load-IsValid throws false now key namespace c v = v
  begin_load-IsValid throws true now key namespace c v =
      let after = lookup-IsValid now key namespace c v in
      elim (Option-cases (lookup now key namespace c).0) [
        | inl missing ↦ rw missing (load_missing-IsValid throws _ _ after)
        | inr (value, found) ↦ rw found after
      ]

module _ {ℓ} {V : Type ℓ} (serialized_bytes : V → Option ℕ) where
  unfoldable pub step : Operation V → Cache V → Cache V
  step (gets now key namespace) c = (lookup now key namespace c).1
  step (sets now key namespace value ttl) c =
      (store serialized_bytes now key namespace value ttl c).1
  step (deletes key namespace) c = (erase key namespace c).1
  step clears c = clear c
  step (begins throws cache now key namespace) c = (begin_load throws cache now key namespace c).1
  step (settles now key namespace value ttl) c =
      settle_load serialized_bytes now key namespace value ttl c
  step (finishes key namespace) c = finish_load key namespace c

  unfoldable pub run : List (Operation V) → Cache V → Cache V
  run [] c = c
  run (o ∷ os) c = run os (step o c)

  pub step-IsValid : (o : Operation V) (c : Cache V) → IsValid c → IsValid (step o c)
  unfolding step settle_load finish_load
  step-IsValid (gets now key namespace) c v = lookup-IsValid now key namespace c v
  step-IsValid (sets now key namespace value ttl) c v =
      store-IsValid serialized_bytes now key namespace value ttl c v
  step-IsValid (deletes key namespace) c v = erase-IsValid key namespace c v
  step-IsValid clears c v = clear-IsValid c v
  step-IsValid (begins throws cache now key namespace) c v =
      begin_load-IsValid throws cache now key namespace c v
  step-IsValid (settles now key namespace value ttl) c v =
      store-IsValid serialized_bytes now key namespace value ttl c v
  step-IsValid (finishes key namespace) c v = record {
    distinct = v.distinct;
    counted = v.counted;
    one = v.one;
    few = v.few;
    small = v.small;
  }

  run-keeps : (os : List (Operation V)) (c : Cache V) → IsValid c → IsValid (run os c)
  unfolding run
  run-keeps [] c v = v
  run-keeps (o ∷ os) c v = run-keeps os (step o c) (step-IsValid o c v)

  -- Whatever the constructor accepts and the operations that follow, in any order, the cache holds no
  -- key twice, counts exactly the bytes of its entries, and keeps to both of its bounds.
  pub run-IsValid :
      (max_entries max_bytes : ℕ) (c : Cache V) (os : List (Operation V))
      → create max_entries max_bytes ≡ some c
      → IsValid (run os c)
  run-IsValid max_entries max_bytes c os made =
      run-keeps os c (create-IsValid max_entries max_bytes c made)
