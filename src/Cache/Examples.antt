-- ===== src/Cache/Examples.antt =====
-- Runs of src/core/cache.js at concrete inputs, and instances of the theorems about it.
use para11ax.Common.{
  ℕ, ◌+◌, ◌≡◌, refl, ◌⊎◌, true, false, Option, none, some, [], ◌∷◌, arith, ltb, if◌then◌else◌,
}
use para11ax.JsMap.{get, put, delete, has}
use para11ax.Cache.{clear, Entry, Cache, empty, create, full_key, lookup, store, make_room, remove}
use para11ax.Cache.Flight.{
  Load, started, joined, cached, begin_load, fulfils, settle_load, finish_load,
}
use para11ax.Cache.Invariant.{IsValid}
use para11ax.Cache.Eviction.{Stores}
use para11ax.Cache.Storing.{store-accepts, lookup-store}
use para11ax.Cache.Trace.{gets, sets, begins, run, run-IsValid}
use para11ax.Cache.SingleFlight.{single_flight}
use para11ax.Cache.Forgotten.{stale_end, second_load, third_load}

abbrev sized : ℕ → Option ℕ
sized n = some n

abbrev no_entries : Cache ℕ
no_entries = empty 2 10

abbrev entry : ℕ → ℕ → Entry ℕ
entry n until = record { value = n; expires_at = until; bytes = n }

-- Full by its bytes and by its entries, the older first.
abbrev two_entries : Cache ℕ
two_entries = record no_entries {
  bytes = 10;
  entries = ("n\0a", entry 6 100) ∷ ("n\0b", entry 4 200) ∷ [];
}

two_entries-IsValid : IsValid two_entries
unfolding get
two_entries-IsValid = record {
  distinct = (refl, (refl, tt));
  counted = refl;
  one = omega arith;
  few = omega arith;
  small = omega arith;
}

-- A value of 5 bytes evicts the older entry and keeps the younger.
evicts_oldest :
    (store sized 7 "c" "n" 5 50 two_entries).1.entries
    ≡ ("n\0b", entry 4 200) ∷ ("n\0c", entry 5 57) ∷ []
unfolding store full_key make_room remove put delete get has
evicts_oldest = refl

-- After a `get`, the other entry is the oldest.
get_renews :
    (store sized 7 "c" "n" 3 50 (lookup 5 "a" "n" two_entries).1).1.entries
    ≡ ("n\0a", entry 6 100) ∷ ("n\0c", entry 3 57) ∷ []
unfolding store full_key lookup make_room remove put delete get has
get_renews = refl

run-IsValid_example : IsValid (
    run sized (sets 0 "a" "n" 6 100 ∷ gets 5 "a" "n" ∷ begins false true 9 "b" "n" ∷ []) no_entries)
unfolding create
run-IsValid_example =
    run-IsValid sized 2 10 no_entries
      (sets 0 "a" "n" 6 100 ∷ gets 5 "a" "n" ∷ begins false true 9 "b" "n" ∷ []) refl

store-accepts_example :
    (c' : Cache ℕ) × (store sized 7 "c" "n" 5 50 two_entries ≡ (true, c'))
    × Stores
        (full_key "c" "n")
        (record { value = 5; expires_at = 7 + 50; bytes = 5 })
        two_entries
        c'
store-accepts_example =
    store-accepts sized 7 "c" "n" 5 50 two_entries 5 two_entries-IsValid
      (omega arith, refl, omega arith)

lookup-store_example :
    (lookup 56 "c" "n" (store sized 7 "c" "n" 5 50 two_entries).1).0
    ≡ (if ltb 56 (7 + 50) then some 5 else none)
unfolding store full_key make_room remove put delete get has
lookup-store_example =
    lookup-store sized 7 "c" "n" 5 50 two_entries
      (record two_entries {
        bytes = 9;
        entries = ("n\0b", entry 4 200) ∷ ("n\0c", entry 5 57) ∷ [];
        counters = record { hits = 0; misses = 0; evictions = 1; expirations = 0 };
      })
      5 56 two_entries-IsValid (omega arith, refl, omega arith) refl

abbrev second_caller : Load ℕ
second_caller =
    (begin_load false true 2 "z" "n"
      (run sized (sets 1 "a" "n" 3 50 ∷ []) (begin_load false true 0 "z" "n" no_entries).1)).0

single_flight_example : (second_caller ≡ joined 0) ⊎ ((v : ℕ) × (second_caller ≡ cached v))
unfolding begin_load lookup get
single_flight_example =
    single_flight sized false true false 0 2 "z" "n" 0 (sets 1 "a" "n" 3 50 ∷ []) no_entries refl
      (tt, tt)

-- The older load gives a value that is larger than the cache.
stale_end_example :
    ((second_load sized 20 "z" "n" 50 0 5 no_entries).0 ≡ started 1)
    × (third_load sized 20 "z" "n" 50 0 5 30 (fulfils 11) no_entries ≡ started 2)
unfolding begin_load clear lookup get
stale_end_example =
    stale_end sized 20 "z" "n" 50 0 5 30 0 (fulfils 11) no_entries refl (λ bytes s. ground arith)

-- A value that is stored is what the next call gets.
third_gets_value : third_load sized 20 "z" "n" 50 0 5 30 (fulfils 4) no_entries ≡ cached 4
unfolding begin_load clear lookup store settle_load finish_load full_key make_room remove put delete
    get has
third_gets_value = refl
