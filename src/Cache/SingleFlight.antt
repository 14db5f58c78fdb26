-- ===== src/Cache/SingleFlight.antt =====
-- `getOrLoad` of src/core/cache.js shares one load among the callers that ask while it runs.
use para11ax.Common.{
  ℕ, String, ◌≡◌, refl, sym, ◌∙◌, subst, ◌≢◌, ◌⊎◌, inl, inr, Bool, true, false, Option, none, some,
  List, [], ◌∷◌, arith, eq_iff, ltb, Bool-cases, Option-cases, All,
}
use para11ax.JsMap.{JsMap, get}
use para11ax.JsMap.Laws.{get-put, get-delete_other}
use para11ax.Cache.{
  Cache, full_key, lookup, remove, store, erase, Removal, make_room, Entry, eviction, append_entry,
  is_full_for, forget, plain,
}
use para11ax.Cache.Flight.{
  cached, joined, started, begin_load, settle_load, finish_load, launch, load_missing,
}
use para11ax.Cache.Trace.{
  Operation, gets, sets, deletes, clears, begins, settles, finishes, step, run,
}

-- The operations that leave the load of `full` in the table: all but `clear` and the end of a load of that
-- key, its own or that of an older load that a `clear` made forgotten.
abbrev pub Leaves {ℓ} : {V : Type ℓ} → String → Operation V → Type 0
Leaves full clears = ⊥
Leaves full (finishes key namespace) = full_key key namespace ≢ full
Leaves full _ = Unit

module _ {ℓ} {V : Type ℓ} where
  inflight-remove :
      (full : String) (why : Removal) (c : Cache V) → (remove full why c).1.inflight ≡ c.inflight
  unfolding remove
  inflight-remove full why c = ground arith

  inflight-lookup :
      (now : ℕ) (key namespace : String) (c : Cache V)
      → (lookup now key namespace c).1.inflight ≡ c.inflight
  unfolding lookup
  inflight-lookup now key namespace c = ground arith

  inflight-make_room :
      (bytes : ℕ) (m : JsMap (Entry V)) (c : Cache V)
      → (make_room bytes m c).1.inflight ≡ c.inflight
  unfolding make_room
  inflight-make_room bytes [] c = refl
  inflight-make_room bytes ((oldest, e) ∷ rest) c =
      let next =
        inflight-make_room bytes rest (remove oldest eviction c).1
        ∙ inflight-remove oldest eviction c in
      elim (Bool-cases (is_full_for bytes c)) [ inl full ↦ rw full next | inr room ↦ rw room refl ]

  inflight-append_entry :
      (full : String) (e : Entry V) (r : Bool × Cache V)
      → (append_entry full e r).1.inflight ≡ r.1.inflight
  inflight-append_entry full e (false, c) = refl
  inflight-append_entry full e (true, c) = refl

  inflight-forget : (full : String) (c : Cache V) → (forget full c).inflight ≡ c.inflight
  unfolding remove
  inflight-forget full c = ground arith

  inflight-store :
      (serialized_bytes : V → Option ℕ) (now : ℕ) (key namespace : String) (value : V) (ttl : ℕ)
      (c : Cache V)
      → (store serialized_bytes now key namespace value ttl c).1.inflight ≡ c.inflight
  unfolding store
  inflight-store serialized_bytes now key namespace value ttl c = elim (Bool-cases (ltb 0 ttl)) [
    | inr dead ↦ rw dead refl
    | inl live ↦ elim (Option-cases (serialized_bytes value)) [
      | inl unsized ↦ rw (live, unsized) refl
      | inr (bytes, sized) ↦ elim (Bool-cases (ltb c.max_bytes bytes)) [
        | inl large ↦ rw (live, sized, large) refl
        | inr fits ↦
            rw (live, sized, fits)
              (inflight-append_entry _ _ (
                  make_room bytes (forget (full_key key namespace) c).entries
                    (forget (full_key key namespace) c))
                ∙ inflight-make_room bytes _ (forget (full_key key namespace) c)
                ∙ inflight-forget (full_key key namespace) c)
      ]
    ]
  ]

  get-inflight_launch :
      (throws : Bool) (full other : String) (promise : ℕ) (c : Cache V)
      → get full c.inflight ≡ some promise
      → get other c.inflight ≡ none
      → get full (launch throws other c).1.inflight ≡ some promise
  get-inflight_launch true full other promise c flying idle = flying
  get-inflight_launch false full other promise c flying idle =
      let apart : other ≢ full = λ same. cc (flying, idle, same) in
      ground (arith, get-put other full c.promises c.inflight, eq_iff other full)

  get-inflight_load_missing :
      (throws : Bool) (full other : String) (promise : ℕ) (c : Cache V)
      → get full c.inflight ≡ some promise
      → get full (load_missing throws other c).1.inflight ≡ some promise
  get-inflight_load_missing throws full other promise c flying =
      elim (Option-cases (get other c.inflight)) [
        | inl idle ↦
            rw (idle, load_missing) (get-inflight_launch throws full other promise c flying idle)
        | inr (p, busy) ↦ rw (busy, load_missing) flying
      ]

  get-inflight_begin_load :
      (throws cache : Bool) (now : ℕ) (key namespace full : String) (promise : ℕ) (c : Cache V)
      → get full c.inflight ≡ some promise
      → get full (begin_load throws cache now key namespace c).1.inflight ≡ some promise
  unfolding begin_load
  get-inflight_begin_load throws false now key namespace full promise c flying = flying
  get-inflight_begin_load throws true now key namespace full promise c flying =
      let after =
        subst (λ m. get full m ≡ some promise) (sym (inflight-lookup now key namespace c)) flying in
      elim (Option-cases (lookup now key namespace c).0) [
        | inl missing ↦ rw missing (get-inflight_load_missing throws full _ promise _ after)
        | inr (value, found) ↦ rw found after
      ]

  begin_load-joins :
      (throws : Bool) (now : ℕ) (key namespace : String) (promise : ℕ) (c : Cache V)
      → get (full_key key namespace) c.inflight ≡ some promise
      → ((begin_load throws true now key namespace c).0 ≡ joined promise)
        ⊎ ((v : V) × ((begin_load throws true now key namespace c).0 ≡ cached v))
  unfolding begin_load
  begin_load-joins throws now key namespace promise c flying =
      let after =
        subst (λ m. get (full_key key namespace) m ≡ some promise)
          (sym (inflight-lookup now key namespace c)) flying in
      elim (Option-cases (lookup now key namespace c).0) [
        | inl missing ↦ inl (rw (missing, load_missing, after) refl)
        | inr (value, found) ↦ inr (value, rw found refl)
      ]

  launch-starts :
      (throws : Bool) (full : String) (promise : ℕ) (c : Cache V)
      → (launch throws full c).0 ≡ started promise
      → get full (launch throws full c).1.inflight ≡ some promise
  launch-starts true full promise c h = cc
  launch-starts false full promise c h =
      ground (arith, get-put full full c.promises c.inflight, eq_iff full full)

  load_missing-starts :
      (throws : Bool) (full : String) (promise : ℕ) (c : Cache V)
      → (load_missing throws full c).0 ≡ started promise
      → get full (load_missing throws full c).1.inflight ≡ some promise
  load_missing-starts throws full promise c h = elim (Option-cases (get full c.inflight)) [
    | inl idle ↦
        rw (idle, load_missing) (launch-starts throws full promise c (rw (idle, load_missing) at h))
    | inr (p, busy) ↦ cc (rw (busy, load_missing) at h)
  ]

  begin_load-starts :
      (throws cache : Bool) (now : ℕ) (key namespace : String) (promise : ℕ) (c : Cache V)
      → (begin_load throws cache now key namespace c).0 ≡ started promise
      → get (full_key key namespace) (begin_load throws cache now key namespace c).1.inflight
        ≡ some promise
  unfolding begin_load
  begin_load-starts throws false now key namespace promise c h = cc
  begin_load-starts throws true now key namespace promise c h =
      elim (Option-cases (lookup now key namespace c).0) [
        | inl missing ↦ rw missing (load_missing-starts throws _ promise _ (rw missing at h))
        | inr (value, found) ↦ cc (rw found at h)
      ]

module _ {ℓ} {V : Type ℓ} (serialized_bytes : V → Option ℕ) where
  step-Leaves :
      (full : String) (promise : ℕ) (o : Operation V) (c : Cache V)
      → Leaves full o
      → get full c.inflight ≡ some promise
      → get full (step serialized_bytes o c).inflight ≡ some promise
  unfolding step settle_load finish_load erase
  step-Leaves full promise (gets now key namespace) c l h =
      subst (λ m. get full m ≡ some promise) (sym (inflight-lookup now key namespace c)) h
  step-Leaves full promise (sets now key namespace value ttl) c l h =
      subst (λ m. get full m ≡ some promise)
        (sym (inflight-store serialized_bytes now key namespace value ttl c)) h
  step-Leaves full promise (deletes key namespace) c l h =
      subst (λ m. get full m ≡ some promise)
        (sym (inflight-remove (full_key key namespace) plain c)) h
  step-Leaves full promise clears c l h = elim l [ ]
  step-Leaves full promise (begins throws cache now key namespace) c l h =
      get-inflight_begin_load throws cache now key namespace full promise c h
  step-Leaves full promise (settles now key namespace value ttl) c l h =
      subst (λ m. get full m ≡ some promise)
        (sym (inflight-store serialized_bytes now key namespace value ttl c)) h
  step-Leaves full promise (finishes key namespace) c l h =
      get-delete_other (full_key key namespace) full c.inflight l ∙ h

  run-Leaves :
      (full : String) (promise : ℕ) (os : List (Operation V)) (c : Cache V)
      → All (Leaves full) os
      → get full c.inflight ≡ some promise
      → get full (run serialized_bytes os c).inflight ≡ some promise
  unfolding run
  run-Leaves full promise [] c l h = h
  run-Leaves full promise (o ∷ os) c (l, ls) h =
      run-Leaves full promise os _ ls (step-Leaves full promise o c l h)

  -- Once a call of `getOrLoad` has started a load, and until the cache is cleared or any load of that key and
  -- namespace ends (this one, or an older one that an earlier `clear` made forgotten), whatever else is
  -- done with the cache, each later call for the same key and namespace gets the same promise or a cached
  -- value: it starts no load of its own.
  pub single_flight :
      (throws cache throws' : Bool) (now later : ℕ) (key namespace : String) (promise : ℕ)
      (os : List (Operation V)) (c : Cache V)
      → (begin_load throws cache now key namespace c).0 ≡ started promise
      → All (Leaves (full_key key namespace)) os
      → (let c' = run serialized_bytes os (begin_load throws cache now key namespace c).1 in
          ((begin_load throws' true later key namespace c').0 ≡ joined promise)
          ⊎ ((v : V) × ((begin_load throws' true later key namespace c').0 ≡ cached v)))
  single_flight throws cache throws' now later key namespace promise os c begun leaves =
      begin_load-joins throws' later key namespace promise _ (
        run-Leaves _ promise os _ leaves
          (begin_load-starts throws cache now key namespace promise c begun))
