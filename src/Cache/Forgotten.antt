-- ===== src/Cache/Forgotten.antt =====
-- The end of a load of `getOrLoad` of src/core/cache.js that `clear` made forgotten.
use para11ax.Common.{
  ap, ℕ, ◌+◌, String, ◌≡◌, refl, ◌∙◌, inl, inr, Bool, true, false, Option, arith, eq_iff,
  Option-cases,
}
use para11ax.JsMap.{get, put, delete}
use para11ax.Cache.{Cache, full_key, lookup, clear}
use para11ax.Cache.Storing.{IsStorable, store-refuses}
use para11ax.Cache.Flight.{
  Outcome, rejects, fulfils, end_load, Load, started, begin_load, settle_load, finish_load, launch,
  load_missing,
}

module _ {ℓ} {V : Type ℓ} (serialized_bytes : V → Option ℕ) where
  launch-promises :
      (throws : Bool) (full : String) (promise : ℕ) (c : Cache V)
      → (launch throws full c).0 ≡ started promise
      → (launch throws full c).1.promises ≡ promise + 1
  launch-promises true full promise c h = cc
  launch-promises false full promise c h =
      let same : c.promises ≡ promise = cc in ap (λ (p : ℕ). p + 1) same

  begin_load-promises :
      (throws : Bool) (now : ℕ) (key namespace : String) (promise : ℕ) (c : Cache V)
      → (begin_load throws true now key namespace c).0 ≡ started promise
      → (begin_load throws true now key namespace c).1.promises ≡ promise + 1
  unfolding begin_load
  begin_load-promises throws now key namespace promise c h =
      elim (Option-cases (lookup now key namespace c).0) [
        | inr (value, found) ↦ cc (rw found at h)
        | inl missing ↦
            let c' = (lookup now key namespace c).1 in
            elim (Option-cases (get (full_key key namespace) c'.inflight)) [
              | inr (p, busy) ↦ cc (rw (missing, load_missing, busy) at h)
              | inl idle ↦
                  rw (missing, load_missing, idle)
                    (launch-promises throws (full_key key namespace) promise c'
                      (rw (missing, load_missing, idle) at h))
            ]
      ]

  module _ (ended : ℕ) (key namespace : String) (ttl : ℕ) where
    -- A load that leaves no value: its promise is rejected, or `set` refuses the value.
    abbrev pub IsLost : Outcome V → Cache V → Type 0
    IsLost rejects c = Unit
    IsLost (fulfils value) c =
        (bytes : ℕ) → ¬ IsStorable serialized_bytes ended key namespace value ttl c bytes

    end_load-IsLost :
        (outcome : Outcome V) (c : Cache V)
        → IsLost outcome c
        → end_load serialized_bytes ended key namespace ttl outcome c ≡ finish_load key namespace c
    unfolding settle_load
    end_load-IsLost rejects c lost = refl
    end_load-IsLost (fulfils value) c lost =
        ap (λ (r : Bool × Cache V). finish_load key namespace r.1)
          (store-refuses serialized_bytes ended key namespace value ttl c lost)

    -- Two calls of `getOrLoad` with the cache cleared between them, and what the second leaves.
    abbrev pub second_load : (first second : ℕ) → Cache V → Load V × Cache V
    second_load first second c =
        begin_load false true second key namespace
          (clear (begin_load false true first key namespace c).1)

    -- A call after the first of the two loads has ended.
    abbrev pub third_load : (first second third : ℕ) → Outcome V → Cache V → Load V
    third_load first second third outcome c =
        (begin_load false true third key namespace (
          end_load serialized_bytes ended key namespace ttl outcome
            (second_load first second c).1)).0

    lost_end :
        (second third : ℕ) (c : Cache V)
        → ((begin_load false true second key namespace (clear c)).0 ≡ started c.promises)
          × ((begin_load false true third key namespace (
                finish_load key namespace
                  (begin_load false true second key namespace (clear c)).1)).0
              ≡ started (c.promises + 1))
    unfolding begin_load clear finish_load lookup get put delete
    lost_end second third c =
        ground (arith, eq_iff (full_key key namespace) (full_key key namespace))

    -- A load is started, the cache is cleared, and the key's load is started anew. When the older load then
    -- ends without leaving a value (its promise is rejected, or `set` refuses the value), it takes the
    -- newer load out of the table: the next call starts a third load, although the second has not ended.
    pub stale_end :
        (first second third promise : ℕ) (outcome : Outcome V) (c : Cache V)
        → (begin_load false true first key namespace c).0 ≡ started promise
        → IsLost outcome (second_load first second c).1
        → ((second_load first second c).0 ≡ started (promise + 1))
          × (third_load first second third outcome c ≡ started (promise + 2))
    stale_end first second third promise outcome c begun lost =
        let c' = (begin_load false true first key namespace c).1 in
        let counted = begin_load-promises false first key namespace promise c begun in
        let (renewed, again) = lost_end second third c' in
        let ended' = end_load-IsLost outcome (second_load first second c).1 lost in
        (
          renewed ∙ ap (λ (p : ℕ). started p) counted,
          ap (λ (d : Cache V). (begin_load false true third key namespace d).0) ended'
              ∙ again
              ∙ ap (λ (p : ℕ). started p) (omega (arith, counted)),
        )
