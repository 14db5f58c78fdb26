-- ===== src/Cache/Flight.antt =====
-- `getOrLoad` of src/core/cache.js. Its run is cut at the awaits: `begin_load` is the synchronous part,
-- `settle_load` the `then` callback (for a promise that resolves) and `finish_load` the `finally` one, which
-- takes out the promise that stands under the load's key, whichever load that is; `end_load` runs the
-- callbacks of one load in their order.
-- The caller's loader is a parameter: `throws` says whether the call `loader()` itself throws.
use para11ax.Common.{ℕ, ◌+◌, String, Bool, true, false, Option, none, some, if◌then◌else◌}
use para11ax.JsMap.{get, put, delete}
use para11ax.Cache.{Cache, full_key, lookup, store}

-- What the caller gets: the loader's own promise with `cache: false`, a cached value, the promise in
-- flight, a new promise, or the loader's exception.
pub data Load {ℓ} (V : Type ℓ) : Type ℓ where
  bypassed : Load V
  cached : V → Load V
  joined : ℕ → Load V
  started : ℕ → Load V
  thrown : Load V

-- How the loader's promise ends.
pub data Outcome {ℓ} (V : Type ℓ) : Type ℓ where
  rejects : Outcome V
  fulfils : V → Outcome V

module _ {ℓ} {V : Type ℓ} where
  abbrev pub launch : Bool → String → Cache V → Load V × Cache V
  launch true full c = (thrown, c)
  launch false full c = (
    started c.promises,
    record c { inflight = put full c.promises c.inflight; promises = c.promises + 1 },
  )

  -- past `this.get`
  abbrev pub load_missing : Bool → String → Cache V → Load V × Cache V
  load_missing throws full c = elim (get full c.inflight) [
    | some promise ↦ (joined promise, c)
    | none ↦ launch throws full c
  ]

  unfoldable pub begin_load : Bool → Bool → ℕ → String → String → Cache V → Load V × Cache V
  begin_load throws cache now key namespace c =
      if cache
      then (let (value, c') = lookup now key namespace c in
          elim value [
            | some v ↦ (cached v, c')
            | none ↦ load_missing throws (full_key key namespace) c'
          ])
      else (bypassed, c)

  unfoldable pub settle_load : (V → Option ℕ) → ℕ → String → String → V → ℕ → Cache V → Cache V
  settle_load serialized_bytes now key namespace value ttl c =
      (store serialized_bytes now key namespace value ttl c).1

  unfoldable pub finish_load : String → String → Cache V → Cache V
  finish_load key namespace c = record c { inflight = delete (full_key key namespace) c.inflight }

  -- The callbacks of a load: a value is stored before the promise is taken out.
  abbrev pub end_load : (V → Option ℕ) → ℕ → String → String → ℕ → Outcome V → Cache V → Cache V
  end_load serialized_bytes now key namespace ttl rejects c = finish_load key namespace c
  end_load serialized_bytes now key namespace ttl (fulfils value) c =
      finish_load key namespace (settle_load serialized_bytes now key namespace value ttl c)
