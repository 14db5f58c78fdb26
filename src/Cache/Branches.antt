-- ===== src/Cache/Branches.antt =====
-- The branches of the operations of src/core/cache.js, each with the test that selects it.
use para11ax.Common.{ℕ, String, ◌≡◌, true, false, none, some, ltb}
use para11ax.JsMap.{get}
use para11ax.Cache.{
  Entry, Cache, Removal, expiration, full_key, remove, drop_entry, hit, miss, lookup,
}

module _ {ℓ} {V : Type ℓ} where
  pub remove-found :
      (full : String) (why : Removal) (e : Entry V) (c : Cache V)
      → get full c.entries ≡ some e
      → remove full why c ≡ (true, drop_entry full why e c)
  unfolding remove
  remove-found full why e c found = rw (found, remove)

  module _ (now : ℕ) (key namespace : String) where
    pub lookup-missing :
        (c : Cache V)
        → get (full_key key namespace) c.entries ≡ none
        → lookup now key namespace c ≡ (none, miss c)
    unfolding lookup
    lookup-missing c missing = rw (missing, lookup)

    pub lookup-live :
        (e : Entry V) (c : Cache V)
        → get (full_key key namespace) c.entries ≡ some e
        → ltb now e.expires_at ≡ true
        → lookup now key namespace c ≡ (some e.value, hit (full_key key namespace) e c)
    unfolding lookup
    lookup-live e c found live = rw (found, lookup, live)

    pub lookup-expired :
        (e : Entry V) (c : Cache V)
        → get (full_key key namespace) c.entries ≡ some e
        → ltb now e.expires_at ≡ false
        → lookup now key namespace c
          ≡ (none, miss (drop_entry (full_key key namespace) expiration e c))
    unfolding lookup
    lookup-expired e c found past = rw (found, lookup, past, found, remove)
