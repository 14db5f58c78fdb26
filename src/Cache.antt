-- ===== src/Cache.antt =====
-- src/core/cache.js: the bounded cache of provider results. A value's JSON form belongs to the platform:
-- `serialized_bytes` is a parameter, `none` where `JSON.stringify` gives no text. Times are natural
-- numbers of milliseconds, and an operation takes the readings of `now()` that it makes as arguments.
-- A promise is its number, counted from the cache's making.

mod Branches
pub mod Eviction
pub mod Flight
pub mod Invariant
mod Examples
pub mod SingleFlight
mod Forgotten
pub mod Trace
pub mod Storing
use Prim.Native.String as Text
use para11ax.Common.{
  ℕ, zero, suc, ◌+◌, ◌-◌, ◌*◌, ◌/◌, ◌%◌, ◌≤◌, ◌<◌, min, max, String, ◌≡◌, refl, sym, ap, ◌∙◌, subst,
  ◌≢◌, ◌↔◌, ◌⊎◌, inl, inr, Bool, true, false, not, ◌&&◌, ◌||◌, Option, none, some, List, [], ◌∷◌,
  ◌++◌, map, arith, ◌==ₛ◌, eq_iff, ltb, leb, ◌==◌, if◌then◌else◌, Bool-cases, Option-cases, ltb→lt,
  ltb→le, leb→le, leb→lt, lt→ltb, le→leb, tests, length, length-append, sum_of, sum_of-append, All,
  All-append,
}
use para11ax.JsMap.{JsMap, get, has, put, delete, size, first_key}

pub record Entry {ℓ} (V : Type ℓ) : Type ℓ where
  pub value : V
  pub expires_at : ℕ
  pub bytes : ℕ

pub record Counters : Type 0 where
  pub hits : ℕ
  pub misses : ℕ
  pub evictions : ℕ
  pub expirations : ℕ

pub record Cache {ℓ} (V : Type ℓ) : Type ℓ where
  pub max_entries : ℕ
  pub max_bytes : ℕ
  pub bytes : ℕ
  pub entries : JsMap (Entry V)
  pub inflight : JsMap ℕ
  pub counters : Counters
  pub promises : ℕ

abbrev pub no_counts : Counters
no_counts = record { hits = 0; misses = 0; evictions = 0; expirations = 0 }

abbrev pub empty {ℓ} : {V : Type ℓ} → ℕ → ℕ → Cache V
empty max_entries max_bytes = record {
  max_entries = max_entries;
  max_bytes = max_bytes;
  bytes = 0;
  entries = [];
  inflight = [];
  counters = no_counts;
  promises = 0;
}

-- The constructor: `none` is its TypeError.
unfoldable pub create {ℓ} : {V : Type ℓ} → ℕ → ℕ → Option (Cache V)
create max_entries max_bytes =
    if ltb max_entries 1 || ltb max_bytes 1 then none else some (empty max_entries max_bytes)

-- #key
unfoldable pub full_key : String → String → String
full_key key namespace = Text.◌++◌ namespace (Text.◌++◌ "\0" key)

-- The options of `#remove`.
pub data Removal : Type 0 where
  plain eviction expiration : Removal

abbrev pub count_removal : Removal → Counters → Counters
count_removal plain n = n
count_removal eviction n = record n { evictions = n.evictions + 1 }
count_removal expiration n = record n { expirations = n.expirations + 1 }

module _ {ℓ} {V : Type ℓ} where
  -- #remove, where the entry was found
  abbrev drop_entry : String → Removal → Entry V → Cache V → Cache V
  drop_entry full why e c = record c {
    bytes = c.bytes - e.bytes;
    entries = delete full c.entries;
    counters = count_removal why c.counters;
  }

  -- #remove
  unfoldable pub remove : String → Removal → Cache V → Bool × Cache V
  remove full why c = elim (get full c.entries) [
    | none ↦ (false, c)
    | some e ↦ (true, drop_entry full why e c)
  ]

  -- #deleteExpired
  unfoldable pub delete_expired : ℕ → String → Entry V → Cache V → Bool × Cache V
  unfolding remove
  delete_expired now full e c =
      if ltb now e.expires_at then (false, c) else (true, (remove full expiration c).1)

  abbrev pub miss : Cache V → Cache V
  miss c = record c { counters = record (c.counters) { misses = c.counters.misses + 1 } }

  -- `get` where the entry is live: it moves to the end of the map
  abbrev pub hit : String → Entry V → Cache V → Cache V
  hit full e c = record c {
    entries = put full e (delete full c.entries);
    counters = record (c.counters) { hits = c.counters.hits + 1 };
  }

  unfoldable pub lookup : ℕ → String → String → Cache V → Option V × Cache V
  unfolding delete_expired
  lookup now key namespace c =
      let full = full_key key namespace in
      elim (get full c.entries) [
        | none ↦ (none, miss c)
        | some e ↦
            let (expired, c') = delete_expired now full e c in
            if expired then (none, miss c') else (some e.value, hit full e c')
      ]

  -- the test of `set`'s loop
  abbrev pub is_full_for : ℕ → Cache V → Bool
  is_full_for bytes c = leb c.max_entries (size c.entries) || ltb c.max_bytes (c.bytes + bytes)

  -- The loop of `set`: each round removes the key at the head of the map, so it recurs on the map's
  -- entries at the loop's start. With no entry left, a failed test is `return false`.
  unfoldable pub make_room : ℕ → JsMap (Entry V) → Cache V → Bool × Cache V
  unfolding remove
  make_room bytes [] c = (not (is_full_for bytes c), c)
  make_room bytes ((oldest, e) ∷ rest) c =
      let more = make_room bytes rest (remove oldest eviction c).1 in
      if is_full_for bytes c then more else (true, c)

  -- if (this.map.has(fullKey)) this.#remove(fullKey)
  abbrev pub forget : String → Cache V → Cache V
  forget full c = if has full c.entries then (remove full plain c).1 else c

  abbrev pub append_entry : String → Entry V → Bool × Cache V → Bool × Cache V
  append_entry full e (false, c) = (false, c)
  append_entry full e (true, c) =
      (true, record c { entries = put full e c.entries; bytes = c.bytes + e.bytes })

  unfoldable pub store : (V → Option ℕ) → ℕ → String → String → V → ℕ → Cache V → Bool × Cache V
  unfolding make_room
  store serialized_bytes now key namespace value ttl c =
      if ltb 0 ttl
      then (elim (serialized_bytes value) [
        | none ↦ (false, c)
        | some bytes ↦
            if ltb c.max_bytes bytes
            then (false, c)
            else let full = full_key key namespace in
              let c' = forget full c in
              append_entry full (record { value = value; expires_at = now + ttl; bytes = bytes })
                (make_room bytes c'.entries c')
      ])
      else (false, c)

  -- `delete`
  unfoldable pub erase : String → String → Cache V → Bool × Cache V
  unfolding remove
  erase key namespace c = remove (full_key key namespace) plain c

  unfoldable pub clear : Cache V → Cache V
  clear c = record c { entries = []; inflight = []; bytes = 0 }

-- What `stats` reports.
pub record Stats : Type 0 where
  pub entries : ℕ
  pub inflight : ℕ
  pub hits : ℕ
  pub misses : ℕ
  pub evictions : ℕ
  pub expirations : ℕ
  pub bytes : ℕ
  pub max_bytes : ℕ

unfoldable pub stats {ℓ} : {V : Type ℓ} → Cache V → Stats
stats c = record {
  entries = size c.entries;
  inflight = size c.inflight;
  hits = c.counters.hits;
  misses = c.counters.misses;
  evictions = c.counters.evictions;
  expirations = c.counters.expirations;
  bytes = c.bytes;
  max_bytes = c.max_bytes;
}
