-- ===== src/Cache/Invariant.antt =====
-- The well-formedness of src/core/cache.js's `BoundedCache`, kept by every operation that changes it.
use para11ax.Common.{
  ℕ, ◌≤◌, String, ◌≡◌, refl, subst, inl, inr, none, some, [], ◌∷◌, ◌++◌, arith, ltb, Bool-cases,
  Option-cases, length-append, ◌<◌,
}
use para11ax.JsMap.{JsMap, get, delete, size}
use para11ax.JsMap.Laws.{
  IsDistinct, total, total-append, size-delete, total-delete, put-absent, put-IsDistinct,
  delete-IsDistinct, get-delete_self,
}
use para11ax.Cache.Branches.{lookup-missing, lookup-live, lookup-expired}
use para11ax.Cache.{
  Entry, Cache, Removal, plain, expiration, full_key, empty, create, remove, drop_entry, hit, miss,
  lookup, erase, clear,
}

module _ {ℓ} {V : Type ℓ} where
  -- What the entries of a map take.
  abbrev pub weight : JsMap (Entry V) → ℕ
  weight = total (λ e. e.bytes)

  -- No key twice, the byte count is that of the entries, and both bounds hold.
  pub record IsValid (c : Cache V) : Type ℓ where
    pub distinct : IsDistinct c.entries
    pub counted : c.bytes ≡ weight c.entries
    pub one : 0 < c.max_entries
    pub few : size c.entries ≤ c.max_entries
    pub small : c.bytes ≤ c.max_bytes

  IsValid-empty : (n b : ℕ) → 0 < n → IsValid (empty n b)
  IsValid-empty n b h = record {
    one = h;
    distinct = tt;
    counted = refl;
    few = omega arith;
    small = omega arith;
  }

  pub create-IsValid : (n b : ℕ) (c : Cache V) → create n b ≡ some c → IsValid c
  unfolding create
  create-IsValid n b c h =
      let made : empty n b ≡ c = ground arith in
      subst IsValid made (IsValid-empty n b (ground arith))

  pub drop_entry-IsValid :
      (full : String) (why : Removal) (e : Entry V) (c : Cache V)
      → get full c.entries ≡ some e
      → IsValid c
      → IsValid (drop_entry full why e c)
  drop_entry-IsValid full why e c found v =
      let fewer = size-delete full e c.entries found in
      let lighter = total-delete (λ x. x.bytes) full e c.entries found in
      record {
        distinct = delete-IsDistinct full c.entries v.distinct;
        counted = omega (arith, v.counted);
        one = v.one;
        few = omega (arith, v.few);
        small = omega (arith, v.small);
      }

  pub remove-IsValid :
      (full : String) (why : Removal) (c : Cache V) → IsValid c → IsValid (remove full why c).1
  unfolding remove
  remove-IsValid full why c v = elim (Option-cases (get full c.entries)) [
    | inl missing ↦ rw (missing, remove) v
    | inr (e, found) ↦ rw (found, remove) (drop_entry-IsValid full why e c found v)
  ]

  miss-IsValid : (c : Cache V) → IsValid c → IsValid (miss c)
  miss-IsValid c v = record {
    distinct = v.distinct;
    counted = v.counted;
    one = v.one;
    few = v.few;
    small = v.small;
  }

  -- An entry at the end of the map, under a key that the map does not have.
  pub IsDistinct-append :
      (full : String) (e : Entry V) (m : JsMap (Entry V))
      → get full m ≡ none
      → IsDistinct m
      → IsDistinct (m ++ (full, e) ∷ [])
  IsDistinct-append full e m absent d =
      subst IsDistinct (put-absent full e m absent) (put-IsDistinct full e m d)

  hit-IsValid :
      (full : String) (e : Entry V) (c : Cache V)
      → get full c.entries ≡ some e
      → IsValid c
      → IsValid (hit full e c)
  hit-IsValid full e c found v =
      let gone = get-delete_self full c.entries v.distinct in
      let moved = put-absent full e (delete full c.entries) gone in
      let fewer = size-delete full e c.entries found in
      let lighter = total-delete (λ x. x.bytes) full e c.entries found in
      let heavier =
        total-append (λ (x : Entry V). x.bytes) (delete full c.entries) ((full, e) ∷ []) in
      record {
        distinct = put-IsDistinct full e _ (delete-IsDistinct full c.entries v.distinct);
        counted = rw moved (omega (arith, v.counted, heavier));
        one = v.one;
        few =
            rw moved (omega (arith, v.few, length-append (delete full c.entries) ((full, e) ∷ [])));
        small = v.small;
      }

  pub lookup-IsValid :
      (now : ℕ) (key namespace : String) (c : Cache V)
      → IsValid c
      → IsValid (lookup now key namespace c).1
  unfolding lookup
  lookup-IsValid now key namespace c v =
      elim (Option-cases (get (full_key key namespace) c.entries)) [
        | inl missing ↦ rw (lookup-missing now key namespace c missing) (miss-IsValid c v)
        | inr (e, found) ↦ elim (Bool-cases (ltb now e.expires_at)) [
          | inl live ↦ rw (lookup-live now key namespace e c found live) (hit-IsValid _ e c found v)
          | inr past ↦
              rw (lookup-expired now key namespace e c found past)
                (miss-IsValid _ (drop_entry-IsValid _ expiration e c found v))
        ]
      ]

  pub erase-IsValid :
      (key namespace : String) (c : Cache V) → IsValid c → IsValid (erase key namespace c).1
  unfolding erase
  erase-IsValid key namespace c v = remove-IsValid (full_key key namespace) plain c v

  pub clear-IsValid : (c : Cache V) → IsValid c → IsValid (clear c)
  unfolding clear
  clear-IsValid c v = record {
    distinct = tt;
    counted = refl;
    one = v.one;
    few = omega arith;
    small = omega arith;
  }
