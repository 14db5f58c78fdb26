-- ===== src/Cache/Storing.antt =====
-- `set` of src/core/cache.js, and what a later `get` finds.
use para11ax.Common.{
  ℕ, ◌+◌, ◌≤◌, ◌<◌, String, ◌≡◌, refl, sym, ap, ◌∙◌, subst, ◌≢◌, inl, inr, true, false, Option,
  none, some, [], ◌∷◌, arith, eq_iff, ltb, if◌then◌else◌, Bool-cases, Option-cases, ltb→lt, ltb→le,
  lt→ltb, ltb-false, drop, length-append,
}
use para11ax.JsMap.{JsMap, get, put, delete, size}
use para11ax.JsMap.Laws.{
  total-append, get-put, get-delete, put-absent, get-delete_self, put-IsDistinct, delete-IsDistinct,
}
use para11ax.Cache.{Entry, Cache, full_key, lookup, forget, append_entry, store}
use para11ax.Cache.Invariant.{IsValid}
use para11ax.Cache.Branches.{lookup-live, lookup-expired}
use para11ax.Cache.Eviction.{
  MakesRoom, make_room_lem, Stores, forget-IsValid, entries-forget, same_limits-forget, get-drop,
  get-drop-some,
}

module _ {ℓ} {V : Type ℓ} where
  absent_made :
      (full : String) (bytes : ℕ) (c made : Cache V)
      → IsValid c
      → MakesRoom bytes (forget full c) made
      → get full made.entries ≡ none
  absent_made full bytes c made v r =
      subst (λ m. get full m ≡ none) (sym (r.left ∙ ap (drop r.evicted) (entries-forget full c)))
        (get-drop full (delete full c.entries) r.evicted
          (get-delete_self full c.entries v.distinct))

  get-put_self : (k : String) (e : Entry V) (m : JsMap (Entry V)) → get k (put k e m) ≡ some e
  get-put_self k e m = ground (arith, get-put k k e m, eq_iff k k)

  others_made :
      (full : String) (e : Entry V) (c made : Cache V)
      → IsValid c
      → MakesRoom e.bytes (forget full c) made
      → (j : String) (x : Entry V) → j ≢ full
      → get j (put full e made.entries) ≡ some x
      → get j c.entries ≡ some x
  others_made full e c made v r j x other h =
      let kept = r.left ∙ ap (drop r.evicted) (entries-forget full c) in
      let d = delete-IsDistinct full c.entries v.distinct in
      let before : get j made.entries ≡ some x =
        ground (arith, get-put full j e made.entries, eq_iff full j) in
      let there = get-drop-some j x (delete full c.entries) r.evicted d (rw kept at before) in
      ground (arith, get-delete full j c.entries v.distinct, eq_iff full j)

  append_entry-IsValid :
      (full : String) (e : Entry V) (c : Cache V)
      → get full c.entries ≡ none
      → size c.entries < c.max_entries
      → c.bytes + e.bytes ≤ c.max_bytes
      → IsValid c
      → IsValid (append_entry full e (true, c)).1
  append_entry-IsValid full e c absent slot space v =
      let moved = put-absent full e c.entries absent in
      record {
        distinct = put-IsDistinct full e c.entries v.distinct;
        counted = rw moved (
            omega (
              arith,
              v.counted,
              total-append (λ (x : Entry V). x.bytes) c.entries ((full, e) ∷ []),
            ));
        one = v.one;
        few = rw moved (omega (arith, length-append c.entries ((full, e) ∷ [])));
        small = space;
      }

  module _ (serialized_bytes : V → Option ℕ) (now : ℕ) (key namespace : String) (value : V)
      (ttl : ℕ) where
    -- The guards of `set`.
    abbrev pub IsStorable : Cache V → ℕ → Type 0
    IsStorable c bytes = (0 < ttl) × (serialized_bytes value ≡ some bytes) × (bytes ≤ c.max_bytes)

    -- A value that may be stored is: the oldest other entries go, one after the other and only while there
    -- is no room, and the new entry stands at the end; no other key is added or changed.
    pub store-accepts :
        (c : Cache V) (bytes : ℕ)
        → IsValid c
        → IsStorable c bytes
        → (c' : Cache V) × (store serialized_bytes now key namespace value ttl c ≡ (true, c'))
          × Stores
              (full_key key namespace)
              (record { value = value; expires_at = now + ttl; bytes = bytes })
              c
              c'
    unfolding store
    store-accepts c bytes v (live, sized, fits) =
        let full = full_key key namespace in
        let e : Entry V = record { value = value; expires_at = now + ttl; bytes = bytes } in
        let c1 = forget full c in
        let (limit, weight_limit, flights) = same_limits-forget full c in
        let (made, run, r) =
          make_room_lem bytes c1.entries c1 refl (forget-IsValid full c v) (rw weight_limit fits) in
        let absent = absent_made full bytes c made v r in
        let slot : size made.entries < made.max_entries = rw r.same_entries r.slot in
        let space : made.bytes + bytes ≤ made.max_bytes = rw r.same_bytes r.space in
        (
          (append_entry full e (true, made)).1,
          rw (lt→ltb 0 ttl live, sized, ltb-false c.max_bytes bytes fits, run) refl,
          record {
            made = made;
            room = r;
            entries = put-absent full e made.entries absent;
            found = get-put_self full e made.entries;
            others = λ j x other h. others_made full e c made v r j x other h;
            same_inflight = r.same_inflight ∙ flights;
            valid = append_entry-IsValid full e made absent slot space r.valid;
          },
        )

    -- `set` refuses a time to live of zero, a value without a JSON text and one that is larger than the
    -- cache, and changes nothing then.
    pub store-refuses :
        (c : Cache V)
        → ((bytes : ℕ) → ¬ IsStorable c bytes)
        → store serialized_bytes now key namespace value ttl c ≡ (false, c)
    unfolding store
    store-refuses c never = elim (Bool-cases (ltb 0 ttl)) [
      | inr dead ↦ rw dead refl
      | inl live ↦ elim (Option-cases (serialized_bytes value)) [
        | inl unsized ↦ rw (live, unsized) refl
        | inr (bytes, sized) ↦ elim (Bool-cases (ltb c.max_bytes bytes)) [
          | inl large ↦ rw (live, sized, large) refl
          | inr fits ↦
              absurd (never bytes (ltb→lt 0 ttl live, sized, ltb→le c.max_bytes bytes fits))
        ]
      ]
    ]

    pub store-IsValid :
        (c : Cache V) → IsValid c → IsValid (store serialized_bytes now key namespace value ttl c).1
    unfolding store
    store-IsValid c v = elim (Bool-cases (ltb 0 ttl)) [
      | inr dead ↦ rw dead v
      | inl live ↦ elim (Option-cases (serialized_bytes value)) [
        | inl unsized ↦ rw (live, unsized) v
        | inr (bytes, sized) ↦ elim (Bool-cases (ltb c.max_bytes bytes)) [
          | inl large ↦ rw (live, sized, large) v
          | inr fits ↦
              let (d, run, s) =
                store-accepts c bytes v (ltb→lt 0 ttl live, sized, ltb→le c.max_bytes bytes fits) in
              rw run s.valid
        ]
      ]
    ]

    -- What is stored is found until its time is up, and then no longer.
    pub lookup-store :
        (c c' : Cache V) (bytes later : ℕ)
        → IsValid c
        → IsStorable c bytes
        → store serialized_bytes now key namespace value ttl c ≡ (true, c')
        → (lookup later key namespace c').0 ≡ (if ltb later (now + ttl) then some value else none)
    lookup-store c c' bytes later v storable run =
        let (d, run', s) = store-accepts c bytes v storable in
        let same : d ≡ c' = ap (λ p. p.1) (sym run' ∙ run) in
        subst
          (λ x.
            (lookup later key namespace x).0 ≡ (if ltb later (now + ttl) then some value else none))
          same
          (elim (Bool-cases (ltb later (now + ttl))) [
            | inl live ↦ rw (lookup-live later key namespace _ d s.found live, live) refl
            | inr past ↦ rw (lookup-expired later key namespace _ d s.found past, past) refl
          ])
