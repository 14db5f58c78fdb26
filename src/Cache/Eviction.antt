-- ===== src/Cache/Eviction.antt =====
-- What `set` of src/core/cache.js evicts: the oldest entries, and no more of them than needed.
use para11ax.Common.{
  ℕ, zero, suc, ◌+◌, ◌≤◌, ◌<◌, String, ◌≡◌, refl, sym, ap, ◌∙◌, subst, ◌⊎◌, inl, inr, true, false,
  none, some, [], ◌∷◌, ◌++◌, arith, eq_iff, Bool-cases, length, drop, ◌≢◌,
}
use para11ax.JsMap.{JsMap, get, has, delete, size}
use para11ax.JsMap.Laws.{get-none_of_has, get-some_of_has, delete-absent, delete-head, IsDistinct}
use para11ax.Cache.{
  Entry, Cache, eviction, plain, remove, drop_entry, is_full_for, make_room, forget,
}
use para11ax.Cache.Branches.{remove-found}
use para11ax.Cache.Invariant.{IsValid, weight, drop_entry-IsValid, remove-IsValid}

module _ {ℓ} {V : Type ℓ} where
  -- The loop's test, of the entries that are left.
  abbrev pub IsFull : ℕ → Cache V → JsMap (Entry V) → Type 0
  IsFull bytes c m = (c.max_entries ≤ size m) ⊎ (c.max_bytes < weight m + bytes)

  -- `c'` is `c` after the eviction of its oldest entries: each was evicted because there was no room
  -- yet, and in the end there is.
  pub record MakesRoom (bytes : ℕ) (c c' : Cache V) : Type ℓ where
    pub evicted : ℕ
    pub left : c'.entries ≡ drop evicted c.entries
    pub counted : c'.counters.evictions ≡ c.counters.evictions + evicted
    pub needed : (k : ℕ) → k < evicted → IsFull bytes c (drop k c.entries)
    pub slot : size c'.entries < c.max_entries
    pub space : c'.bytes + bytes ≤ c.max_bytes
    pub same_entries : c'.max_entries ≡ c.max_entries
    pub same_bytes : c'.max_bytes ≡ c.max_bytes
    pub same_inflight : c'.inflight ≡ c.inflight
    pub valid : IsValid c'

  get-head : (k : String) (e : Entry V) (m : JsMap (Entry V)) → get k ((k, e) ∷ m) ≡ some e
  unfolding get
  get-head k e m = ground (arith, eq_iff k k)

  stops : (bytes : ℕ) (c : Cache V) → IsValid c → is_full_for bytes c ≡ false → MakesRoom bytes c c
  stops bytes c v room = record {
    evicted = 0;
    left = refl;
    counted = omega arith;
    needed = λ k h. elim h [ ];
    slot = ground arith;
    space = ground arith;
    same_entries = refl;
    same_bytes = refl;
    same_inflight = refl;
    valid = v;
  }

  IsFull-of :
      (bytes : ℕ) (c : Cache V) → IsValid c → is_full_for bytes c ≡ true → IsFull bytes c c.entries
  IsFull-of bytes c v full = ground (arith, v.counted)

  drop-delete_head :
      (oldest : String) (e : Entry V) (rest m : JsMap (Entry V))
      → m ≡ (oldest, e) ∷ rest
      → (k : ℕ) → drop k (delete oldest m) ≡ drop (suc k) m
  drop-delete_head oldest e rest m at k =
      subst (λ l. drop k (delete oldest l) ≡ drop (suc k) l) (sym at)
        (ap (drop k) (delete-head oldest e rest))

  needed_suc :
      (bytes n : ℕ) (oldest : String) (c : Cache V) (rest : JsMap (Entry V))
      → IsFull bytes c c.entries
      → ((k : ℕ) → drop k rest ≡ drop (suc k) c.entries)
      → ((k : ℕ) → k < n → IsFull bytes c (drop k rest))
      → (k : ℕ) → k < suc n
      → IsFull bytes c (drop k c.entries)
  needed_suc bytes n oldest c rest full same needed zero h = full
  needed_suc bytes n oldest c rest full same needed (suc k) h =
      subst (IsFull bytes c) (same k) (needed k (omega arith))

  evicts :
      (bytes : ℕ) (oldest : String) (e : Entry V) (rest : JsMap (Entry V)) (c c' : Cache V)
      → c.entries ≡ (oldest, e) ∷ rest
      → IsValid c
      → is_full_for bytes c ≡ true
      → MakesRoom bytes (drop_entry oldest eviction e c) c'
      → MakesRoom bytes c c'
  evicts bytes oldest e rest c c' at v full r = record {
    evicted = suc r.evicted;
    left = r.left ∙ drop-delete_head oldest e rest c.entries at r.evicted;
    counted = omega (arith, r.counted);
    needed =
        needed_suc bytes r.evicted oldest c (delete oldest c.entries) (IsFull-of bytes c v full)
          (drop-delete_head oldest e rest c.entries at) r.needed;
    slot = r.slot;
    space = r.space;
    same_entries = r.same_entries;
    same_bytes = r.same_bytes;
    same_inflight = r.same_inflight;
    valid = r.valid;
  }

  -- With a place for one entry and a value that fits, the loop ends with room.
  pub make_room_lem :
      (bytes : ℕ) (m : JsMap (Entry V)) (c : Cache V)
      → c.entries ≡ m
      → IsValid c
      → bytes ≤ c.max_bytes
      → (c' : Cache V) × (make_room bytes m c ≡ (true, c')) × MakesRoom bytes c c'
  unfolding make_room
  make_room_lem bytes [] c at v fits =
      let light : c.bytes ≡ 0 = v.counted ∙ ap weight at in
      let few : size c.entries ≡ 0 = ap length at in
      let room : is_full_for bytes c ≡ false = ground (arith, light, few, v.one) in
      (c, rw room, stops bytes c v room)
  make_room_lem bytes ((oldest, e) ∷ rest) c at v fits = elim (Bool-cases (is_full_for bytes c)) [
    | inl full ↦
        let found : get oldest c.entries ≡ some e = rw at (get-head oldest e rest) in
        let c1 = drop_entry oldest eviction e c in
        let (c', run, r) =
          make_room_lem bytes rest c1
            (drop-delete_head oldest e rest c.entries at 0 ∙ ap (drop 1) at)
            (drop_entry-IsValid oldest eviction e c found v) fits in
        (
          c',
          rw (full, remove-found oldest eviction e c found) run,
          evicts bytes oldest e rest c c' at v full r,
        )
    | inr room ↦ (c, rw room, stops bytes c v room)
  ]

  -- `set` puts an entry of its own at the end, and otherwise only takes entries away.
  pub record Stores (full : String) (e : Entry V) (c c' : Cache V) : Type ℓ where
    pub made : Cache V
    pub room : MakesRoom e.bytes (forget full c) made
    pub entries : c'.entries ≡ made.entries ++ (full, e) ∷ []
    pub found : get full c'.entries ≡ some e
    pub others :
        (j : String) (x : Entry V) → j ≢ full → get j c'.entries ≡ some x → get j c.entries ≡ some x
    pub same_inflight : c'.inflight ≡ c.inflight
    pub valid : IsValid c'

  pub forget-IsValid : (full : String) (c : Cache V) → IsValid c → IsValid (forget full c)
  forget-IsValid full c v = elim (Bool-cases (has full c.entries)) [
    | inl there ↦ rw there (remove-IsValid full plain c v)
    | inr absent ↦ rw absent v
  ]

  pub entries-forget :
      (full : String) (c : Cache V) → (forget full c).entries ≡ delete full c.entries
  entries-forget full c = elim (Bool-cases (has full c.entries)) [
    | inl there ↦
        let (e, found) = get-some_of_has full c.entries there in
        rw there (ap (λ p. (p.1).entries) (remove-found full plain e c found))
    | inr absent ↦
        rw absent (sym (delete-absent full c.entries (get-none_of_has full c.entries absent)))
  ]

  pub same_limits-forget :
      (full : String) (c : Cache V)
      → ((forget full c).max_entries ≡ c.max_entries)
        × ((forget full c).max_bytes ≡ c.max_bytes)
        × ((forget full c).inflight ≡ c.inflight)
  unfolding remove
  same_limits-forget full c = ground arith

  pub get-drop :
      (full : String) (m : JsMap (Entry V)) (k : ℕ) → get full m ≡ none → get full (drop k m) ≡ none
  unfolding get
  get-drop full m zero h = h
  get-drop full [] (suc k) h = refl
  get-drop full ((j, e) ∷ m) (suc k) h = get-drop full m k (ground arith)

  pub get-drop-some :
      (j : String) (x : Entry V) (m : JsMap (Entry V)) (k : ℕ)
      → IsDistinct m
      → get j (drop k m) ≡ some x
      → get j m ≡ some x
  unfolding get
  get-drop-some j x m zero d h = h
  get-drop-some j x [] (suc k) d h = h
  get-drop-some j x ((i, e) ∷ m) (suc k) d h =
      let later = get-drop-some j x m k d.1 h in ground (arith, eq_iff i j)
