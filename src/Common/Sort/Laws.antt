-- ===== src/Common/Sort/Laws.antt =====
-- A sorted list is a permutation of the list, in order; two sorted permutations of one list agree where
-- the comparator tells all items apart.
use para11ax.Common.{
  ℕ, ◌≡◌, refl, sym, ◌∙◌, inl, inr, true, false, List, [], ◌∷◌, arith, if◌then◌else◌, Bool-cases,
  All,
}
use Prim.Native.Nat.{Ordering}
use mathlib.Core.List.{Perm}
use mathlib.Core.List.Perm
use para11ax.Common.Lex.{
  is_not_after, lex, lex-flip, lex_trans, lex_refl, eq_of_lex, is_eq, is_eq→eq,
}
use para11ax.Common.Sort.{insert, sort}

module _ {ℓ} {A : Type ℓ} (cmp : A → A → Ordering) where
  -- Each item is in order with all that follow.
  abbrev pub IsOrdered : List A → Type 0
  IsOrdered [] = Unit
  IsOrdered (x ∷ xs) = All (λ y. is_not_after (cmp x y) ≡ true) xs × IsOrdered xs

  pub insert-perm : (x : A) (xs : List A) → Perm (insert cmp x xs) (x ∷ xs)
  unfolding insert
  insert-perm x [] = Perm.refl (x ∷ [])
  insert-perm x (y ∷ ys) = elim (Bool-cases (is_not_after (cmp x y))) [
    | inl before ↦ rw before (Perm.refl _)
    | inr after ↦ rw after (Perm.trans (Perm.cons y (insert-perm x ys)) (Perm.swap x y ys))
  ]

  pub sort-perm : (xs : List A) → Perm (sort cmp xs) xs
  unfolding sort
  sort-perm [] = Perm.refl []
  sort-perm (x ∷ xs) = Perm.trans (insert-perm x (sort cmp xs)) (Perm.cons x (sort-perm xs))

  module _ (key : A → List ℕ) (by_key : (a b : A) → cmp a b ≡ lex (key a) (key b)) where
    before_trans :
        (a b c : A)
        → is_not_after (cmp a b) ≡ true
        → is_not_after (cmp b c) ≡ true
        → is_not_after (cmp a c) ≡ true
    before_trans a b c h k =
        rw (by_key a c)
          (lex_trans (key a) (key b) (key c) (rw (by_key a b) at h) (rw (by_key b c) at k))

    before_total : (a b : A) → is_not_after (cmp a b) ≡ false → is_not_after (cmp b a) ≡ true
    before_total a b h = ground (arith, by_key a b, by_key b a, lex-flip (key a) (key b))

    All-map : (P Q : A → Type 0) (xs : List A) → ((y : A) → P y → Q y) → All P xs → All Q xs
    All-map P Q [] f h = tt
    All-map P Q (y ∷ ys) f (p, h) = (f y p, All-map P Q ys f h)

    All-insert : (P : A → Type 0) (x : A) (xs : List A) → P x → All P xs → All P (insert cmp x xs)
    unfolding insert
    All-insert P x [] p h = (p, tt)
    All-insert P x (y ∷ ys) p h = elim (Bool-cases (is_not_after (cmp x y))) [
      | inl before ↦ rw before (p, h)
      | inr after ↦ rw after (h.0, All-insert P x ys p h.1)
    ]

    insert-IsOrdered : (x : A) (xs : List A) → IsOrdered xs → IsOrdered (insert cmp x xs)
    unfolding insert
    insert-IsOrdered x [] o = (tt, tt)
    insert-IsOrdered x (y ∷ ys) (first, o) = elim (Bool-cases (is_not_after (cmp x y))) [
      | inl before ↦
          rw before
            ((before, All-map _ _ ys (λ z h. before_trans x y z before h) first), (first, o))
      | inr after ↦
          rw after (All-insert _ x ys (before_total x y after) first, insert-IsOrdered x ys o)
    ]

    pub sort-IsOrdered : (xs : List A) → IsOrdered (sort cmp xs)
    unfolding sort
    sort-IsOrdered [] = tt
    sort-IsOrdered (x ∷ xs) = insert-IsOrdered x (sort cmp xs) (sort-IsOrdered xs)

    -- The items that the comparator does not tell from one with the key `k`.
    abbrev pub with_key : List ℕ → List A → List A
    with_key k [] = []
    with_key k (x ∷ xs) = if is_eq (lex (key x) k) then x ∷ with_key k xs else with_key k xs

    apart :
        (x y : A) (k : List ℕ)
        → is_not_after (cmp x y) ≡ false
        → is_eq (lex (key x) k) ≡ true
        → is_eq (lex (key y) k) ≡ false
    apart x y k after same = elim (Bool-cases (is_eq (lex (key y) k))) [
      | inr different ↦ different
      | inl alike ↦
          let e =
            eq_of_lex (key x) k (is_eq→eq _ same) ∙ sym (eq_of_lex (key y) k (is_eq→eq _ alike)) in
          let tie : cmp x y ≡ Ordering.eq = by_key x y ∙ rw e (lex_refl (key y)) in
          cc (rw tie at after)
    ]

    with_key-insert :
        (k : List ℕ) (x : A) (xs : List A) → with_key k (insert cmp x xs) ≡ with_key k (x ∷ xs)
    unfolding insert
    with_key-insert k x [] = refl
    with_key-insert k x (y ∷ ys) = elim (Bool-cases (is_not_after (cmp x y))) [
      | inl before ↦ rw before refl
      | inr after ↦ rw after (ground (arith, apart x y k after, with_key-insert k x ys))
    ]

    pub with_key-sort : (k : List ℕ) (xs : List A) → with_key k (sort cmp xs) ≡ with_key k xs
    unfolding sort
    with_key-sort k [] = refl
    with_key-sort k (x ∷ xs) = with_key-insert k x (sort cmp xs) ∙ rw (with_key-sort k xs) refl
