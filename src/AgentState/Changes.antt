-- ===== src/AgentState/Changes.antt =====
-- What reduceAgentState of src/core/agent-state.js adds to a state is let through by its checks.
use para11ax.Common.{
  ℕ, String, ◌≡◌, refl, ap, ◌∙◌, subst, inl, inr, Bool, true, false, not, ◌||◌, List, [], ◌∷◌, ◌++◌,
  arith, ltb, leb, Bool-cases, leb→lt, le→leb, length, length-append,
}
use para11ax.JsText.{Text, same_text, is_member}
use para11ax.JsText.Laws.{same_text_sym}
use para11ax.AgentState.{
  Checked, ok, ◌>>=◌, max_list, has_duplicate, text, map_checked, unique_text, trim,
  replace_line_ends, is_empty, has_unsafe_control,
}
use para11ax.AgentState.Stable.{ok_eq, bind-ok, check-ok, text-IsStable}

-- The field's name matters only to the error.
pub text_field : (f g : String) (m : ℕ) (v w : Text) → text f m v ≡ ok w → text g m v ≡ ok w
unfolding text
text_field f g m v w h =
    let n = trim (replace_line_ends v) in
    elim (Bool-cases (is_empty n || ltb m (length n) || has_unsafe_control n)) [
      | inl refuses ↦ cc (rw (refuses, text) at h)
      | inr fine ↦ rw (fine, text) (rw (fine, text) at h)
    ]

-- A text that was let through is let through again, under any name.
pub again : (f g : String) (m : ℕ) (v w : Text) → text f m v ≡ ok w → text g m w ≡ ok w
again f g m v w h = text_field f g m w w (text-IsStable f m v w h)

pub cons_parts {ℓ} :
    {A : Type ℓ} (f : A → Checked A) (x : A) (xs : List A)
    → map_checked f (x ∷ xs) ≡ ok (x ∷ xs)
    → (f x ≡ ok x) × (map_checked f xs ≡ ok xs)
cons_parts f x xs h =
    let (z, hz, h₁) = bind-ok (f x) (λ y. map_checked f xs >>= λ zs. ok (y ∷ zs)) (x ∷ xs) h in
    let (zs, hzs, h₂) = bind-ok (map_checked f xs) (λ zs. ok (z ∷ zs)) (x ∷ xs) h₁ in
    let e : z ∷ zs ≡ x ∷ xs = ok_eq _ _ h₂ in
    let first : z ≡ x = cc in let rest : zs ≡ xs = cc in (hz ∙ ap ok first, hzs ∙ ap ok rest)

pub map_checked-snoc {ℓ} :
    {A : Type ℓ} (f : A → Checked A) (xs : List A) (y : A)
    → map_checked f xs ≡ ok xs
    → f y ≡ ok y
    → map_checked f (xs ++ y ∷ []) ≡ ok (xs ++ y ∷ [])
map_checked-snoc f [] y h hy = rw hy refl
map_checked-snoc f (x ∷ xs) y h hy =
    let (hx, hxs) = cons_parts f x xs h in rw (hx, map_checked-snoc f xs y hxs hy) refl

pub or-false : (a b : Bool) → (a || b) ≡ false → (a ≡ false) × (b ≡ false)
or-false true b h = cc
or-false false b h = (refl, h)

pub not-true : (b : Bool) → not b ≡ true → b ≡ false
not-true true h = cc
not-true false h = refl

is_member-snoc :
    (t d : Text) (ts : List Text)
    → is_member t ts ≡ false
    → same_text d t ≡ false
    → is_member t (ts ++ d ∷ []) ≡ false
is_member-snoc t d [] h hd = rw hd refl
is_member-snoc t d (u ∷ us) h hd =
    let (here, later) = or-false (same_text u t) (is_member t us) h in
    rw here (is_member-snoc t d us later hd)

pub has_duplicate-snoc :
    (ts : List Text) (d : Text)
    → has_duplicate ts ≡ false
    → is_member d ts ≡ false
    → has_duplicate (ts ++ d ∷ []) ≡ false
has_duplicate-snoc [] d h hd = refl
has_duplicate-snoc (t ∷ ts) d h hd =
    let (fresh, once) = or-false (is_member t ts) (has_duplicate ts) h in
    let (here, later) = or-false (same_text t d) (is_member d ts) hd in
    rw (is_member-snoc t d ts fresh (same_text_sym d t ∙ here), has_duplicate-snoc ts d once later)
      refl

unique_parts :
    (field : String) (ts : List Text)
    → unique_text field ts ≡ ok ts
    → (map_checked (text field 2048) ts ≡ ok ts) × (has_duplicate ts ≡ false)
unfolding unique_text
unique_parts field ts h =
    let (few, h₁) = check-ok (leb (length ts) max_list) field _ ts h in
    let (us, hus, h₂) = bind-ok (map_checked (text field 2048) ts) _ ts h₁ in
    let (once, h₃) = check-ok (not (has_duplicate us)) field _ ts h₂ in
    let e : us ≡ ts = ok_eq us ts h₃ in
    (hus ∙ ap ok e, subst (λ vs. has_duplicate vs ≡ false) e (not-true (has_duplicate us) once))

pub unique_text-snoc :
    (field : String) (ts : List Text) (d : Text)
    → unique_text field ts ≡ ok ts
    → text field 2048 d ≡ ok d
    → is_member d ts ≡ false
    → leb max_list (length ts) ≡ false
    → unique_text field (ts ++ d ∷ []) ≡ ok (ts ++ d ∷ [])
unfolding unique_text
unique_text-snoc field ts d h hd fresh room =
    let (all_ok, once) = unique_parts field ts h in
    let few : leb (length (ts ++ d ∷ [])) max_list ≡ true =
      le→leb _ _ (omega (arith, leb→lt _ _ room, length-append ts (d ∷ []))) in
    rw (few, map_checked-snoc (text field 2048) ts d all_ok hd, has_duplicate-snoc ts d once fresh)
      refl
