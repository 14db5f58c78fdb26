-- ===== src/AgentState/Stable.antt =====
-- What importAgentState of src/core/agent-state.js returns it lets through again, unchanged.
use para11ax.Common.{
  ℕ, suc, String, ◌≡◌, refl, ap, ◌∙◌, subst, inl, inr, Bool, true, false, not, ◌||◌, List, [], ◌∷◌,
  ltb, leb, Bool-cases, length,
}
use para11ax.JsText.{Text, trim, replace_line_ends}
use para11ax.JsText.Laws.{trim-replace_twice}
use para11ax.AgentState.{
  Checked, ok, rejected, ◌>>=◌, ◌>>◌, check, max_list, is_empty, has_unsafe_control, has_duplicate,
  text, map_checked, unique_text, Platform, timestamp,
}

pub ok_eq {ℓ} : {A : Type ℓ} (a b : A) → ok a ≡ ok b → a ≡ b
ok_eq a b h = cc

-- A chain that succeeds, from its first step on.
pub bind-ok {ℓ κ} :
    {A : Type ℓ} {B : Type κ} (m : Checked A) (f : A → Checked B) (b : B)
    → (m >>= f) ≡ ok b
    → (a : A) × (m ≡ ok a) × (f a ≡ ok b)
bind-ok (ok a) f b h = (a, refl, h)
bind-ok (rejected e) f b h = cc

pub check-ok {ℓ} :
    {B : Type ℓ} (test : Bool) (e : String) (k : Checked B) (b : B)
    → (check test e >> k) ≡ ok b
    → (test ≡ true) × (k ≡ ok b)
check-ok true e k b h = (refl, h)
check-ok false e k b h = cc

abbrev pub IsStable {ℓ} : {A : Type ℓ} → (A → Checked A) → Type ℓ
IsStable {A = A} f = (x y : A) → f x ≡ ok y → f y ≡ ok y

pub text-IsStable : (field : String) (maximum : ℕ) → IsStable (text field maximum)
unfolding text
text-IsStable field maximum v w h =
    let n = trim (replace_line_ends v) in
    elim (Bool-cases (is_empty n || ltb maximum (length n) || has_unsafe_control n)) [
      | inl refuses ↦ cc (rw (refuses, text) at h)
      | inr fine ↦
          let e : n ≡ w = ok_eq n w (rw (fine, text) at h) in
          subst (λ t. text field maximum t ≡ ok t) e (rw (trim-replace_twice v, fine, text) refl)
    ]

pub timestamp-IsStable :
    (platform : Platform) (field : String) → IsStable (timestamp platform field)
timestamp-IsStable platform field v w h = elim (Bool-cases (platform.is_timestamp v)) [
  | inr bad ↦ cc (rw bad at h)
  | inl good ↦
      let e : v ≡ w = ok_eq v w (rw good at h) in
      subst (λ t. timestamp platform field t ≡ ok t) e (rw good refl)
]

pub map_checked-IsStable {ℓ} :
    {A : Type ℓ} (f : A → Checked A)
    → IsStable f
    → (xs ys : List A) → map_checked f xs ≡ ok ys
    → (map_checked f ys ≡ ok ys) × (length ys ≡ length xs)
map_checked-IsStable f stable [] ys h =
    subst (λ zs. (map_checked f zs ≡ ok zs) × (length zs ≡ 0)) (ok_eq [] ys h) (refl, refl)
map_checked-IsStable f stable (x ∷ xs) ys h =
    let (z, hz, h₁) = bind-ok (f x) (λ y. map_checked f xs >>= λ zs. ok (y ∷ zs)) ys h in
    let (zs, hzs, h₂) = bind-ok (map_checked f xs) (λ zs. ok (z ∷ zs)) ys h₁ in
    let (later, long) = map_checked-IsStable f stable xs zs hzs in
    subst (λ us. (map_checked f us ≡ ok us) × (length us ≡ suc (length xs))) (ok_eq _ _ h₂)
      (rw (stable x z hz, later) refl, ap suc long)

unique_text-again :
    (field : String) (ts : List Text)
    → leb (length ts) max_list ≡ true
    → map_checked (text field 2048) ts ≡ ok ts
    → not (has_duplicate ts) ≡ true
    → unique_text field ts ≡ ok ts
unfolding unique_text
unique_text-again field ts few same once = rw (few, same, once) refl

pub unique_text-IsStable : (field : String) → IsStable (unique_text field)
unfolding unique_text
unique_text-IsStable field xs ys h =
    let (few, h₁) = check-ok (leb (length xs) max_list) field _ ys h in
    let (zs, hzs, h₂) = bind-ok (map_checked (text field 2048) xs) _ ys h₁ in
    let (once, h₃) = check-ok (not (has_duplicate zs)) field _ ys h₂ in
    let (again, long) =
      map_checked-IsStable (text field 2048) (text-IsStable field 2048) xs zs hzs in
    subst (λ us. unique_text field us ≡ ok us) (ok_eq zs ys h₃)
      (unique_text-again field zs (ap (λ n. leb n max_list) long ∙ few) again once)
