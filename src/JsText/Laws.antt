-- ===== src/JsText/Laws.antt =====
-- Laws of the operations on texts: equality, and that trimming and replacing line ends is done once.
use para11ax.Common.{
  ℕ, ◌≡◌, refl, sym, ap, ◌∙◌, subst, ◌≢◌, inl, inr, true, false, [], ◌∷◌, arith, ◌==◌, Bool-cases,
  All,
}
use para11ax.JsText.{
  Text, same_text, is_white_space, trim_start, trim_before, trim_end, trim, carriage_return,
  starts_with_line_feed, replace_line_ends,
}

pub same_text-eq : (t u : Text) → same_text t u ≡ true → t ≡ u
same_text-eq [] [] h = refl
same_text-eq (c ∷ cs) (d ∷ ds) h = elim (Bool-cases (c == d)) [
  | inl same ↦
      let e : c ≡ d = ground arith in
      ap (λ x. x ∷ cs) e ∙ ap (λ xs. d ∷ xs) (same_text-eq cs ds (rw same at h))
  | inr other ↦ cc (rw other at h)
]
same_text-eq [] (d ∷ ds) h = cc
same_text-eq (c ∷ cs) [] h = cc

pub same_text_refl : (t : Text) → same_text t t ≡ true
same_text_refl [] = refl
same_text_refl (c ∷ cs) = let same : (c == c) ≡ true = ground arith in rw same (same_text_refl cs)

pub same_text-differs : (t u : Text) → same_text t u ≡ false → t ≢ u
same_text-differs t u h e = cc (same_text_refl t, subst (λ v. same_text t v ≡ false) (sym e) h)

-- Texts without a carriage return.
abbrev pub HasNoReturn : Text → Type 0
HasNoReturn t = All (λ c. (c == carriage_return) ≡ false) t

replace-HasNoReturn : (t : Text) → HasNoReturn (replace_line_ends t)
unfolding replace_line_ends
replace-HasNoReturn [] = tt
replace-HasNoReturn (c ∷ cs) =
    let rest = replace-HasNoReturn cs in
    elim (Bool-cases (c == carriage_return)) [
      | inr other ↦ rw (other, replace_line_ends) (other, rest)
      | inl return ↦ elim (Bool-cases (starts_with_line_feed cs)) [
        | inl pair ↦ rw (return, pair, replace_line_ends) rest
        | inr alone ↦ rw (return, alone, replace_line_ends) (refl, rest)
      ]
    ]

pub replace-unchanged : (t : Text) → HasNoReturn t → replace_line_ends t ≡ t
unfolding replace_line_ends
replace-unchanged [] h = refl
replace-unchanged (c ∷ cs) h = rw (h.0, replace-unchanged cs h.1) refl

trim_start-HasNoReturn : (t : Text) → HasNoReturn t → HasNoReturn (trim_start t)
unfolding trim_start
trim_start-HasNoReturn [] h = tt
trim_start-HasNoReturn (c ∷ cs) h = elim (Bool-cases (is_white_space c)) [
  | inl white ↦ rw (white, trim_start) (trim_start-HasNoReturn cs h.1)
  | inr other ↦ rw (other, trim_start) h
]

before-HasNoReturn :
    (c : ℕ) (t : Text)
    → (c == carriage_return) ≡ false
    → HasNoReturn t
    → HasNoReturn (trim_before c t)
before-HasNoReturn c [] h hs = elim (Bool-cases (is_white_space c)) [
  | inl white ↦ rw white tt
  | inr other ↦ rw other (h, tt)
]
before-HasNoReturn c (d ∷ ds) h hs = (h, hs)

trim_end-HasNoReturn : (t : Text) → HasNoReturn t → HasNoReturn (trim_end t)
unfolding trim_end
trim_end-HasNoReturn [] h = tt
trim_end-HasNoReturn (c ∷ cs) h =
    before-HasNoReturn c (trim_end cs) h.0 (trim_end-HasNoReturn cs h.1)

-- A text that does not begin with white space.
abbrev StartsInk : Text → Type 0
StartsInk [] = Unit
StartsInk (c ∷ cs) = is_white_space c ≡ false

trim_start-StartsInk : (t : Text) → StartsInk (trim_start t)
unfolding trim_start
trim_start-StartsInk [] = tt
trim_start-StartsInk (c ∷ cs) = elim (Bool-cases (is_white_space c)) [
  | inl white ↦ rw (white, trim_start) (trim_start-StartsInk cs)
  | inr other ↦ rw (other, trim_start) other
]

before-StartsInk : (c : ℕ) (t : Text) → is_white_space c ≡ false → StartsInk (trim_before c t)
before-StartsInk c [] h = rw h h
before-StartsInk c (d ∷ ds) h = h

trim_end-StartsInk : (t : Text) → StartsInk t → StartsInk (trim_end t)
unfolding trim_end
trim_end-StartsInk [] h = tt
trim_end-StartsInk (c ∷ cs) h = before-StartsInk c (trim_end cs) h

trim_start-unchanged : (t : Text) → StartsInk t → trim_start t ≡ t
unfolding trim_start
trim_start-unchanged [] h = refl
trim_start-unchanged (c ∷ cs) h = rw h refl

trim_end-before : (c : ℕ) (t : Text) → trim_end t ≡ t → trim_end (trim_before c t) ≡ trim_before c t
unfolding trim_end
trim_end-before c [] h = elim (Bool-cases (is_white_space c)) [
  | inl white ↦ rw white refl
  | inr other ↦ rw (other, trim_end) (rw other refl)
]
trim_end-before c (d ∷ ds) h = ap (trim_before c) h

trim_end_twice : (t : Text) → trim_end (trim_end t) ≡ trim_end t
unfolding trim_end
trim_end_twice [] = refl
trim_end_twice (c ∷ cs) = trim_end-before c (trim_end cs) (trim_end_twice cs)

pub trim_twice : (t : Text) → trim (trim t) ≡ trim t
unfolding trim
trim_twice t =
    ap trim_end
      (trim_start-unchanged (trim t) (trim_end-StartsInk (trim_start t) (trim_start-StartsInk t)))
    ∙ trim_end_twice (trim_start t)

trim-HasNoReturn : (s : Text) → HasNoReturn s → HasNoReturn (trim s)
unfolding trim
trim-HasNoReturn s h = trim_end-HasNoReturn (trim_start s) (trim_start-HasNoReturn s h)

-- Replacing line ends and trimming again changes nothing.
pub trim-replace_twice :
    (t : Text) → trim (replace_line_ends (trim (replace_line_ends t))) ≡ trim (replace_line_ends t)
trim-replace_twice t =
    let s = replace_line_ends t in
    ap trim (replace-unchanged (trim s) (trim-HasNoReturn s (replace-HasNoReturn t))) ∙ trim_twice s

abbrev pub IsInk : ℕ → Type 0
IsInk c = is_white_space c ≡ false

trim_end-unchanged : (t : Text) → All IsInk t → trim_end t ≡ t
unfolding trim_end
trim_end-unchanged [] h = refl
trim_end-unchanged (c ∷ []) h = rw h.0 refl
trim_end-unchanged (c ∷ d ∷ ds) h = ap (trim_before c) (trim_end-unchanged (d ∷ ds) h.1)

-- A text without white space at all is left as it is.
pub trim-unchanged : (t : Text) → All IsInk t → trim t ≡ t
unfolding trim trim_start trim_end
trim-unchanged [] h = refl
trim-unchanged (c ∷ cs) h =
    ap trim_end (trim_start-unchanged (c ∷ cs) h.0) ∙ trim_end-unchanged (c ∷ cs) h

pub same_text_sym : (t u : Text) → same_text t u ≡ same_text u t
same_text_sym [] [] = refl
same_text_sym [] (d ∷ ds) = refl
same_text_sym (c ∷ cs) [] = refl
same_text_sym (c ∷ cs) (d ∷ ds) =
    let e : (c == d) ≡ (d == c) = ground arith in cc (same_text_sym cs ds)
