-- ===== src/Sha256/Digest.antt =====
-- The text that src/core/sha256.js makes of a digest.
use Prim.Native.Nat.{◌^◌}
use para11ax.Common.{
  ℕ, zero, suc, ◌+◌, ◌-◌, ◌*◌, ◌/◌, ◌%◌, ◌≤◌, ◌<◌, ◌≡◌, refl, ap, ◌∙◌, inl, inr, Bool, true, ◌&&◌,
  ◌||◌, List, [], ◌∷◌, ◌++◌, arith, ltb, leb, if◌then◌else◌, Bool-cases, ltb→lt, lt→ltb, length,
  length-append, All, All-append,
}
use para11ax.JsText.{Text}
use para11ax.Sha256.{
  Words, hex_digit, to_hex, repeat, hex_word, join_words, digest_blocks, initial, padded_length,
  pad, sha256_hex,
}

-- [a-f0-9]
abbrev pub is_hex : ℕ → Bool
is_hex c = (leb 97 c && leb c 102) || (leb 48 c && leb c 57)

abbrev AllHex : Text → Type 0
AllHex t = All (λ c. is_hex c ≡ true) t

hex_digit-hex : (n : ℕ) → n < 16 → is_hex (hex_digit n) ≡ true
hex_digit-hex n h = elim (Bool-cases (ltb n 10)) [
  | inl small ↦ ground (arith, small)
  | inr large ↦ ground (arith, large)
]

to_hex-AllHex : (fuel n : ℕ) (digits : Text) → AllHex digits → AllHex (to_hex fuel n digits)
unfolding to_hex
to_hex-AllHex zero n digits h = h
to_hex-AllHex (suc fuel) n digits h = elim (Bool-cases (ltb n 16)) [
  | inl last ↦ rw (last, to_hex) (hex_digit-hex n (ltb→lt _ _ last), h)
  | inr more ↦
      rw (more, to_hex)
        (to_hex-AllHex fuel (n / 16) (hex_digit (n % 16) ∷ digits)
          (hex_digit-hex (n % 16) (omega arith), h))
]

length-to_hex : (fuel n : ℕ) (digits : Text) → length (to_hex fuel n digits) ≤ fuel + length digits
unfolding to_hex
length-to_hex zero n digits = omega arith
length-to_hex (suc fuel) n digits = elim (Bool-cases (ltb n 16)) [
  | inl last ↦ rw (last, to_hex) (omega arith)
  | inr more ↦
      rw (more, to_hex) (omega (arith, length-to_hex fuel (n / 16) (hex_digit (n % 16) ∷ digits)))
]

repeat-AllHex : (n : ℕ) → AllHex (repeat n 48)
repeat-AllHex zero = tt
repeat-AllHex (suc n) = (refl, repeat-AllHex n)

length-repeat : (n c : ℕ) → length (repeat n c) ≡ n
length-repeat zero c = refl
length-repeat (suc n) c = ap suc (length-repeat n c)

-- The text of `count` words.
record IsHexText (count : ℕ) (t : Text) : Type 0 where
  digits : AllHex t
  size : length t ≡ 8 * count

hex_word-IsHexText : (n : ℕ) → IsHexText 1 (hex_word n)
hex_word-IsHexText n =
    let t = to_hex 8 n [] in
    let missing = 8 - length t in
    record {
      digits =
          All-append (λ c. is_hex c ≡ true) (repeat missing 48) t (repeat-AllHex missing)
            (to_hex-AllHex 8 n [] tt);
      size = omega (
        arith,
        length-append (repeat missing 48) t,
        length-repeat missing 48,
        length-to_hex 8 n [],
      );
    }

append-IsHexText : (n : ℕ) (t u : Text) → IsHexText 1 t → IsHexText n u → IsHexText (n + 1) (t ++ u)
append-IsHexText n t u h k = record {
  digits = All-append (λ c. is_hex c ≡ true) t u h.digits k.digits;
  size = omega (arith, length-append t u, h.size, k.size);
}

join_words-IsHexText : (v : Words) → IsHexText 8 (join_words v)
join_words-IsHexText v = append-IsHexText 7 _ _ (hex_word-IsHexText v.a) (
    append-IsHexText 6 _ _ (hex_word-IsHexText v.b) (
      append-IsHexText 5 _ _ (hex_word-IsHexText v.c) (
        append-IsHexText 4 _ _ (hex_word-IsHexText v.d) (
          append-IsHexText 3 _ _ (hex_word-IsHexText v.e) (
            append-IsHexText 2 _ _ (hex_word-IsHexText v.f)
              (append-IsHexText 1 _ _ (hex_word-IsHexText v.g) (hex_word-IsHexText v.h)))))))

-- The text has 64 characters, each of 0-9 or a-f.
pub sha256_hex-AllHex :
    (bytes : List ℕ)
    → All (λ c. is_hex c ≡ true) (sha256_hex bytes) × (length (sha256_hex bytes) ≡ 64)
unfolding sha256_hex
sha256_hex-AllHex bytes =
    let h =
      join_words-IsHexText
        (digest_blocks (padded_length (length bytes) / 64) (pad bytes) initial) in
    (h.digits, h.size)

abbrev hex_value_of_digit : ℕ → ℕ
hex_value_of_digit c = if ltb c 97 then c - 48 else c - 87

-- The number that digits in base 16 stand for, behind the digits of `acc`.
abbrev pub hex_value : ℕ → Text → ℕ
hex_value acc [] = acc
hex_value acc (c ∷ cs) = hex_value (acc * 16 + hex_value_of_digit c) cs

abbrev values : ℕ → ℕ
values zero = 1
values (suc fuel) = 16 * values fuel

value-hex_digit : (n : ℕ) → n < 16 → hex_value_of_digit (hex_digit n) ≡ n
value-hex_digit n h = elim (Bool-cases (ltb n 10)) [
  | inl small ↦ ground (arith, small)
  | inr large ↦ ground (arith, large)
]

value-last :
    (fuel n : ℕ) (digits : Text)
    → ltb n 16 ≡ true
    → hex_value 0 (to_hex (suc fuel) n digits) ≡ hex_value n digits
unfolding to_hex
value-last fuel n digits last =
    rw (last, to_hex)
      (ap (λ k. hex_value k digits) (omega (arith, value-hex_digit n (ltb→lt _ _ last))))

value-to_hex :
    (fuel n : ℕ) (digits : Text)
    → n < values (suc fuel)
    → hex_value 0 (to_hex (suc fuel) n digits) ≡ hex_value n digits
unfolding to_hex
value-to_hex zero n digits small = value-last zero n digits (lt→ltb n 16 (omega (arith, small)))
value-to_hex (suc fuel) n digits small = elim (Bool-cases (ltb n 16)) [
  | inl last ↦ value-last (suc fuel) n digits last
  | inr more ↦
      let digit = value-hex_digit (n % 16) (omega arith) in
      rw (more, to_hex)
        (value-to_hex fuel (n / 16) (hex_digit (n % 16) ∷ digits) (omega (arith, small))
          ∙ ap (λ k. hex_value k digits) (omega (arith, digit)))
]

value-repeat : (n : ℕ) (t : Text) → hex_value 0 (repeat n 48 ++ t) ≡ hex_value 0 t
value-repeat zero t = refl
value-repeat (suc n) t = value-repeat n t

-- The eight digits of a word stand for it: the bound on the digits is enough.
value-hex_word : (n : ℕ) → n < 2 ^ 32 → hex_value 0 (hex_word n) ≡ n
value-hex_word n small =
    value-repeat (8 - length (to_hex 8 n [])) (to_hex 8 n []) ∙ value-to_hex 7 n [] small
