-- ===== src/Sha256/Padding.antt =====
-- The buffer that src/core/sha256.js fills is the message with its padding.
use Prim.Native.Nat.{◌^◌}
use mathlib.Core.List.{append_assoc}
use para11ax.Common.{
  ℕ, zero, suc, ◌+◌, ◌-◌, ◌*◌, ◌/◌, ◌%◌, ◌≤◌, ◌<◌, ◌≡◌, refl, sym, ap, ◌∙◌, List, [], ◌∷◌, ◌++◌,
  arith, length, length-append,
}
use para11ax.Sha256.{word, zeros, set_at, set_bytes, set_uint32, padded_length, pad}

abbrev pub big_endian : ℕ → List ℕ
big_endian v = v / 16777216 % 256 ∷ (v / 65536 % 256 ∷ (v / 256 % 256 ∷ (v % 256 ∷ [])))

pub length-zeros : (n : ℕ) → length (zeros n) ≡ n
length-zeros zero = refl
length-zeros (suc n) = ap suc (length-zeros n)

zeros-add : (m n k : ℕ) → m + n ≡ k → zeros k ≡ zeros m ++ zeros n
zeros-add zero n k h = ap zeros (omega (arith, h))
zeros-add (suc m) n zero h = absurd (omega (arith, h))
zeros-add (suc m) n (suc k) h = ap (λ xs. 0 ∷ xs) (zeros-add m n k (omega (arith, h)))

set_bytes-append :
    (bytes xs ys : List ℕ) → length bytes ≡ length xs → set_bytes bytes (xs ++ ys) ≡ bytes ++ ys
unfolding set_bytes
set_bytes-append [] [] ys h = refl
set_bytes-append (b ∷ bs) (x ∷ xs) ys h =
    ap (λ zs. b ∷ zs) (set_bytes-append bs xs ys (omega (arith, h)))
set_bytes-append [] (x ∷ xs) ys h = absurd (omega (arith, h))
set_bytes-append (b ∷ bs) [] ys h = absurd (omega (arith, h))

set_at-append :
    (i k v : ℕ) (xs ys : List ℕ) → i ≡ length xs + k → set_at i v (xs ++ ys) ≡ xs ++ set_at k v ys
unfolding set_at
set_at-append i k v [] ys h = ap (λ j. set_at j v ys) (omega (arith, h))
set_at-append zero k v (x ∷ xs) ys h = absurd (omega (arith, h))
set_at-append (suc i) k v (x ∷ xs) ys h =
    ap (λ zs. x ∷ zs) (set_at-append i k v xs ys (omega (arith, h)))

-- Four zeros in the middle become a word.
set_uint32-append :
    (i v : ℕ) (xs ys : List ℕ)
    → i ≡ length xs
    → set_uint32 i v (xs ++ (zeros 4 ++ ys)) ≡ xs ++ (big_endian v ++ ys)
unfolding set_at
set_uint32-append i v xs ys h =
    let a = v / 16777216 % 256 in
    let b = v / 65536 % 256 in
    let c = v / 256 % 256 in
    ap (λ zs. set_at (i + 3) (v % 256) (set_at (i + 2) c (set_at (i + 1) b zs)))
      (set_at-append i 0 a xs (zeros 4 ++ ys) (omega (arith, h)))
    ∙ ap (λ zs. set_at (i + 3) (v % 256) (set_at (i + 2) c zs))
        (set_at-append (i + 1) 1 b xs (a ∷ (zeros 3 ++ ys)) (omega (arith, h)))
    ∙ ap (set_at (i + 3) (v % 256))
        (set_at-append (i + 2) 2 c xs (a ∷ (b ∷ (zeros 2 ++ ys))) (omega (arith, h)))
    ∙ set_at-append (i + 3) 3 (v % 256) xs (a ∷ (b ∷ (c ∷ (0 ∷ ys)))) (omega (arith, h))

-- The big-endian bytes of a number of 64 bits.
abbrev pub big_endian64 : ℕ → List ℕ
big_endian64 v =
    v / 2 ^ 56 % 256
    ∷ (v / 2 ^ 48 % 256
        ∷ (v / 2 ^ 40 % 256
            ∷ (v / 2 ^ 32 % 256
                ∷ (v / 2 ^ 24 % 256 ∷ (v / 2 ^ 16 % 256 ∷ (v / 2 ^ 8 % 256 ∷ (v % 256 ∷ [])))))))

words-big_endian64 :
    (v : ℕ) → big_endian (word (v / 2 ^ 32)) ++ big_endian (word v) ≡ big_endian64 v
words-big_endian64 v =
    let e0 : word (v / 2 ^ 32) / 16777216 % 256 ≡ v / 2 ^ 56 % 256 = omega arith in
    let e1 : word (v / 2 ^ 32) / 65536 % 256 ≡ v / 2 ^ 48 % 256 = omega arith in
    let e2 : word (v / 2 ^ 32) / 256 % 256 ≡ v / 2 ^ 40 % 256 = omega arith in
    let e3 : word (v / 2 ^ 32) % 256 ≡ v / 2 ^ 32 % 256 = omega arith in
    let e4 : word (v) / 16777216 % 256 ≡ v / 2 ^ 24 % 256 = omega arith in
    let e5 : word (v) / 65536 % 256 ≡ v / 2 ^ 16 % 256 = omega arith in
    let e6 : word (v) / 256 % 256 ≡ v / 2 ^ 8 % 256 = omega arith in
    let e7 : word (v) % 256 ≡ v % 256 = omega arith in cc

-- The number of zeros between the end bit and the length.
abbrev pub gap : ℕ → ℕ
gap n = padded_length n - 9 - n

pad-start :
    (bytes : List ℕ)
    → (let n = length bytes in
        set_at n 128 (set_bytes bytes (zeros (padded_length n)))
        ≡ (bytes ++ 128 ∷ zeros (gap n)) ++ zeros 8)
unfolding set_at
pad-start bytes =
    let n = length bytes in
    ap (λ zs. set_at n 128 (set_bytes bytes zs))
      (zeros-add n (suc (gap n + 8)) (padded_length n) (omega arith))
    ∙ ap (set_at n 128)
        (set_bytes-append bytes (zeros n) (zeros (suc (gap n + 8))) (sym (length-zeros n)))
    ∙ set_at-append n 0 128 bytes (zeros (suc (gap n + 8))) (omega arith)
    ∙ ap (λ zs. bytes ++ (128 ∷ zs)) (zeros-add (gap n) 8 (gap n + 8) refl)
    ∙ sym (append_assoc bytes (128 ∷ zeros (gap n)) (zeros 8))

-- The padding that FIPS 180-4 asks for: the end bit, zeros, and the length in bits.
abbrev pub padding : ℕ → List ℕ
padding n = 128 ∷ (zeros (gap n) ++ big_endian64 (n * 8))

-- The buffer is the message followed by its padding. Its length is a multiple of 64 with room for the
-- end bit and the length, and the least one.
pub pad-padding :
    (bytes : List ℕ)
    → (let n = length bytes in
        (pad bytes ≡ bytes ++ padding n)
        × (length (pad bytes) ≡ padded_length n)
        × (padded_length n % 64 ≡ 0)
        × n + 9 ≤ padded_length n
        × padded_length n < n + 9 + 64)
unfolding pad
pad-padding bytes =
    let n = length bytes in
    let total = padded_length n in
    let front = bytes ++ 128 ∷ zeros (gap n) in
    let hi = word (n * 8 / 2 ^ 32) in
    let lo = word (n * 8) in
    let long : length front ≡ total - 8 =
      omega (arith, length-append bytes (128 ∷ zeros (gap n)), length-zeros (gap n)) in
    let longer : length (front ++ big_endian hi) ≡ total - 4 =
      omega (arith, long, length-append front (big_endian hi)) in
    let filled : pad bytes ≡ bytes ++ padding n =
      ap (λ xs. set_uint32 (total - 4) lo (set_uint32 (total - 8) hi xs)) (pad-start bytes)
      ∙ ap (set_uint32 (total - 4) lo) (
          set_uint32-append (total - 8) hi front (zeros 4) (sym long)
          ∙ sym (append_assoc front (big_endian hi) (zeros 4)))
      ∙ set_uint32-append (total - 4) lo (front ++ big_endian hi) [] (sym longer)
      ∙ append_assoc front (big_endian hi) (big_endian lo)
      ∙ ap (λ xs. front ++ xs) (words-big_endian64 (n * 8))
      ∙ append_assoc bytes (128 ∷ zeros (gap n)) (big_endian64 (n * 8)) in
    (
      filled,
      ap length filled
          ∙ omega (
            arith,
            length-append bytes (padding n),
            length-append (zeros (gap n)) (big_endian64 (n * 8)),
            length-zeros (gap n),
          ),
      omega arith,
      omega arith,
      omega arith,
    )
