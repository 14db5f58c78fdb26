-- ===== src/Sha256.antt =====
-- src/core/sha256.js: SHA-256 over bytes; TextEncoder, which makes the bytes, is the platform's. A 32-bit
-- word is a number below 2 ^ 32: the signed intermediate results of the source's `|` and `^` stand for the
-- same words, and each sum ends in `>>> 0`.
pub mod Padding
pub mod Digest
mod Examples
use Prim.Native.Nat.{◌^◌, bit_and, bit_or, bit_xor}
use para11ax.Common.{
  ℕ, zero, suc, ◌+◌, ◌-◌, ◌*◌, ◌/◌, ◌%◌, ◌≤◌, ◌<◌, min, max, String, ◌≡◌, refl, sym, ap, ◌∙◌, subst,
  ◌≢◌, ◌↔◌, ◌⊎◌, inl, inr, Bool, true, false, not, ◌&&◌, ◌||◌, Option, none, some, List, [], ◌∷◌,
  ◌++◌, map, arith, ◌==ₛ◌, eq_iff, ltb, leb, ◌==◌, if◌then◌else◌, Bool-cases, Option-cases, ltb→lt,
  ltb→le, leb→le, leb→lt, lt→ltb, ltb-false, le→leb, tests, length, drop, length-append, sum_of,
  sum_of-append, All, All-append, get_elem?, without, sum_of-without, All-without, some_eq,
  length-without, append_nil, append_snoc,
}
use para11ax.JsText.{Text}

abbrev pub word : ℕ → ℕ
word n = n % 2 ^ 32

abbrev pub round_constants : List ℕ
round_constants =
    0x428a2f98 ∷ 0x71374491 ∷ 0xb5c0fbcf ∷ 0xe9b5dba5 ∷ 0x3956c25b ∷ 0x59f111f1 ∷ 0x923f82a4
    ∷ 0xab1c5ed5 ∷ 0xd807aa98 ∷ 0x12835b01 ∷ 0x243185be ∷ 0x550c7dc3 ∷ 0x72be5d74 ∷ 0x80deb1fe
    ∷ 0x9bdc06a7 ∷ 0xc19bf174 ∷ 0xe49b69c1 ∷ 0xefbe4786 ∷ 0x0fc19dc6 ∷ 0x240ca1cc ∷ 0x2de92c6f
    ∷ 0x4a7484aa ∷ 0x5cb0a9dc ∷ 0x76f988da ∷ 0x983e5152 ∷ 0xa831c66d ∷ 0xb00327c8 ∷ 0xbf597fc7
    ∷ 0xc6e00bf3 ∷ 0xd5a79147 ∷ 0x06ca6351 ∷ 0x14292967 ∷ 0x27b70a85 ∷ 0x2e1b2138 ∷ 0x4d2c6dfc
    ∷ 0x53380d13 ∷ 0x650a7354 ∷ 0x766a0abb ∷ 0x81c2c92e ∷ 0x92722c85 ∷ 0xa2bfe8a1 ∷ 0xa81a664b
    ∷ 0xc24b8b70 ∷ 0xc76c51a3 ∷ 0xd192e819 ∷ 0xd6990624 ∷ 0xf40e3585 ∷ 0x106aa070 ∷ 0x19a4c116
    ∷ 0x1e376c08 ∷ 0x2748774c ∷ 0x34b0bcb5 ∷ 0x391c0cb3 ∷ 0x4ed8aa4a ∷ 0x5b9cca4f ∷ 0x682e6ff3
    ∷ 0x748f82ee ∷ 0x78a5636f ∷ 0x84c87814 ∷ 0x8cc70208 ∷ 0x90befffa ∷ 0xa4506ceb ∷ 0xbef9a3f7
    ∷ 0xc67178f2 ∷ []

abbrev pub rotate_right : ℕ → ℕ → ℕ
rotate_right value shift = bit_or (value / 2 ^ shift) (word (value * 2 ^ (32 - shift)))

-- new Uint8Array(n)
abbrev pub zeros : ℕ → List ℕ
zeros zero = []
zeros (suc n) = 0 ∷ zeros n

-- array[i] = v, where the array has the place
unfoldable pub set_at : ℕ → ℕ → List ℕ → List ℕ
set_at i v [] = []
set_at zero v (x ∷ xs) = v ∷ xs
set_at (suc i) v (x ∷ xs) = x ∷ set_at i v xs

-- array.set(bytes)
unfoldable pub set_bytes : List ℕ → List ℕ → List ℕ
set_bytes [] xs = xs
set_bytes (b ∷ bs) [] = []
set_bytes (b ∷ bs) (x ∷ xs) = b ∷ set_bytes bs xs

-- view.setUint32(i, v, false)
abbrev pub set_uint32 : ℕ → ℕ → List ℕ → List ℕ
set_uint32 i v xs = set_at (i + 3) (v % 256) (
    set_at (i + 2) (v / 256 % 256)
      (set_at (i + 1) (v / 65536 % 256) (set_at i (v / 16777216 % 256) xs)))

-- Math.ceil((n + 9) / 64) * 64
abbrev pub padded_length : ℕ → ℕ
padded_length n = (n + 9 + 63) / 64 * 64

unfoldable pub pad : List ℕ → List ℕ
pad bytes =
    let n = length bytes in
    let total = padded_length n in
    set_uint32 (total - 4) (word (n * 8)) (
      set_uint32 (total - 8) (word (n * 8 / 2 ^ 32)) (set_at n 128 (set_bytes bytes (zeros total))))

-- array[i]
abbrev pub at : List ℕ → ℕ → ℕ
at [] i = 0
at (x ∷ xs) zero = x
at (x ∷ xs) (suc i) = at xs i

-- The sixteen words of a block.
abbrev pub block_words : ℕ → List ℕ → List ℕ
block_words zero bytes = []
block_words (suc n) (a ∷ b ∷ c ∷ d ∷ bytes) =
    (a * 16777216 + b * 65536 + c * 256 + d) ∷ block_words n bytes
block_words (suc n) _ = []

abbrev pub next_word : List ℕ → ℕ → ℕ
next_word w index =
    let x = at w (index - 15) in
    let y = at w (index - 2) in
    let s0 = bit_xor (bit_xor (rotate_right x 7) (rotate_right x 18)) (x / 2 ^ 3) in
    let s1 = bit_xor (bit_xor (rotate_right y 17) (rotate_right y 19)) (y / 2 ^ 10) in
    word (at w (index - 16) + s0 + at w (index - 7) + s1)

-- The message schedule, `rounds` words longer.
unfoldable pub extend_schedule : (rounds index : ℕ) → List ℕ → List ℕ
extend_schedule zero index w = w
extend_schedule (suc rounds) index w =
    extend_schedule rounds (index + 1) (w ++ next_word w index ∷ [])

-- The eight working variables, or `h`.
pub record Words : Type 0 where
  pub a : ℕ
  pub b : ℕ
  pub c : ℕ
  pub d : ℕ
  pub e : ℕ
  pub f : ℕ
  pub g : ℕ
  pub h : ℕ

abbrev pub initial : Words
initial = record {
  a = 0x6a09e667;
  b = 0xbb67ae85;
  c = 0x3c6ef372;
  d = 0xa54ff53a;
  e = 0x510e527f;
  f = 0x9b05688c;
  g = 0x1f83d9ab;
  h = 0x5be0cd19;
}

abbrev pub complement : ℕ → ℕ
complement x = 2 ^ 32 - 1 - x

-- The body of the round loop.
unfoldable pub round : (constant scheduled : ℕ) → Words → Words
round constant scheduled v =
    let s1 = bit_xor (bit_xor (rotate_right v.e 6) (rotate_right v.e 11)) (rotate_right v.e 25) in
    let choose = bit_xor (bit_and v.e v.f) (bit_and (complement v.e) v.g) in
    let temp1 = word (v.h + s1 + choose + constant + scheduled) in
    let s0 = bit_xor (bit_xor (rotate_right v.a 2) (rotate_right v.a 13)) (rotate_right v.a 22) in
    let majority = bit_xor (bit_xor (bit_and v.a v.b) (bit_and v.a v.c)) (bit_and v.b v.c) in
    let temp2 = word (s0 + majority) in
    record {
      a = word (temp1 + temp2);
      b = v.a;
      c = v.b;
      d = v.c;
      e = word (v.d + temp1);
      f = v.e;
      g = v.f;
      h = v.g;
    }

unfoldable pub rounds : List ℕ → List ℕ → Words → Words
rounds (k ∷ ks) (w ∷ ws) v = rounds ks ws (round k w v)
rounds _ _ v = v

abbrev pub add_words : Words → Words → Words
add_words h v = record {
  a = word (h.a + v.a);
  b = word (h.b + v.b);
  c = word (h.c + v.c);
  d = word (h.d + v.d);
  e = word (h.e + v.e);
  f = word (h.f + v.f);
  g = word (h.g + v.g);
  h = word (h.h + v.h);
}

-- The body of the loop over the blocks.
unfoldable pub digest_block : List ℕ → Words → Words
digest_block bytes h =
    add_words h (rounds round_constants (extend_schedule 48 16 (block_words 16 bytes)) h)

unfoldable pub digest_blocks : ℕ → List ℕ → Words → Words
digest_blocks zero bytes h = h
digest_blocks (suc n) bytes h = digest_blocks n (drop 64 bytes) (digest_block bytes h)

abbrev pub hex_digit : ℕ → ℕ
hex_digit n = if ltb n 10 then 48 + n else 87 + n

-- word.toString(16), with a bound on the digits
unfoldable pub to_hex : (fuel : ℕ) → ℕ → Text → Text
to_hex zero n digits = digits
to_hex (suc fuel) n digits =
    let more = to_hex fuel (n / 16) (hex_digit (n % 16) ∷ digits) in
    if ltb n 16 then hex_digit n ∷ digits else more

abbrev pub repeat : ℕ → ℕ → Text
repeat zero c = []
repeat (suc n) c = c ∷ repeat n c

-- text.padStart(n, '0')
abbrev pub pad_start : ℕ → Text → Text
pad_start n text = repeat (n - length text) 48 ++ text

abbrev pub hex_word : ℕ → Text
hex_word n = pad_start 8 (to_hex 8 n [])

abbrev pub join_words : Words → Text
join_words v =
    hex_word v.a
    ++ (hex_word v.b
        ++ (hex_word v.c
            ++ (hex_word v.d
                ++ (hex_word v.e ++ (hex_word v.f ++ (hex_word v.g ++ hex_word v.h))))))

-- `sha256Hex`, from the bytes on
unfoldable pub sha256_hex : List ℕ → Text
sha256_hex bytes =
    join_words (digest_blocks (padded_length (length bytes) / 64) (pad bytes) initial)
