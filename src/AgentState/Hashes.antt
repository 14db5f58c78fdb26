-- ===== src/AgentState/Hashes.antt =====
-- The hashes of src/core/agent-state.js are texts that its checks let through.
use para11ax.Common.{
  ℕ, String, ◌≡◌, refl, true, false, ◌||◌, List, [], ◌∷◌, arith, ltb, ◌==◌, length, All,
}
use para11ax.JsText.{Text, is_white_space, carriage_return}
use para11ax.JsText.Laws.{HasNoReturn, IsInk, trim-unchanged, replace-unchanged}
use para11ax.Sha256.{sha256_hex}
use para11ax.Sha256.Digest.{is_hex, sha256_hex-AllHex}
use para11ax.AgentState.{
  ok, is_unsafe_control, has_unsafe_control, is_empty, text, all_hex, is_hash,
}

hex-IsInk : (c : ℕ) → is_hex c ≡ true → is_white_space c ≡ false
hex-IsInk c h = ground arith

hex_no_return : (c : ℕ) → is_hex c ≡ true → (c == carriage_return) ≡ false
hex_no_return c h = ground arith

hex_safe : (c : ℕ) → is_hex c ≡ true → is_unsafe_control c ≡ false
hex_safe c h = ground arith

abbrev AllHex : Text → Type 0
AllHex t = All (λ c. is_hex c ≡ true) t

All-IsInk : (t : Text) → AllHex t → All IsInk t
All-IsInk [] h = tt
All-IsInk (c ∷ cs) h = (hex-IsInk c h.0, All-IsInk cs h.1)

AllHex-HasNoReturn : (t : Text) → AllHex t → HasNoReturn t
AllHex-HasNoReturn [] h = tt
AllHex-HasNoReturn (c ∷ cs) h = (hex_no_return c h.0, AllHex-HasNoReturn cs h.1)

AllHex-safe : (t : Text) → AllHex t → has_unsafe_control t ≡ false
AllHex-safe [] h = refl
AllHex-safe (c ∷ cs) h = rw (hex_safe c h.0) (AllHex-safe cs h.1)

AllHex-all_hex : (t : Text) → AllHex t → all_hex t ≡ true
AllHex-all_hex [] h = refl
AllHex-all_hex (c ∷ cs) h = rw h.0 (AllHex-all_hex cs h.1)

full_text : (t : Text) → length t ≡ 64 → (is_empty t || ltb 64 (length t)) ≡ false
full_text [] h = absurd (omega (arith, h))
full_text (c ∷ cs) h = rw h refl

-- A text of 64 hexadecimal digits is left as it is.
text-AllHex : (field : String) (t : Text) → AllHex t → length t ≡ 64 → text field 64 t ≡ ok t
unfolding text
text-AllHex field t h long =
    rw
      (
        replace-unchanged t (AllHex-HasNoReturn t h),
        trim-unchanged t (All-IsInk t h),
        full_text t long,
        AllHex-safe t h,
      )
      refl

pub text-sha256_hex :
    (field : String) (bytes : List ℕ) → text field 64 (sha256_hex bytes) ≡ ok (sha256_hex bytes)
text-sha256_hex field bytes =
    let (digits, long) = sha256_hex-AllHex bytes in text-AllHex field (sha256_hex bytes) digits long

pub is_hash-sha256_hex : (bytes : List ℕ) → is_hash (sha256_hex bytes) ≡ true
unfolding is_hash
is_hash-sha256_hex bytes =
    let (digits, long) = sha256_hex-AllHex bytes in
    rw (long, AllHex-all_hex (sha256_hex bytes) digits) refl
