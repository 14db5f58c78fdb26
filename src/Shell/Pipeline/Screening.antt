-- ===== src/Shell/Pipeline/Screening.antt =====
-- What `rejectRawHostShellSyntax` of app/shell-core/parser.js lets through.
use para11ax.JsText.{Text}
use para11ax.Common.{
  ℕ, ◌≡◌, ◌≢◌, ◌⊎◌, inl, inr, false, not, ◌&&◌, none, [], ◌∷◌, arith, ◌==◌, Bool-cases,
  Option-cases, true, some,
}
use para11ax.Shell.{
  is_quote, backslash, Screen, screen_char, is_bare, raw_refusal, starts_with_code,
  reject_raw_host_shell_syntax,
}

-- The text does not begin with the character.
abbrev pub NotNext : ℕ → Text → Type 0
NotNext c [] = Unit
NotNext c (d ∷ ds) = d ≢ c

-- Neither a backtick nor `;`, and not the first half of `$(`, `&&` or `||`.
pub record IsPlain (c : ℕ) (next : Text) : Type 0 where
  pub backtick : c ≢ 96
  pub semicolon : c ≢ 59
  pub substitution : (c ≢ 36) ⊎ NotNext 40 next
  pub conjunction : (c ≢ 38) ⊎ NotNext 38 next
  pub disjunction : (c ≢ 124) ⊎ NotNext 124 next

-- A character that is escaped or in quotes, or is itself a backslash or a quote.
abbrev pub IsCovered : ℕ → Screen → Type 0
IsCovered c s = (s.escaped ≡ true) ⊎ ((q : ℕ) × (s.quote ≡ some q)) ⊎ (c ≡ 92) ⊎ (c ≡ 34) ⊎ (c ≡ 39)

-- Each character of the text is quoted, escaped, a quote or a backslash, or plain.
abbrev pub IsScreened : Text → Screen → Type 0
IsScreened [] s = Unit
IsScreened (c ∷ cs) s = (IsCovered c s ⊎ IsPlain c cs) × IsScreened cs (screen_char c s)

is_bare-IsCovered : (c : ℕ) (s : Screen) → is_bare c s ≡ false → IsCovered c s
is_bare-IsCovered c s h = elim (Bool-cases s.escaped) [
  | inl escaped ↦ inl escaped
  | inr free ↦ elim (Option-cases s.quote) [
    | inr (q, quoted) ↦ inr (inl (q, quoted))
    | inl unquoted ↦
        let special : (not (c == backslash) && true && not (is_quote c)) ≡ false =
          rw (free, unquoted) at h in
        elim (Bool-cases (c == 92)) [
          | inl slash ↦ inr (inr (inl (ground arith)))
          | inr other ↦ elim (Bool-cases (c == 34)) [
            | inl double ↦ inr (inr (inr (inl (ground arith))))
            | inr single ↦ inr (inr (inr (inr (ground arith))))
          ]
        ]
  ]
]

not_pair :
    (c first second : ℕ) (next : Text)
    → (c == first && starts_with_code second next) ≡ false
    → (c ≢ first) ⊎ NotNext second next
not_pair c first second [] h = inr tt
not_pair c first second (d ∷ ds) h = elim (Bool-cases (c == first)) [
  | inr other ↦ inl (ground arith)
  | inl same ↦ inr (ground arith)
]

raw_refusal-IsPlain : (c : ℕ) (next : Text) → raw_refusal c next ≡ none → IsPlain c next
raw_refusal-IsPlain c next h = elim (Bool-cases (c == 96)) [
  | inl bad ↦ cc (rw bad at h)
  | inr a ↦ elim (Bool-cases (c == 36 && starts_with_code 40 next)) [
    | inl bad ↦ cc (rw (a, bad) at h)
    | inr b ↦ elim (Bool-cases (c == 38 && starts_with_code 38 next)) [
      | inl bad ↦ cc (rw (a, b, bad) at h)
      | inr d ↦ elim (Bool-cases (c == 124 && starts_with_code 124 next)) [
        | inl bad ↦ cc (rw (a, b, d, bad) at h)
        | inr e ↦ elim (Bool-cases (c == 59)) [
          | inl bad ↦ cc (rw (a, b, d, e, bad) at h)
          | inr f ↦ record {
            backtick = ground arith;
            semicolon = ground arith;
            substitution = not_pair c 36 40 next b;
            conjunction = not_pair c 38 38 next d;
            disjunction = not_pair c 124 124 next e;
          }
        ]
      ]
    ]
  ]
]

pub reject_raw_host_shell_syntax-IsScreened :
    (text : Text) (s : Screen) → reject_raw_host_shell_syntax text s ≡ none → IsScreened text s
unfolding reject_raw_host_shell_syntax
reject_raw_host_shell_syntax-IsScreened [] s h = tt
reject_raw_host_shell_syntax-IsScreened (c ∷ cs) s h = elim (Bool-cases (is_bare c s)) [
  | inr covered ↦ (
    inl (is_bare-IsCovered c s covered),
    reject_raw_host_shell_syntax-IsScreened cs (screen_char c s)
        (rw (covered, reject_raw_host_shell_syntax) at h),
  )
  | inl bare ↦ elim (Option-cases (raw_refusal c cs)) [
    | inr (r, refuses) ↦ cc (rw (bare, refuses, reject_raw_host_shell_syntax) at h)
    | inl passes ↦ (
      inr (raw_refusal-IsPlain c cs passes),
      reject_raw_host_shell_syntax-IsScreened cs (screen_char c s)
          (rw (bare, passes, reject_raw_host_shell_syntax) at h),
    )
  ]
]
