-- ===== src/Shell/Pipeline/Safety.antt =====
-- What `parseShellLine` and `parseShellTokens` of app/shell-core/parser.js let through.
use para11ax.JsText.{Text, codes, same_text}
use para11ax.JsText.Laws.{same_text-eq, same_text_refl}
use para11ax.Common.{
  ℕ, ◌+◌, ◌≡◌, refl, sym, subst, ◌≢◌, ◌⊎◌, inl, inr, Bool, true, false, ◌&&◌, ◌||◌, none, List, [],
  ◌∷◌, arith, ◌==◌, Bool-cases, Option-cases, All,
}
use para11ax.Shell.{ok, tokenize_shell_line, reject_raw_host_shell_syntax}
use para11ax.Shell.Pipeline.{
  includes, contains_redirect_syntax, is_comparison_operator, is_host_syntax, command_of,
  token_refusal, tokens_refusal, validate_stage_syntax, parse_tokens, no_screen, parse_shell_line,
  split_pipeline,
}
use para11ax.Shell.Pipeline.Screening.{IsScreened, reject_raw_host_shell_syntax-IsScreened}
use para11ax.Shell.Pipeline.Laws.{IsPipeline, split_pipeline-IsPipeline, bind-cases, ok_eq}

-- A token with neither command substitution nor an operator of a host shell, that has `<` or `>` only as a
-- comparison operator in the third place of a `where` stage.
pub record IsSafeToken (command : Text) (index : ℕ) (t : Text) : Type 0 where
  pub backtick : includes (codes "`") t ≡ false
  pub dollar : includes (codes "$(") t ≡ false
  pub chaining : (t ≢ codes "&&") × (t ≢ codes "||") × (t ≢ codes ";")
  pub redirect :
      (contains_redirect_syntax t ≡ false)
      ⊎ ((command ≡ codes "where") × (index ≡ 2) × (is_comparison_operator t ≡ true))

abbrev pub AreSafe : Text → ℕ → List Text → Type 0
AreSafe command index [] = Unit
AreSafe command index (t ∷ ts) = IsSafeToken command index t × AreSafe command (index + 1) ts

differs : (t u : Text) → same_text t u ≡ false → t ≢ u
differs t u h e = cc (same_text_refl t, subst (λ v. same_text t v ≡ false) (sym e) h)

or-false : (a b : Bool) → (a || b) ≡ false → (a ≡ false) × (b ≡ false)
or-false true b h = cc
or-false false b h = (refl, h)

and-true : (a b : Bool) → (a && b) ≡ true → (a ≡ true) × (b ≡ true)
and-true true b h = (refl, h)
and-true false b h = cc

-- The five tests of `validateStageSyntax`, one after the other.
module _ (t : Text) (h : is_host_syntax t ≡ false) where
  parts :
      (same_text t (codes "&&") ≡ false)
      × (same_text t (codes "||") ≡ false)
      × (same_text t (codes ";") ≡ false)
      × (includes (codes "`") t ≡ false)
      × (includes (codes "$(") t ≡ false)
  parts =
      let (front₃, e) = or-false _ _ h in
      let (front₂, d) = or-false _ _ front₃ in
      let (front₁, c) = or-false _ _ front₂ in let (a, b) = or-false _ _ front₁ in (a, b, c, d, e)

redirect-cases :
    (to_lower : Text → Text) (command : Text) (index : ℕ) (t : Text)
    → is_host_syntax t ≡ false
    → token_refusal to_lower command index t ≡ none
    → (contains_redirect_syntax t ≡ false)
      ⊎ ((command ≡ codes "where") × (index ≡ 2) × (is_comparison_operator t ≡ true))
unfolding token_refusal
redirect-cases to_lower command index t clean h = elim (Bool-cases (contains_redirect_syntax t)) [
  | inr no_redirect ↦ inl no_redirect
  | inl has_redirect ↦
      let place = same_text command (codes "where") && index == 2 && is_comparison_operator t in
      elim (Bool-cases place) [
        | inr elsewhere ↦ cc (rw (clean, has_redirect, elsewhere) at h)
        | inl in_place ↦
            let (front, comparison) =
              and-true (same_text command (codes "where") && index == 2) (is_comparison_operator t)
                in_place in
            let (is_where, third) =
              and-true (same_text command (codes "where")) (index == 2) front in
            inr (same_text-eq command (codes "where") is_where, ground arith, comparison)
      ]
]

token_refusal-IsSafeToken :
    (to_lower : Text → Text) (command : Text) (index : ℕ) (t : Text)
    → token_refusal to_lower command index t ≡ none
    → IsSafeToken command index t
unfolding token_refusal
token_refusal-IsSafeToken to_lower command index t h = elim (Bool-cases (is_host_syntax t)) [
  | inl host ↦ cc (rw host at h)
  | inr clean ↦
      let (no_and, no_or, no_semicolon, no_backtick, no_dollar) = parts t clean in
      record {
        backtick = no_backtick;
        dollar = no_dollar;
        chaining = (differs t _ no_and, differs t _ no_or, differs t _ no_semicolon);
        redirect = redirect-cases to_lower command index t clean h;
      }
]

module _ (to_lower : Text → Text) where
  tokens_refusal-AreSafe :
      (command : Text) (ts : List Text) (index : ℕ)
      → tokens_refusal to_lower command index ts ≡ none
      → AreSafe command index ts
  tokens_refusal-AreSafe command [] index h = tt
  tokens_refusal-AreSafe command (t ∷ ts) index h =
      elim (Option-cases (token_refusal to_lower command index t)) [
        | inr (r, refuses) ↦ cc (rw (refuses, tokens_refusal) at h)
        | inl passes ↦ (
          token_refusal-IsSafeToken to_lower command index t passes,
          tokens_refusal-AreSafe command ts (index + 1) (rw (passes, tokens_refusal) at h),
        )
      ]

  validate-AreSafe :
      (stages : List (List Text))
      → validate_stage_syntax to_lower stages ≡ none
      → All (λ stage. AreSafe (command_of to_lower stage) 0 stage) stages
  unfolding validate_stage_syntax
  validate-AreSafe [] h = tt
  validate-AreSafe (stage ∷ stages) h =
      elim (Option-cases (tokens_refusal to_lower (command_of to_lower stage) 0 stage)) [
        | inr (r, refuses) ↦ cc (rw (refuses, validate_stage_syntax) at h)
        | inl passes ↦ (
          tokens_refusal-AreSafe (command_of to_lower stage) stage 0 passes,
          validate-AreSafe stages (rw (passes, validate_stage_syntax) at h),
        )
      ]

  -- The stages that the parser makes of tokens.
  pub record IsAccepted (limit : ℕ) (tokens : List Text) (stages : List (List Text)) : Type 0 where
    pub pipeline : IsPipeline limit tokens stages
    pub safe : All (λ stage. AreSafe (command_of to_lower stage) 0 stage) stages

  parse_tokens-IsAccepted :
      (limit : ℕ) (tokens : List Text) (stages : List (List Text))
      → parse_tokens to_lower limit tokens ≡ ok stages
      → IsAccepted limit tokens stages
  unfolding parse_tokens
  parse_tokens-IsAccepted limit tokens stages h = elim (bind-cases (split_pipeline limit tokens)) [
    | inr (r, refuses) ↦ cc (rw refuses at h)
    | inl (found, splits) ↦ elim (Option-cases (validate_stage_syntax to_lower found)) [
      | inr (r, refuses) ↦ cc (rw (splits, refuses) at h)
      | inl passes ↦
          subst (IsAccepted limit tokens) (ok_eq _ _ (rw (splits, passes) at h)) (record {
            pipeline = split_pipeline-IsPipeline limit tokens found splits;
            safe = validate-AreSafe found passes;
          })
    ]
  ]

  -- If the parser accepts a line, its stages are those of the line's tokens: joined by `|` they give the
  -- tokens, each has a token, and there are no more than the limit. No token has command substitution or
  -- is an operator of a host shell, and `<` or `>` stand only in a comparison operator in the third place
  -- of a `where` stage. In the line itself no character outside quotes and without a backslash before it
  -- is a backtick or `;`, or begins `$(`, `&&` or `||`.
  pub parse_shell_line-IsAccepted :
      (is_space : ℕ → Bool) (limit : ℕ) (text : Text) (stages : List (List Text))
      → parse_shell_line to_lower is_space limit text ≡ ok stages
      → (tokens : List Text) × (tokenize_shell_line is_space text ≡ ok tokens)
        × IsAccepted limit tokens stages
        × IsScreened text no_screen
  unfolding parse_shell_line
  parse_shell_line-IsAccepted is_space limit text stages h =
      elim (Option-cases (reject_raw_host_shell_syntax text no_screen)) [
        | inr (r, refuses) ↦ cc (rw (refuses, parse_shell_line) at h)
        | inl passes ↦ elim (bind-cases (tokenize_shell_line is_space text)) [
          | inr (r, refuses) ↦ cc (rw (passes, refuses, parse_shell_line) at h)
          | inl (tokens, reads) ↦ (
            tokens,
            reads,
            parse_tokens-IsAccepted limit tokens stages (rw (passes, reads, parse_shell_line) at h),
            reject_raw_host_shell_syntax-IsScreened text no_screen passes,
          )
        ]
      ]
