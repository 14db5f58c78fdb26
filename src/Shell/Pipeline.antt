-- ===== src/Shell/Pipeline.antt =====
-- app/shell-core/parser.js: the stages of a pipeline, and the parser.
pub mod Laws
pub mod Screening
pub mod Safety
use para11ax.JsText.{Text, codes, same_text}
use para11ax.Common.{
  ℕ, zero, suc, ◌+◌, ◌-◌, ◌*◌, ◌/◌, ◌%◌, ◌≤◌, ◌<◌, min, max, String, ◌≡◌, refl, sym, ap, ◌∙◌, subst,
  ◌≢◌, ◌↔◌, ◌⊎◌, inl, inr, Bool, true, false, not, ◌&&◌, ◌||◌, Option, none, some, List, [], ◌∷◌,
  ◌++◌, map, arith, ◌==ₛ◌, eq_iff, ltb, leb, ◌==◌, if◌then◌else◌, Bool-cases, Option-cases, ltb→lt,
  ltb→le, leb→le, leb→lt, lt→ltb, ltb-false, le→leb, tests, length, drop, length-append, sum_of,
  sum_of-append, All, All-append, get_elem?, without, sum_of-without, All-without, some_eq,
  length-without,
}
use para11ax.Shell.{
  pipe_token, Refusal, substitution, chaining, empty_stage, stage_limit, host_syntax, redirect,
  Parsed, ok, refused, ◌>>=◌, tokenize_shell_line, Screen, reject_raw_host_shell_syntax,
}

-- text.includes(…)
abbrev pub starts_with : Text → Text → Bool
starts_with [] text = true
starts_with (c ∷ cs) [] = false
starts_with (c ∷ cs) (d ∷ ds) = c == d && starts_with cs ds

abbrev pub includes : Text → Text → Bool
includes part [] = starts_with part []
includes part (c ∷ cs) = starts_with part (c ∷ cs) || includes part cs

-- `stages.push(current)`, or the refusal of an empty stage
abbrev pub close_stage : List (List Text) → List Text → Parsed (List (List Text))
close_stage stages [] = refused empty_stage
close_stage stages (t ∷ ts) = ok (stages ++ (t ∷ ts) ∷ [])

-- The loop of `splitPipeline`, and the last stage.
unfoldable pub split_from : List Text → List (List Text) → List Text → Parsed (List (List Text))
split_from [] stages current = close_stage stages current
split_from (t ∷ ts) stages current =
    if same_text t pipe_token
    then (close_stage stages current >>= λ closed. split_from ts closed [])
    else split_from ts stages (current ++ t ∷ [])

abbrev pub within_limit : ℕ → List (List Text) → Parsed (List (List Text))
within_limit limit stages = if ltb limit (length stages) then refused stage_limit else ok stages

unfoldable pub split_pipeline : ℕ → List Text → Parsed (List (List Text))
split_pipeline limit [] = ok []
split_pipeline limit (t ∷ ts) = split_from (t ∷ ts) [] [] >>= within_limit limit

abbrev pub contains_redirect_syntax : Text → Bool
contains_redirect_syntax t = includes (codes "<") t || includes (codes ">") t

abbrev pub is_comparison_operator : Text → Bool
is_comparison_operator t =
    same_text t (codes "==")
    || same_text t (codes "!=")
    || same_text t (codes "<")
    || same_text t (codes "<=")
    || same_text t (codes ">")
    || same_text t (codes ">=")

abbrev pub is_host_syntax : Text → Bool
is_host_syntax t =
    same_text t (codes "&&")
    || same_text t (codes "||")
    || same_text t (codes ";")
    || includes (codes "`") t
    || includes (codes "$(") t

abbrev pub no_screen : Screen
no_screen = record { quote = none; escaped = false }

module _ (to_lower : Text → Text) where
  -- String(stage[0] ?? '').toLowerCase()
  abbrev pub command_of : List Text → Text
  command_of [] = to_lower []
  command_of (t ∷ ts) = to_lower t

  -- The inner loop's body.
  unfoldable pub token_refusal : Text → ℕ → Text → Option Refusal
  token_refusal command index t =
      if is_host_syntax t
      then some host_syntax
      else if not (contains_redirect_syntax t)
      then none
      else if same_text command (codes "where") && index == 2 && is_comparison_operator t
      then none
      else some redirect

  abbrev pub tokens_refusal : Text → ℕ → List Text → Option Refusal
  tokens_refusal command index [] = none
  tokens_refusal command index (t ∷ ts) =
      let rest = tokens_refusal command (index + 1) ts in
      elim (token_refusal command index t) [ some r ↦ some r | none ↦ rest ]

  unfoldable pub validate_stage_syntax : List (List Text) → Option Refusal
  validate_stage_syntax [] = none
  validate_stage_syntax (stage ∷ stages) =
      let rest = validate_stage_syntax stages in
      elim (tokens_refusal (command_of stage) 0 stage) [ some r ↦ some r | none ↦ rest ]

  abbrev pub unless : Option Refusal → List (List Text) → Parsed (List (List Text))
  unless none stages = ok stages
  unless (some r) stages = refused r

  unfoldable pub parse_tokens : ℕ → List Text → Parsed (List (List Text))
  parse_tokens limit tokens =
      split_pipeline limit tokens >>= λ stages. unless (validate_stage_syntax stages) stages

  -- `parseShellLine`
  unfoldable pub parse_shell_line : (ℕ → Bool) → ℕ → Text → Parsed (List (List Text))
  parse_shell_line is_space limit text = elim (reject_raw_host_shell_syntax text no_screen) [
    | some r ↦ refused r
    | none ↦ tokenize_shell_line is_space text >>= parse_tokens limit
  ]

  -- rejectArgvHostShellSyntax
  unfoldable pub reject_argv_host_shell_syntax : List Text → Option Refusal
  reject_argv_host_shell_syntax [] = none
  reject_argv_host_shell_syntax (t ∷ ts) =
      if includes (codes "`") t || includes (codes "$(") t
      then some substitution
      else if includes (codes "&&") t || includes (codes "||") t || includes (codes ";") t
      then some chaining
      else reject_argv_host_shell_syntax ts

  -- `parseShellTokens`
  unfoldable pub parse_shell_tokens : ℕ → List Text → Parsed (List (List Text))
  parse_shell_tokens limit argv = elim (reject_argv_host_shell_syntax argv) [
    | some r ↦ refused r
    | none ↦ parse_tokens limit argv
  ]
