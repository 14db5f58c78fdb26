-- ===== src/Shell/Examples.antt =====
-- Lines of app/shell-core/parser.js, and instances of the theorems about them.
use para11ax.JsText.{Text, codes}
use para11ax.Common.{ℕ, ◌≡◌, refl, Bool, ◌||◌, List, [], ◌∷◌, arith, ◌==◌}
use para11ax.Shell.{
  pipe_token, ok, refused, unterminated_quote, read_char, read_all, tokenize_shell_line,
  reject_raw_host_shell_syntax,
}
use para11ax.Shell.Quoting.{print_tokens, tokenize-print}
use para11ax.Shell.Pipeline.{
  no_screen, split_from, split_pipeline, token_refusal, validate_stage_syntax, parse_tokens,
  parse_shell_line,
}
use para11ax.Shell.Pipeline.Laws.{join, IsPipeline, split_pipeline-join, split_pipeline-IsPipeline}
use para11ax.Shell.Pipeline.Screening.{IsScreened}
use para11ax.Shell.Pipeline.Safety.{IsAccepted, parse_shell_line-IsAccepted}

abbrev is_space : ℕ → Bool
is_space c = c == 32 || c == 9

abbrev same : Text → Text
same t = t

abbrev line : Text
line = codes "list | where n >= 5"

abbrev first_stage : List Text
first_stage = codes "list" ∷ []

abbrev second_stage : List Text
second_stage = codes "where" ∷ codes "n" ∷ codes ">=" ∷ codes "5" ∷ []

abbrev stages : List (List Text)
stages = first_stage ∷ second_stage ∷ []

unterminated : tokenize_shell_line is_space (codes "a 'b") ≡ refused unterminated_quote
unfolding tokenize_shell_line read_all read_char
unterminated = refl

parsed : parse_shell_line same is_space 12 line ≡ ok stages
unfolding parse_shell_line reject_raw_host_shell_syntax tokenize_shell_line read_all read_char
    parse_tokens split_pipeline split_from validate_stage_syntax token_refusal
parsed = refl

parse_shell_line-IsAccepted_example :
    (tokens : List Text) × (tokenize_shell_line is_space line ≡ ok tokens)
    × IsAccepted same 12 tokens stages
    × IsScreened line no_screen
parse_shell_line-IsAccepted_example =
    parse_shell_line-IsAccepted same is_space 12 line stages parsed

-- The middle token is written in quotes and still the token of a pipe.
tokenize-print_example :
    tokenize_shell_line is_space (print_tokens (codes "a b" ∷ pipe_token ∷ codes "\\\"" ∷ []))
    ≡ ok (codes "a b" ∷ pipe_token ∷ codes "\\\"" ∷ [])
tokenize-print_example =
    tokenize-print is_space (codes "a b" ∷ pipe_token ∷ codes "\\\"" ∷ []) refl (tt, (tt, (tt, tt)))

split_pipeline-join_example : split_pipeline 12 (join stages) ≡ ok stages
split_pipeline-join_example =
    split_pipeline-join 12 first_stage (second_stage ∷ [])
      ((refl, tt), ((refl, (refl, (refl, (refl, tt)))), tt)) (omega arith)

split : split_pipeline 12 (join stages) ≡ ok stages
unfolding split_pipeline split_from
split = refl

split_pipeline-IsPipeline_example : IsPipeline 12 (join stages) stages
split_pipeline-IsPipeline_example = split_pipeline-IsPipeline 12 (join stages) stages split
