-- ===== src/Shell.antt =====
-- app/shell-core/parser.js: the text of the shell's command line. A text is the list of its code points;
-- all characters that the parser looks for are ASCII, so that its walk by code units sees the same. What
-- `/\s/` matches and `toLowerCase` belong to the platform.
pub mod Pipeline
pub mod Quoting
mod Examples
use para11ax.JsText.{Text, codes, same_text}
use para11ax.Common.{
  ℕ, zero, suc, ◌+◌, ◌-◌, ◌*◌, ◌/◌, ◌%◌, ◌≤◌, ◌<◌, min, max, String, ◌≡◌, refl, sym, ap, ◌∙◌, subst,
  ◌≢◌, ◌↔◌, ◌⊎◌, inl, inr, Bool, true, false, not, ◌&&◌, ◌||◌, Option, none, some, List, [], ◌∷◌,
  ◌++◌, map, arith, ◌==ₛ◌, eq_iff, ltb, leb, ◌==◌, if◌then◌else◌, Bool-cases, Option-cases, ltb→lt,
  ltb→le, leb→le, leb→lt, lt→ltb, ltb-false, le→leb, tests, length, drop, length-append, sum_of,
  sum_of-append, All, All-append, get_elem?, without, sum_of-without, All-without, some_eq,
  length-without,
}

abbrev pub backslash : ℕ
backslash = 92

abbrev pub double_quote : ℕ
double_quote = 34

abbrev pub single_quote : ℕ
single_quote = 39

abbrev pub pipe : ℕ
pipe = 124

-- The token `'|'`.
abbrev pub pipe_token : Text
pipe_token = pipe ∷ []

pub data Refusal : Type 0 where
  unterminated_quote substitution chaining empty_stage stage_limit : Refusal
  host_syntax redirect : Refusal

pub data Parsed {ℓ} (A : Type ℓ) : Type ℓ where
  ok : A → Parsed A
  refused : Refusal → Parsed A

infixl 1 ◌>>=◌
abbrev pub ◌>>=◌ {ℓ κ} : {A : Type ℓ} {B : Type κ} → Parsed A → (A → Parsed B) → Parsed B
ok a >>= f = f a
refused r >>= f = refused r

abbrev pub is_quote : ℕ → Bool
is_quote c = c == double_quote || c == single_quote

-- The local variables of `tokenizeShellLine`.
pub record Lexer : Type 0 where
  pub tokens : List Text
  pub value : Text
  pub quote : Option ℕ
  pub escaped : Bool

abbrev pub fresh : Lexer
fresh = record { tokens = []; value = []; quote = none; escaped = false }

abbrev pub flush : Text → Lexer → Lexer
flush [] s = s
flush (c ∷ cs) s = record s { tokens = s.tokens ++ (c ∷ cs) ∷ []; value = [] }

-- `push`
abbrev pub push : Lexer → Lexer
push s = flush s.value s

-- value += char
abbrev pub extend : ℕ → Lexer → Lexer
extend c s = record s { value = s.value ++ c ∷ [] }

abbrev pub push_pipe : Lexer → Lexer
push_pipe s = record s { tokens = s.tokens ++ pipe_token ∷ [] }

module _ (is_space : ℕ → Bool) where
  abbrev pub read_unquoted : ℕ → Lexer → Lexer
  read_unquoted c s =
      if is_quote c
      then record s { quote = some c }
      else if c == pipe
      then push_pipe (push s)
      else if is_space c
      then push s
      else extend c s

  abbrev pub read_unescaped : ℕ → Option ℕ → Lexer → Lexer
  read_unescaped c none s = read_unquoted c s
  read_unescaped c (some q) s = if c == q then record s { quote = none } else extend c s

  -- The loop's body.
  unfoldable pub read_char : ℕ → Lexer → Lexer
  read_char c s =
      if s.escaped
      then extend c (record s { escaped = false })
      else if c == backslash
      then record s { escaped = true }
      else read_unescaped c s.quote s

  unfoldable pub read_all : Text → Lexer → Lexer
  read_all [] s = s
  read_all (c ∷ cs) s = read_all cs (read_char c s)

  abbrev pub end_of_line : Option ℕ → Lexer → Parsed (List Text)
  end_of_line (some q) s = refused unterminated_quote
  end_of_line none s = ok (push (if s.escaped then extend backslash s else s)).tokens

  unfoldable pub tokenize_shell_line : Text → Parsed (List Text)
  tokenize_shell_line text = let s = read_all text fresh in end_of_line s.quote s

-- The local variables of `rejectRawHostShellSyntax`.
pub record Screen : Type 0 where
  pub quote : Option ℕ
  pub escaped : Bool

abbrev pub starts_with_code : ℕ → Text → Bool
starts_with_code c [] = false
starts_with_code c (d ∷ ds) = d == c

abbrev pub raw_refusal : ℕ → Text → Option Refusal
raw_refusal c next =
    if c == 96
    then some substitution
    else if c == 36 && starts_with_code 40 next
    then some substitution
    else if c == 38 && starts_with_code 38 next
    then some chaining
    else if c == 124 && starts_with_code 124 next
    then some chaining
    else if c == 59
    then some chaining
    else none

abbrev pub quote_state : ℕ → Option ℕ → Screen
quote_state c none = record { quote = (if is_quote c then some c else none); escaped = false }
quote_state c (some q) = record { quote = (if c == q then none else some q); escaped = false }

abbrev pub screen_char : ℕ → Screen → Screen
screen_char c s =
    if s.escaped
    then record s { escaped = false }
    else if c == backslash
    then record s { escaped = true }
    else quote_state c s.quote

abbrev is_none : Option ℕ → Bool
is_none none = true
is_none (some q) = false

-- whether the loop's body comes to its tests on a character
abbrev pub is_bare : ℕ → Screen → Bool
is_bare c s = not s.escaped && not (c == backslash) && is_none s.quote && not (is_quote c)

unfoldable pub reject_raw_host_shell_syntax : Text → Screen → Option Refusal
reject_raw_host_shell_syntax [] s = none
reject_raw_host_shell_syntax (c ∷ cs) s =
    let rest = reject_raw_host_shell_syntax cs (screen_char c s) in
    if is_bare c s then (elim (raw_refusal c cs) [ some r ↦ some r | none ↦ rest ]) else rest
