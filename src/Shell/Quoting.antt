-- ===== src/Shell/Quoting.antt =====
-- The tokens of app/shell-core/parser.js, written with quotes and read again.
use para11ax.JsText.{Text}
use para11ax.Common.{
  ℕ, ◌≡◌, refl, sym, ap, ◌∙◌, inl, inr, Bool, true, false, ◌||◌, none, some, List, [], ◌∷◌, ◌++◌,
  arith, ◌==◌, if◌then◌else◌, Bool-cases, All, append_nil, append_snoc,
}
use para11ax.Shell.{backslash, double_quote, ok, Lexer, read_char, read_all, tokenize_shell_line}

-- A text between double quotes, with a backslash before each quote and backslash in it.
abbrev pub escape : Text → Text
escape [] = []
escape (c ∷ cs) =
    if c == backslash || c == double_quote then backslash ∷ c ∷ escape cs else c ∷ escape cs

abbrev pub print_token : Text → Text
print_token t = double_quote ∷ escape t ++ double_quote ∷ []

abbrev pub space : ℕ
space = 32

-- The tokens, with a space after each.
abbrev pub print_tokens : List Text → Text
print_tokens [] = []
print_tokens (t ∷ ts) = print_token t ++ space ∷ print_tokens ts

abbrev pub IsNonempty : Text → Type 0
IsNonempty [] = ⊥
IsNonempty (c ∷ cs) = Unit

-- Between double quotes, with what was read of the token.
abbrev inside : List Text → Text → Lexer
inside tokens value = record {
  tokens = tokens;
  value = value;
  quote = some double_quote;
  escaped = false;
}

abbrev outside : List Text → Text → Lexer
outside tokens value = record { tokens = tokens; value = value; quote = none; escaped = false }

module _ (is_space : ℕ → Bool) where
  read_all-append :
      (cs ds : Text) (s : Lexer)
      → read_all is_space (cs ++ ds) s ≡ read_all is_space ds (read_all is_space cs s)
  unfolding read_all
  read_all-append [] ds s = refl
  read_all-append (c ∷ cs) ds s = read_all-append cs ds (read_char is_space c s)

  read_char-plain :
      (c : ℕ) (tokens : List Text) (value : Text)
      → (c == backslash || c == double_quote) ≡ false
      → read_char is_space c (inside tokens value) ≡ inside tokens (value ++ c ∷ [])
  unfolding read_char
  read_char-plain c tokens value plain = ground arith

  read_char-escaped :
      (c : ℕ) (tokens : List Text) (value : Text)
      → read_char is_space c (read_char is_space backslash (inside tokens value))
        ≡ inside tokens (value ++ c ∷ [])
  unfolding read_char
  read_char-escaped c tokens value = refl

  read_all-escape :
      (t : Text) (tokens : List Text) (value : Text)
      → read_all is_space (escape t) (inside tokens value) ≡ inside tokens (value ++ t)
  unfolding read_all
  read_all-escape [] tokens value = ap (inside tokens) (sym (append_nil value))
  read_all-escape (c ∷ cs) tokens value =
      let rest =
        read_all-escape cs tokens (value ++ c ∷ []) ∙ ap (inside tokens) (append_snoc value c cs) in
      elim (Bool-cases (c == backslash || c == double_quote)) [
        | inl special ↦
            rw special
              (ap (read_all is_space (escape cs)) (read_char-escaped c tokens value) ∙ rest)
        | inr plain ↦
            rw plain
              (ap (read_all is_space (escape cs)) (read_char-plain c tokens value plain) ∙ rest)
      ]

  read_char-opening :
      (tokens : List Text) → read_char is_space double_quote (outside tokens []) ≡ inside tokens []
  unfolding read_char
  read_char-opening tokens = refl

  read_char-closing :
      (tokens : List Text) (value : Text)
      → read_char is_space double_quote (inside tokens value) ≡ outside tokens value
  unfolding read_char
  read_char-closing tokens value = refl

  read_char-space :
      (tokens : List Text) (value : Text)
      → is_space space ≡ true
      → IsNonempty value
      → read_char is_space space (outside tokens value) ≡ outside (tokens ++ value ∷ []) []
  unfolding read_char
  read_char-space tokens [] spaces some_char = elim some_char [ ]
  read_char-space tokens (c ∷ cs) spaces some_char = rw spaces refl

  read_all-print_token :
      (t : Text) (tokens : List Text)
      → read_all is_space (print_token t) (outside tokens []) ≡ outside tokens t
  unfolding read_all
  read_all-print_token t tokens =
      let start = read_char is_space double_quote (outside tokens []) in
      read_all-append (escape t) (double_quote ∷ []) start
      ∙ ap (λ s. read_all is_space (double_quote ∷ []) (read_all is_space (escape t) s))
          (read_char-opening tokens)
      ∙ ap (read_all is_space (double_quote ∷ [])) (read_all-escape t tokens [])
      ∙ read_char-closing tokens t

  read_all-print_tokens :
      (ts tokens : List Text)
      → is_space space ≡ true
      → All IsNonempty ts
      → read_all is_space (print_tokens ts) (outside tokens []) ≡ outside (tokens ++ ts) []
  unfolding read_all
  read_all-print_tokens [] tokens spaces full = ap (λ us. outside us []) (sym (append_nil tokens))
  read_all-print_tokens (t ∷ ts) tokens spaces full =
      read_all-append (print_token t) (space ∷ print_tokens ts) (outside tokens [])
      ∙ ap (read_all is_space (space ∷ print_tokens ts)) (read_all-print_token t tokens)
      ∙ ap (read_all is_space (print_tokens ts)) (read_char-space tokens t spaces full.0)
      ∙ read_all-print_tokens ts (tokens ++ t ∷ []) spaces full.1
      ∙ ap (λ us. outside us []) (append_snoc tokens t ts)

  -- Tokens that are not empty and are written between double quotes, with a backslash before each
  -- backslash and double quote in them, are read back as they are, provided that the platform takes a
  -- space for white space. So any text but the empty one can be given as a token.
  pub tokenize-print :
      (ts : List Text)
      → is_space space ≡ true
      → All IsNonempty ts
      → tokenize_shell_line is_space (print_tokens ts) ≡ ok ts
  unfolding tokenize_shell_line
  tokenize-print ts spaces full = rw (read_all-print_tokens ts [] spaces full) refl
