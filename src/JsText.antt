-- ===== src/JsText.antt =====
-- JavaScript strings as the lists of their code units, with the operations of the language that the
-- modules share: ===, trim, and the replacement of line ends.
pub mod Laws
use Prim.Native.Char.{code}
use Prim.Native.String as Str
use para11ax.Common.{
  ℕ, zero, suc, ◌+◌, ◌-◌, ◌*◌, ◌/◌, ◌%◌, ◌≤◌, ◌<◌, min, max, String, ◌≡◌, refl, sym, ap, ◌∙◌, subst,
  ◌≢◌, ◌↔◌, ◌⊎◌, inl, inr, Bool, true, false, not, ◌&&◌, ◌||◌, Option, none, some, List, [], ◌∷◌,
  ◌++◌, map, arith, ◌==ₛ◌, eq_iff, ltb, leb, ◌==◌, if◌then◌else◌, Bool-cases, Option-cases, ltb→lt,
  ltb→le, leb→le, leb→lt, lt→ltb, ltb-false, le→leb, tests, length, drop, length-append, sum_of,
  sum_of-append, All, All-append, get_elem?, without, sum_of-without, All-without, some_eq,
  length-without, append_nil, append_snoc,
}

abbrev pub Text : Type 0
Text = List ℕ

-- The code units of a literal; the model's literals are ASCII.
abbrev pub codes : String → Text
codes Str.[] = []
codes (Str.◌∷◌ c s) = code c ∷ codes s

abbrev pub same_text : Text → Text → Bool
same_text [] [] = true
same_text (c ∷ cs) (d ∷ ds) = c == d && same_text cs ds
same_text _ _ = false

abbrev pub is_member : Text → List Text → Bool
is_member t [] = false
is_member t (u ∷ us) = same_text u t || is_member t us

-- WhiteSpace and LineTerminator of the language.
abbrev pub is_white_space : ℕ → Bool
is_white_space c =
    (leb 9 c && leb c 13)
    || c == 32
    || c == 160
    || c == 5760
    || (leb 8192 c && leb c 8202)
    || c == 8232
    || c == 8233
    || c == 8239
    || c == 8287
    || c == 12288
    || c == 65279

unfoldable pub trim_start : Text → Text
trim_start [] = []
trim_start (c ∷ cs) = let rest = trim_start cs in if is_white_space c then rest else c ∷ cs

-- A character before what is left of the text behind it.
abbrev pub trim_before : ℕ → Text → Text
trim_before c [] = if is_white_space c then [] else c ∷ []
trim_before c (d ∷ ds) = c ∷ d ∷ ds

unfoldable pub trim_end : Text → Text
trim_end [] = []
trim_end (c ∷ cs) = trim_before c (trim_end cs)

unfoldable pub trim : Text → Text
trim t = trim_end (trim_start t)

abbrev pub carriage_return : ℕ
carriage_return = 13

abbrev pub line_feed : ℕ
line_feed = 10

abbrev pub starts_with_line_feed : Text → Bool
starts_with_line_feed [] = false
starts_with_line_feed (c ∷ cs) = c == line_feed

-- value.replace(/\r\n?/g, '\n'): a carriage return before a line feed goes, any other becomes one.
unfoldable pub replace_line_ends : Text → Text
replace_line_ends [] = []
replace_line_ends (c ∷ cs) =
    let rest = replace_line_ends cs in
    if c == carriage_return
    then (if starts_with_line_feed cs then rest else line_feed ∷ rest)
    else c ∷ rest
