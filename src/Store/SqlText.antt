-- ===== src/Store/SqlText.antt =====
-- How src/sqlite_store.cpp reads the SQL text of a schema: strip_sql_noise, collapse_spaces,
-- to_lower_ascii, is_ident_char, check_expressions and parse_schema_version.
pub mod Clean
use mathlib.Core.Option
use player_trace_sdk.Base.{
  zero, suc, ℕ, ◌+◌, ◌-◌, ◌*◌, Bool, true, false, not, ◌||◌, ◌&&◌, List, [], ◌∷◌, ◌++◌, map, Option,
  none, some, length, ltb, leb, ◌==◌, if◌then◌else◌, codes, drop, take,
}
use player_trace_sdk.Types.{Bytes}
use player_trace_sdk.Validator.Keys.{is_empty}

abbrev between : ℕ → ℕ → ℕ → Bool
between low high c = leb low c && leb c high

unfoldable pub to_lower_ascii : Bytes → Bytes
to_lower_ascii text = map (λ c. if between 65 90 c then c - 65 + 97 else c) text

unfoldable pub is_ident_char : ℕ → Bool
is_ident_char c = between 97 122 c || between 65 90 c || between 48 57 c || c == 95 || c == 36

unfoldable pub is_space : ℕ → Bool
is_space c = c == 32 || c == 9 || c == 10 || c == 13 || c == 12 || c == 11

unfoldable pub collapse_spaces : Bytes → Bytes
unfolding is_space
collapse_spaces [] = []
collapse_spaces (c ∷ rest) =
    let others = collapse_spaces rest in if is_space c then others else c ∷ others

-- The digits read from the left, with the value so far.
unfoldable pub parse_digits : ℕ → Bytes → Option ℕ
parse_digits value [] = some value
parse_digits value (c ∷ rest) =
    let others = parse_digits (value * 10 + (c - 48)) rest in
    if between 48 57 c then others else none

unfoldable pub parse_schema_version : Bytes → Option ℕ
parse_schema_version text =
    if is_empty text || ltb 9 (length text) then none else elim (parse_digits 0 text) [
      | none ↦ none
      | some value ↦ if ltb 2147483647 value then none else some value
    ]

unfoldable pub head_is : ℕ → Bytes → Bool
head_is b [] = false
head_is b (c ∷ rest) = c == b

-- ' " ` [
unfoldable pub is_quote : ℕ → Bool
is_quote c = c == 39 || c == 34 || c == 96 || c == 91

-- Where the loops of strip_sql_noise stand: at the top, or inside of a comment or a quoted region with
-- its terminator; `skipped` and `escaped` pass over one character of it, and `closing` over its last one.
pub data Mode : Type 0 where
  code line skipped block closing : Mode
  quoted escaped : ℕ → Bool → Mode

-- What one character writes, and where it leads.
unfoldable pub turn : Mode → ℕ → Bytes → Bytes × Mode
turn code c rest =
    if c == 45 && head_is 45 rest
    then ([], line)
    else if c == 47 && head_is 42 rest
    then ([], skipped)
    else if is_quote c
    then ([], quoted (if c == 91 then 93 else c) (not (c == 91)))
    else (c ∷ [], code)
turn line c rest = if c == 10 then (32 ∷ c ∷ [], code) else ([], line)
turn skipped c rest = ([], block)
turn block c rest = if c == 42 && head_is 47 rest then ([], closing) else ([], block)
turn closing c rest = (32 ∷ [], code)
turn (quoted close doubling) c rest =
    if not (c == close)
    then ([], quoted close doubling)
    else if doubling && head_is close rest
    then ([], escaped close doubling)
    else (32 ∷ [], code)
turn (escaped close doubling) c rest = ([], quoted close doubling)

-- An unterminated region is blank to the end.
unfoldable pub ending : Mode → Bytes
ending code = []
ending _ = 32 ∷ []

unfoldable pub scan : Mode → Bytes → Bytes
unfolding turn ending
scan m [] = ending m
scan m (c ∷ rest) = let (out, m') = turn m c rest in out ++ scan m' rest

unfoldable pub strip_sql_noise : Bytes → Bytes
strip_sql_noise sql = scan code sql

unfoldable pub starts_with : Bytes → Bytes → Bool
starts_with [] text = true
starts_with (p ∷ prefix) [] = false
starts_with (p ∷ prefix) (c ∷ text) =
    let rest = starts_with prefix text in if p == c then rest else false

-- The blanks between CHECK and its parenthesis.
unfoldable pub leading_blanks : Bytes → ℕ
leading_blanks [] = 0
leading_blanks (c ∷ rest) =
    let others = leading_blanks rest in
    if c == 32 || c == 9 || c == 10 || c == 13 then others + 1 else 0

-- How many characters it takes to close the parentheses that are open; `none` where they stay open.
unfoldable pub balanced : ℕ → Bytes → Option ℕ
balanced depth [] = none
balanced depth (c ∷ rest) =
    let later =
      balanced (if c == 40 then depth + 1 else if c == 41 then depth - 1 else depth) rest in
    if c == 41 && depth == 1 then some 1 else Option.map (1 +◌) later

abbrev is_ident_at : Option ℕ → Bool
is_ident_at none = false
is_ident_at (some c) = is_ident_char c

abbrev head_of : Bytes → Option ℕ
head_of [] = none
head_of (c ∷ rest) = some c

-- The expression in the parentheses that open `text`, and the characters that it takes.
unfoldable pub parenthesised : Bytes → Option (Bytes × ℕ)
parenthesised text =
    if head_is 40 text
    then Option.map (λ n. (collapse_spaces (take (n - 2) (drop 1 text)), n)) (balanced 0 text)
    else none

-- What stands at a character, with `before` in front of it: the expression of a CHECK, and how many
-- characters to pass over.
unfoldable pub check_at : Option ℕ → Bytes → Option Bytes × ℕ
unfolding leading_blanks parenthesised
check_at before text =
    if not (starts_with (codes "check") text)
    then (none, 0)
    else let rest = drop 5 text in
      if is_ident_at before || is_ident_at (head_of rest)
      then (none, 4)
      else let blanks = leading_blanks rest in
        elim (parenthesised (drop blanks rest)) [
          | none ↦ (none, 4)
          | some (e, n) ↦ (some e, 4 + blanks + n)
        ]

abbrev and_also : Option Bytes → List Bytes → List Bytes
and_also none found = found
and_also (some e) found = e ∷ found

-- The search, where so many characters are still to be passed over.
unfoldable pub checks_from : ℕ → Option ℕ → Bytes → List Bytes
unfolding check_at
checks_from skip before [] = []
checks_from zero before (c ∷ rest) =
    let (found, skip) = check_at before (c ∷ rest) in
    and_also found (checks_from skip (some c) rest)
checks_from (suc skip) before (c ∷ rest) = checks_from skip (some c) rest

unfoldable pub check_expressions : Bytes → List Bytes
check_expressions ddl = checks_from 0 none (to_lower_ascii ddl)
