-- ===== src/Expr/Lexer.antt =====
-- The tokenizer of crates/levshell-context/src/expr.rs. The loop over the byte index `i` is a
-- recursion on the bytes from `i` on; a token of n bytes makes the loop pass over n - 1 more.
pub mod Positions
use levshell.Prelude.{
  ℕ, zero, suc, ◌+◌, ◌-◌, ◌/◌, ◌%◌, Text, bytes, text_eq, Bool, true, false, ◌&&◌, ◌||◌, Option,
  none, some, List, [], ◌∷◌, ◌++◌, length, if◌then◌else◌, ltb, leb, ◌==◌,
}
use levshell.Expr.Syntax.{
  CompareOp, eq, not_eq, lt, lt_eq, gt, gt_eq, Message, unexpected_character, unterminated_string,
  invalid_number, ContextError, parse, Result, ok, err, exhausted, ◌>>=◌,
}

pub data Token (N : Type 0) : Type 0 where
  ident : Text → Token N
  number : N → Token N
  string : Text → Token N
  bool : Bool → Token N
  dot lparen rparen and or not contains : Token N
  op : CompareOp → Token N

pub record SpannedToken (N : Type 0) : Type 0 where
  pub token : Token N
  pub position : ℕ

-- The byte classes of `u8::is_ascii_*`.
unfoldable pub is_whitespace : ℕ → Bool
is_whitespace c = c == 32 || c == 9 || c == 10 || c == 12 || c == 13

unfoldable pub is_digit : ℕ → Bool
is_digit c = leb b'0' c && leb c b'9'

unfoldable pub is_alphabetic : ℕ → Bool
is_alphabetic c = (leb b'a' c && leb c b'z') || (leb b'A' c && leb c b'Z')

unfoldable pub is_number_byte : ℕ → Bool
unfolding is_digit
is_number_byte c = is_digit c || c == b'.'

unfoldable pub is_ident_start : ℕ → Bool
unfolding is_alphabetic
is_ident_start c = is_alphabetic c || c == b'_'

unfoldable pub is_ident_byte : ℕ → Bool
unfolding is_alphabetic is_digit
is_ident_byte c = is_alphabetic c || is_digit c || c == b'_'

-- The longest prefix of bytes that pass the test.
unfoldable pub take_while : (ℕ → Bool) → Text → Text
take_while p [] = []
take_while p (c ∷ r) = if p c then c ∷ take_while p r else []

-- `buf.push(b as char)`: the character of that code point, in UTF-8.
unfoldable pub push_char : ℕ → Text → Text
push_char b buf = if ltb b 128 then b ∷ buf else (192 + b / 64) ∷ (128 + b % 64) ∷ buf

-- The character that `\` and the byte `d` stand for.
unfoldable pub unescape : ℕ → ℕ
unescape d = if d == b'n' then 10 else if d == b't' then 9 else d

-- The body of a string literal, from behind the opening quote: what it holds, and the number of
-- bytes up to the closing quote and with it. `none`: no closing quote.
unfoldable pub scan_string : Text → Option (Text × ℕ)
unfolding push_char unescape
scan_string [] = none
scan_string (c ∷ []) = if c == b'"' then some ([], 1) else none
scan_string (c ∷ d ∷ r) =
    let escaped : Option (Text × ℕ) = elim (scan_string r) [
      | none ↦ none
      | some (buf, n) ↦ some (push_char (unescape d) buf, n + 2)
    ] in
    let plain : Option (Text × ℕ) = elim (scan_string (d ∷ r)) [
      | none ↦ none
      | some (buf, n) ↦ some (push_char c buf, n + 1)
    ] in
    if c == b'"' then some ([], 1) else if c == b'\\' then escaped else plain

-- Which word an identifier's bytes spell.
unfoldable pub keyword : {N : Type 0} → Text → Token N
keyword lexeme =
    if text_eq lexeme (bytes "and")
    then and
    else if text_eq lexeme (bytes "or")
    then or
    else if text_eq lexeme (bytes "not")
    then not
    else if text_eq lexeme (bytes "contains")
    then contains
    else if text_eq lexeme (bytes "true")
    then bool true
    else if text_eq lexeme (bytes "false")
    then bool false
    else ident lexeme

unfoldable pub starts_with_byte : ℕ → Text → Bool
starts_with_byte c [] = false
starts_with_byte c (d ∷ r) = d == c

unfoldable pub starts_with_digit : Text → Bool
unfolding is_digit
starts_with_digit [] = false
starts_with_digit (d ∷ r) = is_digit d

-- A `-` belongs to the number if a digit follows it.
unfoldable pub number_lexeme : ℕ → Text → Text
unfolding take_while is_number_byte
number_lexeme c r = c ∷ take_while is_number_byte r

unfoldable pub scan_literal : {N : Type 0} → ℕ → Text → Result (Option (Token N) × ℕ)
scan_literal start r = elim (scan_string r) [
  | none ↦ err (parse unterminated_string start)
  | some (buf, n) ↦ ok (some (string buf), n + 1)
]

abbrev pub push_token :
    {N : Type 0} → ℕ → Option (Token N) → List (SpannedToken N) → List (SpannedToken N)
push_token start none out = out
push_token start (some t) out = record { token = t; position = start } ∷ out

module _ {N : Type 0} (parse_f64 : Text → Option N) where
  -- A number at `c`, whose lexeme is `c` and the digits and dots behind it.
  unfoldable pub scan_number : ℕ → ℕ → Text → Result (Option (Token N) × ℕ)
  scan_number start c r = elim (parse_f64 (number_lexeme c r)) [
    | none ↦ err (parse (invalid_number (number_lexeme c r)) start)
    | some n ↦ ok (some (number n), length (number_lexeme c r))
  ]

  -- One round of the loop at the byte `c`, with `r` behind it: the token, unless `c` is a space,
  -- and the number of bytes that the round takes.
  unfoldable pub next_token : ℕ → ℕ → Text → Result (Option (Token N) × ℕ)
  next_token start c r =
      if is_whitespace c
      then ok (none, 1)
      else if c == b'('
      then ok (some lparen, 1)
      else if c == b')'
      then ok (some rparen, 1)
      else if c == b'.'
      then ok (some dot, 1)
      else if c == b'=' && starts_with_byte b'=' r
      then ok (some (op eq), 2)
      else if c == b'!' && starts_with_byte b'=' r
      then ok (some (op not_eq), 2)
      else if c == b'<' && starts_with_byte b'=' r
      then ok (some (op lt_eq), 2)
      else if c == b'<'
      then ok (some (op lt), 1)
      else if c == b'>' && starts_with_byte b'=' r
      then ok (some (op gt_eq), 2)
      else if c == b'>'
      then ok (some (op gt), 1)
      else if c == b'"'
      then scan_literal start r
      else if is_digit c || (c == b'-' && starts_with_digit r)
      then scan_number start c r
      else if is_ident_start c
      then ok
          (some (keyword (c ∷ take_while is_ident_byte r)), length (c ∷ take_while is_ident_byte r))
      else err (parse (unexpected_character c) start)

  -- `skip` bytes of the rest belong to the token before.
  unfoldable pub tokenize_from : ℕ → ℕ → Text → Result (List (SpannedToken N))
  tokenize_from skip i [] = ok []
  tokenize_from (suc skip) i (c ∷ r) = tokenize_from skip (suc i) r
  tokenize_from zero i (c ∷ r) = do
    (t, n) ← next_token i c r
    out ← tokenize_from (n - 1) (suc i) r
    ok (push_token i t out)

  unfoldable pub tokenize : Text → Result (List (SpannedToken N))
  unfolding tokenize_from
  tokenize src = tokenize_from 0 0 src
