-- ===== src/Expr/Print.antt =====
-- An independent printer for the rules of crates/levshell-context/src/expr.rs, by which the parser
-- is specified: `or` binds weakest, then `and`, then `not`, and both operators group to the left.
-- `as_str` is the source's; the rest is not program code.
pub mod RoundTrip
use levshell.Prelude.{
  ℕ, suc, ◌+◌, Text, bytes, Bool, true, false, List, [], ◌∷◌, ◌++◌, ◌==◌, if◌then◌else◌, length,
}
use levshell.Expr.Syntax.{
  CompareOp, eq, not_eq, lt, lt_eq, gt, gt_eq, Term, signal, literal, Literal, Expression, compare,
  truthy,
}
use levshell.Expr.Lexer.{Token, SpannedToken}
use levshell.Expr.Parser.{Tokens}

unfoldable pub as_str : CompareOp → Text
as_str eq = bytes "=="
as_str not_eq = bytes "!="
as_str lt = bytes "<"
as_str lt_eq = bytes "<="
as_str gt = bytes ">"
as_str gt_eq = bytes ">="
as_str CompareOp.contains = bytes "contains"

-- The first segment of a dotted path, and the others.
unfoldable pub split_path : Text → Text × List Text
split_path [] = ([], [])
split_path (c ∷ r) =
    let (head, tail) = split_path r in if c == b'.' then ([], head ∷ tail) else (c ∷ head, tail)

module _ {N : Type 0} where
  abbrev pub dotted : List Text → List (Token N)
  dotted [] = []
  dotted (s ∷ ss) = Token.dot ∷ Token.ident s ∷ dotted ss

  abbrev pub term_tokens : Term N → List (Token N)
  term_tokens (signal name) = Token.ident (split_path name).0 ∷ dotted (split_path name).1
  term_tokens (literal (Literal.number n)) = Token.number n ∷ []
  term_tokens (literal (Literal.string s)) = Token.string s ∷ []
  term_tokens (literal (Literal.bool b)) = Token.bool b ∷ []

  abbrev pub op_token : CompareOp → Token N
  op_token CompareOp.contains = Token.contains
  op_token op = Token.op op

  abbrev pub in_parens : List (Token N) → List (Token N)
  in_parens ts = Token.lparen ∷ ts ++ Token.rparen ∷ []

-- How tightly the place binds in which an expression stands.
pub data Level : Type 0 where
  or_level and_level unary_level : Level

module _ {N : Type 0} where
  abbrev pub print : Expression N → Level → List (Token N)
  print (Expression.or a b) or_level = print a or_level ++ Token.or ∷ print b and_level
  print (Expression.or a b) and_level = in_parens (print a or_level ++ Token.or ∷ print b and_level)
  print (Expression.or a b) unary_level =
      in_parens (print a or_level ++ Token.or ∷ print b and_level)
  print (Expression.and a b) or_level = print a and_level ++ Token.and ∷ print b unary_level
  print (Expression.and a b) and_level = print a and_level ++ Token.and ∷ print b unary_level
  print (Expression.and a b) unary_level =
      in_parens (print a and_level ++ Token.and ∷ print b unary_level)
  print (Expression.not a) l = Token.not ∷ print a unary_level
  print (truthy t) l = term_tokens t
  print (compare l op r) at = term_tokens l ++ op_token op ∷ term_tokens r

-- The expressions that have a text: only a signal or a Boolean literal stands alone.
abbrev pub StandsAlone : {N : Type 0} → Term N → Type 0
StandsAlone (signal name) = Unit
StandsAlone (literal (Literal.bool b)) = Unit
StandsAlone (literal (Literal.number n)) = ⊥
StandsAlone (literal (Literal.string s)) = ⊥

abbrev pub IsPrintable : {N : Type 0} → Expression N → Type 0
IsPrintable (Expression.or a b) = IsPrintable a × IsPrintable b
IsPrintable (Expression.and a b) = IsPrintable a × IsPrintable b
IsPrintable (Expression.not a) = IsPrintable a
IsPrintable (truthy t) = StandsAlone t
IsPrintable (compare l op r) = Unit

-- The tokens with positions: each token takes the room that `width` says.
module _ {N : Type 0} (width : Token N → ℕ) where
  abbrev pub place : ℕ → List (Token N) → Tokens N
  place i [] = []
  place i (t ∷ ts) = record { token = t; position = i } ∷ place (i + width t) ts

  abbrev pub place_end : ℕ → List (Token N) → ℕ
  place_end i [] = i
  place_end i (t ∷ ts) = place_end (i + width t) ts
