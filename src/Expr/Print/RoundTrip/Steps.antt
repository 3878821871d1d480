-- ===== src/Expr/Print/RoundTrip/Steps.antt =====
-- How each parsing function of crates/levshell-context/src/expr.rs acts on printed operands.
use mathlib.Core.List.{append_assoc}
use levshell.Prelude.{
  ℕ, zero, suc, ◌+◌, ◌*◌, ◌≤◌, ◌≡◌, refl, ap, ◌∙◌, false, [], ◌∷◌, ◌++◌, length, length-append,
  arith,
}
use levshell.Expr.Syntax.{Expression, ok}
use levshell.Expr.Lexer.{Token}
use levshell.Expr.Parser.{
  Tokens, peek, is_or, is_and, close_paren, parse_or, or_loop, parse_and, and_loop, parse_unary,
}
use levshell.Expr.Print.{in_parens, or_level, and_level, unary_level, print, place, place_end}
use levshell.Expr.Print.RoundTrip.Terms.{place-append, bind_ok, EndsTerm, EndsAnd}

module _ {N : Type 0} (finish : ℕ) (width : Token N → ℕ) where
  -- What each parsing function does with a printed expression and what follows it.
  abbrev pub OrReads : Expression N → Type 0
  OrReads e =
      (i f : ℕ) (rest : Tokens N)
      → EndsAnd rest
      → 6 * length (print e or_level) + 4 ≤ f
      → (f' : ℕ) × (f ≤ f' + 6 * length (print e or_level) + 1)
        × (parse_or finish f (place width i (print e or_level) ++ rest) ≡ or_loop finish f' e rest)

  abbrev pub AndReads : Expression N → Type 0
  AndReads e =
      (i f : ℕ) (rest : Tokens N)
      → EndsTerm rest
      → 6 * length (print e and_level) + 3 ≤ f
      → (f' : ℕ) × (f ≤ f' + 6 * length (print e and_level) + 1)
        × (parse_and finish f (place width i (print e and_level) ++ rest)
            ≡ and_loop finish f' e rest)

  abbrev pub UnaryReads : Expression N → Type 0
  UnaryReads e =
      (i f : ℕ) (rest : Tokens N)
      → EndsTerm rest
      → 6 * length (print e unary_level) + 2 ≤ f
      → parse_unary finish f (place width i (print e unary_level) ++ rest) ≡ ok (e, rest)

  pub or_loop-stop :
      (f : ℕ) (e : Expression N) (rest : Tokens N)
      → 1 ≤ f
      → is_or (peek rest) ≡ false
      → or_loop finish f e rest ≡ ok (e, rest)
  unfolding or_loop
  or_loop-stop zero e rest h n = absurd (omega arith)
  or_loop-stop (suc f) e rest h n = rw (n, or_loop)

  and_loop-stop :
      (f : ℕ) (e : Expression N) (rest : Tokens N)
      → 1 ≤ f
      → is_and (peek rest) ≡ false
      → and_loop finish f e rest ≡ ok (e, rest)
  unfolding and_loop
  and_loop-stop zero e rest h n = absurd (omega arith)
  and_loop-stop (suc f) e rest h n = rw (n, and_loop)

  pub and_of_unary :
      (e : Expression N) → print e and_level ≡ print e unary_level → UnaryReads e → AndReads e
  unfolding parse_and
  and_of_unary e same u i zero rest ends h = absurd (omega arith)
  and_of_unary e same u i (suc f) rest ends h = (
    f,
    omega arith,
    rw same (
        bind_ok (parse_unary finish f (place width i (print e unary_level) ++ rest)) _ (e, rest)
          (u i f rest ends (omega (arith, ap length same))) refl),
  )

  pub or_of_and : (e : Expression N) → print e or_level ≡ print e and_level → AndReads e → OrReads e
  unfolding parse_or
  or_of_and e same a i zero rest ends h = absurd (omega arith)
  or_of_and e same a i (suc f) rest ends h =
      let (g, near, reads) = a i f rest (ends.0, ends.1) (omega (arith, ap length same)) in
      (
        f,
        omega arith,
        rw same (
            bind_ok (parse_and finish f (place width i (print e and_level) ++ rest)) _ (e, rest)
              (reads ∙ and_loop-stop g e rest (omega (arith, ap length same)) ends.2) refl),
      )

  or_next :
      (g : ℕ) (a b : Expression N) (j : ℕ) (rest : Tokens N)
      → AndReads b
      → EndsAnd rest
      → 6 * length (print b and_level) + 4 ≤ g
      → (g' : ℕ) × (g ≤ suc g')
        × (or_loop finish g a (place width j (Token.or ∷ print b and_level) ++ rest)
            ≡ or_loop finish g' (Expression.or a b) rest)
  unfolding or_loop
  or_next zero a b j rest reads ends h = absurd (omega arith)
  or_next (suc g) a b j rest reads ends h =
      let (k, near, same) = reads (j + width Token.or) g rest (ends.0, ends.1) (omega arith) in
      (
        g,
        omega arith,
        bind_ok (parse_and finish g (place width (j + width Token.or) (print b and_level) ++ rest))
            _ (b, rest) (same ∙ and_loop-stop k b rest (omega arith) ends.2) refl,
      )

  and_next :
      (g : ℕ) (a b : Expression N) (j : ℕ) (rest : Tokens N)
      → UnaryReads b
      → EndsTerm rest
      → 6 * length (print b unary_level) + 3 ≤ g
      → (g' : ℕ) × (g ≤ suc g')
        × (and_loop finish g a (place width j (Token.and ∷ print b unary_level) ++ rest)
            ≡ and_loop finish g' (Expression.and a b) rest)
  unfolding and_loop
  and_next zero a b j rest reads ends h = absurd (omega arith)
  and_next (suc g) a b j rest reads ends h = (
    g,
    omega arith,
    bind_ok (parse_unary finish g (place width (j + width Token.and) (print b unary_level) ++ rest))
        _ (b, rest) (reads (j + width Token.and) g rest ends (omega arith)) refl,
  )

  pub or_step : (a b : Expression N) → OrReads a → AndReads b → OrReads (Expression.or a b)
  or_step a b ra rb i f rest ends h =
      let size = length-append (print a or_level) (Token.or ∷ print b and_level) in
      let j = place_end width i (print a or_level) in
      let mid = place width j (Token.or ∷ print b and_level) ++ rest in
      let (g, near, first) = ra i f mid (refl, refl, refl) (omega arith) in
      let (g', less, second) = or_next g a b j rest rb ends (omega arith) in
      (
        g',
        omega arith,
        rw (place-append width i (print a or_level) (Token.or ∷ print b and_level), append_assoc)
            (first ∙ second),
      )

  pub and_step : (a b : Expression N) → AndReads a → UnaryReads b → AndReads (Expression.and a b)
  and_step a b ra rb i f rest ends h =
      let size = length-append (print a and_level) (Token.and ∷ print b unary_level) in
      let j = place_end width i (print a and_level) in
      let mid = place width j (Token.and ∷ print b unary_level) ++ rest in
      let (g, near, first) = ra i f mid (refl, refl) (omega arith) in
      let (g', less, second) = and_next g a b j rest rb ends (omega arith) in
      (
        g',
        omega arith,
        rw
            (
              place-append width i (print a and_level) (Token.and ∷ print b unary_level),
              append_assoc,
            )
            (first ∙ second),
      )

  -- An expression in parentheses.
  pub parens_step :
      (e : Expression N)
      → print e unary_level ≡ in_parens (print e or_level)
      → OrReads e
      → UnaryReads e
  unfolding parse_unary close_paren
  parens_step e same reads i zero rest ends h = absurd (omega arith)
  parens_step e same reads i (suc zero) rest ends h = absurd (omega (arith, ap length same))
  parens_step e same reads i (suc (suc f)) rest ends h =
      let size = length-append (print e or_level) (Token.rparen ∷ []) in
      let k = i + width Token.lparen in
      let j = place_end width k (print e or_level) in
      let close = place width j (Token.rparen ∷ []) ++ rest in
      let (g, near, first) = reads k f close (refl, refl, refl) (omega (arith, ap length same)) in
      rw (same, place-append width k (print e or_level) (Token.rparen ∷ []), append_assoc)
        (bind_ok (parse_or finish f (place width k (print e or_level) ++ close)) _ (e, close)
          (first ∙ or_loop-stop g e close (omega (arith, ap length same)) refl) refl)

  pub not_step : (a : Expression N) → UnaryReads a → UnaryReads (Expression.not a)
  unfolding parse_unary
  not_step a reads i zero rest ends h = absurd (omega arith)
  not_step a reads i (suc f) rest ends h =
      bind_ok
        (parse_unary finish f (place width (i + width Token.not) (print a unary_level) ++ rest)) _
        (a, rest) (reads (i + width Token.not) f rest ends (omega arith)) refl
