-- ===== src/Expr/Lexer/Positions.antt =====
-- Where the tokens and the errors of the tokenizer of crates/levshell-context/src/expr.rs stand.
use levshell.Prelude.{
  ℕ, zero, suc, ◌+◌, ◌-◌, ◌≤◌, ◌<◌, ◌≡◌, refl, Text, Option, none, some, List, [], ◌∷◌, length,
  arith, Option-cases, inl, inr,
}
use levshell.Expr.Syntax.{parse, eval, unknown_signal, Result, ok, err, exhausted, ◌>>=◌}
use levshell.Expr.Lexer.{
  Token, SpannedToken, scan_string, scan_number, scan_literal, next_token, push_token,
  tokenize_from, tokenize,
}

-- Positions grow along the list, from `lo` on, and stay below `hi`.
abbrev pub Increasing : {N : Type 0} → ℕ → ℕ → List (SpannedToken N) → Type 0
Increasing lo hi [] = Unit
Increasing lo hi (t ∷ ts) =
    (lo ≤ t.position) × (t.position < hi) × Increasing (suc t.position) hi ts

-- An error stands between `lo` and `hi`, and there is no other failure.
abbrev pub Located : {N : Type 0} → ℕ → ℕ → Result (List (SpannedToken N)) → Type 0
Located lo hi (ok ts) = Increasing lo hi ts
Located lo hi (err (parse m p)) = (lo ≤ p) × (p < hi)
Located lo hi (err (eval m)) = ⊥
Located lo hi (err (unknown_signal s)) = ⊥
Located lo hi exhausted = ⊥

abbrev FailsAt : {A : Type 0} → ℕ → Result A → Type 0
FailsAt start (ok a) = Unit
FailsAt start (err (parse m p)) = p ≡ start
FailsAt start (err (eval m)) = ⊥
FailsAt start (err (unknown_signal s)) = ⊥
FailsAt start exhausted = ⊥

Increasing-mono :
    {N : Type 0} (lo lo' hi : ℕ) (ts : List (SpannedToken N))
    → lo ≤ lo'
    → Increasing lo' hi ts
    → Increasing lo hi ts
Increasing-mono lo lo' hi [] h i = tt
Increasing-mono lo lo' hi (t ∷ ts) h i = (omega arith, i.1, i.2)

module _ {N : Type 0} (parse_f64 : Text → Option N) where
  scan_number-FailsAt : (start c : ℕ) (r : Text) → FailsAt start (scan_number parse_f64 start c r)
  unfolding scan_number
  scan_number-FailsAt start c r = ground arith

  scan_literal-FailsAt : (start : ℕ) (r : Text) → FailsAt start (scan_literal {N = N} start r)
  unfolding scan_literal
  scan_literal-FailsAt start r = elim (Option-cases (scan_string r)) [
    | inl e ↦ rw (e, scan_literal) refl
    | inr (t, e) ↦ rw (e, scan_literal) tt
  ]

  next_token-FailsAt : (start c : ℕ) (r : Text) → FailsAt start (next_token parse_f64 start c r)
  unfolding next_token
  next_token-FailsAt start c r =
      ground (arith, scan_number-FailsAt start c r, scan_literal-FailsAt start r)

  push_token-Increasing :
      (i hi : ℕ) (t : Option (Token N)) (out : List (SpannedToken N))
      → i < hi
      → Increasing (suc i) hi out
      → Increasing i hi (push_token i t out)
  push_token-Increasing i hi none out h o = Increasing-mono i (suc i) hi out (omega arith) o
  push_token-Increasing i hi (some t) out h o = (omega arith, h, o)

  pushed-Located :
      (i hi : ℕ) (t : Option (Token N)) (r : Result (List (SpannedToken N)))
      → i < hi
      → Located (suc i) hi r
      → Located i hi (r >>= λ out. ok (push_token i t out))
  pushed-Located i hi t (ok out) h l = push_token-Increasing i hi t out h l
  pushed-Located i hi t (err (parse m p)) h l = (omega arith, l.1)
  pushed-Located i hi t (err (eval m)) h l = l
  pushed-Located i hi t (err (unknown_signal s)) h l = l
  pushed-Located i hi t exhausted h l = l

  round-Located :
      (i hi : ℕ) (first : Result (Option (Token N) × ℕ)) (rest : ℕ → Result (List (SpannedToken N)))
      → i < hi
      → FailsAt i first
      → ((n : ℕ) → Located (suc i) hi (rest n))
      → Located i hi (first >>= λ (t, n). rest (n - 1) >>= λ out. ok (push_token i t out))
  round-Located i hi (ok (t, n)) rest h f l = pushed-Located i hi t (rest (n - 1)) h (l (n - 1))
  round-Located i hi (err (parse m p)) rest h f l = (omega arith, omega arith)
  round-Located i hi (err (eval m)) rest h f l = f
  round-Located i hi (err (unknown_signal s)) rest h f l = f
  round-Located i hi exhausted rest h f l = f

  widen : (i hi : ℕ) (r : Result (List (SpannedToken N))) → Located (suc i) hi r → Located i hi r
  widen i hi (ok ts) l = Increasing-mono i (suc i) hi ts (omega arith) l
  widen i hi (err (parse m p)) l = (omega arith, l.1)
  widen i hi (err (eval m)) l = l
  widen i hi (err (unknown_signal s)) l = l
  widen i hi exhausted l = l

  tokenize_from-Located :
      (skip i hi : ℕ) (s : Text)
      → i + length s ≡ hi
      → Located i hi (tokenize_from parse_f64 skip i s)
  unfolding tokenize_from
  tokenize_from-Located skip i hi [] e = tt
  tokenize_from-Located (suc skip) i hi (c ∷ r) e =
      widen i hi (tokenize_from parse_f64 skip (suc i) r)
        (tokenize_from-Located skip (suc i) hi r (omega arith))
  tokenize_from-Located zero i hi (c ∷ r) e =
      round-Located i hi (next_token parse_f64 i c r) (λ n. tokenize_from parse_f64 n (suc i) r)
        (omega arith) (next_token-FailsAt i c r)
        (λ n. tokenize_from-Located n (suc i) hi r (omega arith))

  -- The tokens of a text stand at growing positions inside it. If the text is refused, the error's
  -- position lies inside it too, and the tokenizer never fails in another way.
  pub tokenize-Located : (src : Text) → Located 0 (length src) (tokenize parse_f64 src)
  unfolding tokenize
  tokenize-Located src = tokenize_from-Located 0 0 (length src) src (omega arith)
