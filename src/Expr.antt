-- ===== src/Expr.antt =====
-- crates/levshell-context/src/expr.rs: the relevance rule language, from its source text to the
-- value of a rule. The children hold the syntax, the tokenizer, the parser and the evaluator.
pub mod Syntax
pub mod Lexer
pub mod Parser
pub mod Eval
pub mod Returns
pub mod Print
