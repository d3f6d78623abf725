-- ===== src/Parser.antt =====
-- src/parser.c and src/parser.h: the recursive descent parser.
pub mod Source
pub mod Monad
pub mod Expr
pub mod Operators
pub mod Stmt
pub mod Block
pub mod Grammar
pub mod Scanner
pub mod Code
pub mod Reads
pub mod Ends
pub mod Associates
pub mod Syntax
pub mod Phrases
pub mod Program
