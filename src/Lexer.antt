-- ===== src/Lexer.antt =====
-- src/lexer.c and src/lexer.h: the scanner.
pub mod State
pub mod Chars
pub mod Ident
pub mod Text
pub mod Number
pub mod Operator
pub mod Scan
pub mod Advance
pub mod Code
pub mod Ends
pub mod Steps
pub mod Words
pub mod Digits
pub mod Spelling
pub mod Comments
pub mod Strings
pub mod Lines
