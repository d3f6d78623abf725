-- ===== src/Driver.antt =====
-- src/ifj17.c and src/errors.c: the command line, and the run of a source through the parts.
pub mod Args
pub mod Flags
pub mod Errors
pub mod Tokens
pub mod Eval
pub mod Ends
pub mod Expressions
pub mod Programs
pub mod Compiles
