-- ===== src/Tests.antt =====
-- Runs of the model on small inputs.
pub mod Lexer
pub mod Parser
mod Examples
mod Vm
mod Printer
mod Codegen
mod Driver
mod Syntax
pub mod Program
mod Functions
mod Hash
mod Objects
