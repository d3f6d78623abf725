-- ===== src/Codegen.antt =====
-- src/codegen.c, with the dispatch of src/visitor.c: the generator of IFJcode17.
pub mod Output
pub mod State
pub mod Operators
pub mod Visitors
pub mod Visit
pub mod Keeps
pub mod Succeeds
pub mod Ends
