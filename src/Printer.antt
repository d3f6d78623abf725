-- ===== src/Printer.antt =====
-- src/prettyprint.c, with the dispatch of src/visitor.c: the printer of syntax trees.
pub mod Inspect
pub mod Output
pub mod Visitors
pub mod Visit
pub mod Printable
pub mod Brackets
pub mod Pieces
pub mod Prints
pub mod Balance
pub mod Quits
pub mod Ends
