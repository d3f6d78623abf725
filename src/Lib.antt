-- ===== src/Lib.antt =====
-- The compiler front end for the language IFJ17: src/ of the repository.
--
-- A source is read by the scanner (src/lexer.c) one token per call. The parser (src/parser.c)
-- calls it whenever a token has been accepted, looks at the current token and line that it
-- leaves behind, and builds the nodes of src/ast.c. The driver (src/ifj17.c) runs the parser on
-- a file, or only the scanner for `--tokens`; it reports an error (src/errors.c), or has the
-- tree printed (src/prettyprint.c) and the code for it generated (src/codegen.c). The
-- interpreter of src/vm.c stands beside them: the driver does not call it.
--
-- Token models src/token.h: `Kind` is ifj17_token, `spelling` the table of token strings. An
-- int is its bit pattern of 32 bits; a double is kept as the operations that made it.
--
-- Lexer models src/lexer.c and the loop of `--tokens`. State has ifj17_lexer_t and the macros,
-- Ident scan_ident, Text scan_string and hex_literal, Number scan_number, Operator the cases
-- that look ahead and the comments, Scan ifj17_scan. The offset into the source is modelled by
-- the bytes behind it, the terminating zero included: to read behind it is the fault `overrun`,
-- to write behind the 128 bytes of a token buffer the fault `overflow`, which is reported when
-- the buffer is complete. A call is a number of rounds from the label `scan`. Every round but
-- the last reads a byte, so one more than the bytes left bounds the rounds of a call, and twice
-- the bytes left and two the calls of the loop of `--tokens`.
--
-- Ast models src/ast.h and src/ast.c: a node type is a constructor of `Node`, NULL is
-- `missing`, a vector is a list and the hash table of keyword arguments an association list. An
-- allocation does not fail.
--
-- Parser models src/parser.c. Source is what it needs of a scanner: a state, a call that
-- changes it, the current token and line, and a measure of what is left that a call brings
-- down; Scanner fills it with the scanner of Lexer. Monad has ifj17_parser_t and the macros: a
-- function returns a value or NULL, with the state it leaves, or faults. Expr has the terms up
-- to calls, Operators the levels of operators up to `not`, Stmt the statements that hold no
-- block, Block the others, Grammar the recursion through `expr` and `block`. Where the C code
-- stores a result without a test, so does the model, with `missing` for NULL. A nested call of
-- `expr` or `block` and a round of a loop cost a unit of fuel, and one more than the measure of
-- the scanner is enough for all of them. Reads and its children hold the lemmas for this, one
-- for each function, and Ends the theorems; Associates is about the trees that the levels of
-- operators make, and Syntax about the grammar of operator expressions: its derivations with
-- their tokens and trees, and in its children that the parser reads them. Phrases goes on with
-- the grammar of assignments, declarations and the heads of functions, and Program with that of
-- statements and blocks; its children show that the parser reads them, from the steps of single
-- tokens (Steps) to whole programs (Reads). The grammar leaves out calls, arrays and hashes, `**`
-- and the postfix operators, a trailing `&`, and the declare and type statements.
--
-- Vm models src/vm.h, src/vm.c, src/opcodes.h and src/disasm.h. Decode has the fields of an
-- instruction, Eval ifj17_dump and ifj17_eval, which calls it first: an instruction pointer
-- into the code, 32 registers and the constants; an access outside one of them or outside the
-- names of the operations is the fault `bad_access`, a division can trap. No instruction moves
-- back, so one more than the length of the code bounds the rounds. The words that the C code
-- prints while it runs are left out. Ends has the bound, Valid and Inside what keeps the
-- accesses inside the arrays.
--
-- Printer models src/prettyprint.c and the dispatch of src/visitor.c. Output has the global
-- `indents` and the pieces of the format strings with their arguments, in place of characters;
-- Inspect the escapes of strings; Visitors a function for each visitor, to which the visits of
-- the children are given, and Visit the recursion over the tree. The order in which a hash
-- table is walked is a parameter; that it has the entries of the table is the only thing asked
-- of it. A node of a vector that the C code casts to another type is the fault `bad_access`.
-- Balance has what a piece of a visitor does to the indentation and to the brackets, Printable
-- the trees without a NULL pointer where one is visited, Brackets and Pieces the lemmas on the
-- visitors, Quits those for Ends, Prints and Ends the theorems.
--
-- Codegen models src/codegen.c. State has its static variables, Output what it prints, with the
-- formats that number labels; Operators has emit_op and the visitors of operations, Visitors
-- the others, Visit the recursion. `printf` and `print_func` print to the same place, as the
-- driver sets them. visit_id hands its node to emit_op, which takes the low half of the address
-- of the name for an operator: `address` is this number, as a parameter. Keeps and its children
-- follow the labels of the loops and the flags through every visitor, Ends has the theorems;
-- Succeeds and its children show where a visit meets no fault, which Compiles of Driver uses.
--
-- Driver models src/ifj17.c and src/errors.c: Args parse_args and the choice of the input in
-- main, Errors the report of an error, Tokens what is printed of a token (src/token.c), Eval
-- the function eval, which composes all the parts; Flags, Ends, Expressions, Programs and
-- Compiles have the theorems.
--
-- Hash models src/hash.c. The tables of deps/khash.h are a parameter, `Khash`, with `IsKhash`
-- for what khash promises of the buckets by each of its calls; Laws has the theorem.
--
-- Strings models src/string.c and src/state.c: the strings that a state holds, in a table of
-- khash whose values are addresses. An allocation fails when `room` is used up. Interned has the
-- theorems, with all outcomes of a call.
--
-- Objects models src/object.c: the tagged values on a heap of blocks, where an allocation fails
-- when `room` is used up, and free takes a block back. Lifetime follows an object from its
-- allocation to its release, by the steps of Blocks; Full has the allocations that fail.
--
-- The other files of Lexer have the theorems for the kinds of tokens: Words, Digits, Strings,
-- Spelling, Lines and Comments; Ends bounds the scanner's calls, from the lemmas of Advance and
-- Steps. Tests holds runs of the model and an example of each theorem.
--
-- Not modelled: vectors beyond what the parser does to them (src/vec.c); reading files
-- (src/utils.c), the line editor and the help texts (src/ifj17.c), which are input and output;
-- and the libraries in deps/.
pub mod Prelude
pub mod Token
pub mod Lexer
pub mod Ast
pub mod Parser
pub mod Printer
pub mod Codegen
pub mod Vm
pub mod Driver
pub mod Hash
pub mod Strings
pub mod Objects
mod Tests
