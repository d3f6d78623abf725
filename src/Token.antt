-- ===== src/Token.antt =====
-- src/token.h: the kinds of tokens, their spellings, and the token that the scanner fills.
-- A keyword's kind ends in `_kw`, as several of them are reserved words here.
use Prim.Native.String.{String}
use ifj.Prelude.{List, [], ◌∷◌, false, ◌||◌, ℕ, Bool, ◌==◌, Bytes}

-- `ifj17_token`
pub data Kind : Type 0 where
  illegal eos id int print_kw input_kw double string declare_kw function_kw scope_kw : Kind
  type_kw as_kw do_kw loop_kw while_kw if_kw then_kw elseif_kw else_kw for_kw dim_kw end_kw : Kind
  return_kw lbrace rbrace lparen rparen lbrack rbrack colon qmark semicolon comma op_dot : Kind
  op_lnot op_not op_fork op_plus op_incr op_minus op_decr op_mul op_div op_mod op_pow op_gt : Kind
  op_lt op_gte op_lte op_eq op_neq op_and op_or op_assign op_plus_assign op_minus_assign : Kind
  op_mul_assign op_div_assign op_and_assign op_or_assign op_bit_and op_bit_or op_bit_xor : Kind
  op_bit_not op_bit_shl op_bit_shr : Kind

-- The value of a kind in the C enumeration.
unfoldable pub ordinal : Kind → ℕ
ordinal illegal = 0
ordinal eos = 1
ordinal id = 2
ordinal int = 3
ordinal print_kw = 4
ordinal input_kw = 5
ordinal double = 6
ordinal string = 7
ordinal declare_kw = 8
ordinal function_kw = 9
ordinal scope_kw = 10
ordinal type_kw = 11
ordinal as_kw = 12
ordinal do_kw = 13
ordinal loop_kw = 14
ordinal while_kw = 15
ordinal if_kw = 16
ordinal then_kw = 17
ordinal elseif_kw = 18
ordinal else_kw = 19
ordinal for_kw = 20
ordinal dim_kw = 21
ordinal end_kw = 22
ordinal return_kw = 23
ordinal lbrace = 24
ordinal rbrace = 25
ordinal lparen = 26
ordinal rparen = 27
ordinal lbrack = 28
ordinal rbrack = 29
ordinal colon = 30
ordinal qmark = 31
ordinal semicolon = 32
ordinal comma = 33
ordinal op_dot = 34
ordinal op_lnot = 35
ordinal op_not = 36
ordinal op_fork = 37
ordinal op_plus = 38
ordinal op_incr = 39
ordinal op_minus = 40
ordinal op_decr = 41
ordinal op_mul = 42
ordinal op_div = 43
ordinal op_mod = 44
ordinal op_pow = 45
ordinal op_gt = 46
ordinal op_lt = 47
ordinal op_gte = 48
ordinal op_lte = 49
ordinal op_eq = 50
ordinal op_neq = 51
ordinal op_and = 52
ordinal op_or = 53
ordinal op_assign = 54
ordinal op_plus_assign = 55
ordinal op_minus_assign = 56
ordinal op_mul_assign = 57
ordinal op_div_assign = 58
ordinal op_and_assign = 59
ordinal op_or_assign = 60
ordinal op_bit_and = 61
ordinal op_bit_or = 62
ordinal op_bit_xor = 63
ordinal op_bit_not = 64
ordinal op_bit_shl = 65
ordinal op_bit_shr = 66

-- `a == b` on two kinds.
abbrev pub is_kind : Kind → Kind → Bool
is_kind a b = ordinal a == ordinal b

-- A kind that is one of a list: a chain of `is`, or the labels of a switch.
abbrev pub is_one_of : List Kind → Kind → Bool
is_one_of [] k = false
is_one_of (j ∷ js) k = is_kind k j || is_one_of js k

-- `ifj17_token_strings`
unfoldable pub spelling : Kind → String
spelling illegal = "illegal"
spelling eos = "end-of-source"
spelling id = "id"
spelling int = "int"
spelling print_kw = "print"
spelling input_kw = "input"
spelling double = "double"
spelling string = "string"
spelling declare_kw = "declare"
spelling function_kw = "function"
spelling scope_kw = "scope"
spelling type_kw = "type"
spelling as_kw = "as"
spelling do_kw = "do"
spelling loop_kw = "loop"
spelling while_kw = "while"
spelling if_kw = "if"
spelling then_kw = "then"
spelling elseif_kw = "elseif"
spelling else_kw = "else"
spelling for_kw = "for"
spelling dim_kw = "dim"
spelling end_kw = "end"
spelling return_kw = "return"
spelling lbrace = "{"
spelling rbrace = "}"
spelling lparen = "("
spelling rparen = ")"
spelling lbrack = "["
spelling rbrack = "]"
spelling colon = ":"
spelling qmark = "?"
spelling semicolon = ";"
spelling comma = ","
spelling op_dot = "."
spelling op_lnot = "not"
spelling op_not = "!"
spelling op_fork = "&"
spelling op_plus = "+"
spelling op_incr = "++"
spelling op_minus = "-"
spelling op_decr = "--"
spelling op_mul = "*"
spelling op_div = "/"
spelling op_mod = "%"
spelling op_pow = "**"
spelling op_gt = ">"
spelling op_lt = "<"
spelling op_gte = ">="
spelling op_lte = "<="
spelling op_eq = "=="
spelling op_neq = "<>"
spelling op_and = "&&"
spelling op_or = "||"
spelling op_assign = "="
spelling op_plus_assign = "+="
spelling op_minus_assign = "-="
spelling op_mul_assign = "*="
spelling op_div_assign = "/="
spelling op_and_assign = "&&="
spelling op_or_assign = "||="
spelling op_bit_and = "and"
spelling op_bit_or = "or"
spelling op_bit_xor = "^"
spelling op_bit_not = "~"
spelling op_bit_shl = "<<"
spelling op_bit_shr = ">>"

-- An int of 32 bits, as its bit pattern; the machine's arithmetic wraps.
abbrev pub int_mod : ℕ
int_mod = 4294967296

-- The number that a double holds, as the operations on doubles that made it: the arithmetic
-- itself is the machine's.
pub data Double : Type 0 where
  of_int : ℕ → Double
  div : Double → Double → Double
  mul : Double → Double → Double
  pow : Double → Double → Double

-- The value of `as_int`: a machine word, or a double that C converts to one.
pub data IntValue : Type 0 where
  word : ℕ → IntValue
  truncated : Double → IntValue

-- `ifj17_token_t`: the three values lie side by side, and each keeps its content until it is
-- written again.
pub record Token : Type 0 where
  pub kind : Kind
  pub as_string : Bytes
  pub as_double : Double
  pub as_int : IntValue
