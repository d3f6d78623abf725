-- ===== src/Lexer/Ident.antt =====
-- `scan_ident` of src/lexer.c: identifiers and keywords.
use Prim.Native.String.{String}
use ifj.Prelude.{
  ℕ, true, List, [], ◌∷◌, map, Option, none, some, Bytes, length, same, codes, ltb, if◌then◌else◌,
  overrun, overflow, Result, ok, err,
}
use ifj.Token.{
  Kind, id, if_kw, op_bit_or, as_kw, do_kw, for_kw, end_kw, dim_kw, op_bit_and, op_lnot, else_kw,
  type_kw, then_kw, loop_kw, while_kw, scope_kw, print_kw, input_kw, elseif_kw, return_kw,
  declare_kw, function_kw,
}
use ifj.Lexer.State.{Lexer, Step, stop, fault, emit}
use ifj.Lexer.Chars.{is_word, to_lower}

abbrev pub stored : ℕ → Result (Bytes × Bytes) → Result (Bytes × Bytes)
stored c (ok (w, left)) = ok (c ∷ w, left)
stored c (err e) = err e

-- The loop from its second round on: the bytes stored, and what is left once the byte that
-- ends the identifier is put back.
unfoldable pub read_word : Bytes → Result (Bytes × Bytes)
read_word [] = err overrun
read_word (c ∷ cs) = if is_word c then stored c (read_word cs) else ok ([], c ∷ cs)

-- The `switch` over the length and the comparisons in it.
abbrev pub keywords : List (String × Kind)
keywords =
    ("if", if_kw)
    ∷ ("or", op_bit_or)
    ∷ ("as", as_kw)
    ∷ ("do", do_kw)
    ∷ ("for", for_kw)
    ∷ ("end", end_kw)
    ∷ ("dim", dim_kw)
    ∷ ("and", op_bit_and)
    ∷ ("not", op_lnot)
    ∷ ("else", else_kw)
    ∷ ("type", type_kw)
    ∷ ("then", then_kw)
    ∷ ("loop", loop_kw)
    ∷ ("while", while_kw)
    ∷ ("scope", scope_kw)
    ∷ ("print", print_kw)
    ∷ ("input", input_kw)
    ∷ ("elseif", elseif_kw)
    ∷ ("return", return_kw)
    ∷ ("declare", declare_kw)
    ∷ ("function", function_kw)
    ∷ []

unfoldable pub find_keyword : List (String × Kind) → Bytes → Option Kind
find_keyword [] w = none
find_keyword ((s, k) ∷ table) w = if same (codes s) w then some k else find_keyword table w

abbrev pub keyword : Bytes → Option Kind
keyword = find_keyword keywords

-- `char buf[128]`
abbrev pub buf_size : ℕ
buf_size = 128

-- Behind the loop. The lower-casing loop of the program runs up to the first zero of `buf`,
-- whose terminator is stored only afterwards: what it does to the bytes behind the identifier
-- has no effect on the token, and is not modelled.
unfoldable pub finish_ident : Lexer → Bytes → Bytes → Step
finish_ident l word rest =
    let buf = map to_lower word in
    if ltb (length word) buf_size
    then elim (keyword buf) [
      | some k ↦ emit k l rest
      | none ↦
          stop true (record l { rest = rest; tok = record (l.tok) { kind = id; as_string = buf } })
    ]
    else fault overflow

-- `scan_ident` at the byte `c`, with `cs` behind it.
unfoldable pub scan_ident : Lexer → ℕ → Bytes → Step
scan_ident l c cs = elim (read_word cs) [
  | ok (w, rest) ↦ finish_ident l (c ∷ w) rest
  | err e ↦ fault e
]
