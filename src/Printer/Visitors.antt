-- ===== src/Printer/Visitors.antt =====
-- The visitors of src/prettyprint.c, with the visits of a node's children as arguments.
use ifj.Prelude.{Bool, true, false, List, [], ◌∷◌, Bytes, codes, if◌then◌else◌}
use ifj.Token.{Kind, IntValue, Double, spelling}
use ifj.Printer.Inspect.{inspect}
use ifj.Printer.Output.{
  lit, str, dec, real, M, ◌>>◌, skip, print, text, when, indent, indented, break_outside,
}

-- One round of the loop in `visit_block`; the flag is set in the first round.
abbrev pub visit_stmt : Bool → M → M
visit_stmt first stmt =
    when (if first then false else true) (text "\n") >> indent >> stmt >> break_outside

abbrev pub visit_int : IntValue → M
visit_int val = print (lit "(int " ∷ dec val ∷ lit ")" ∷ [])

abbrev pub visit_double : Double → M
visit_double val = print (lit "(double " ∷ real val ∷ lit ")" ∷ [])

abbrev pub visit_id : Bytes → M
visit_id val = print (lit "(id " ∷ str val ∷ lit ")" ∷ [])

-- `visit_decl`; `typed` if there is a type.
abbrev pub visit_decl : M → Bool → M → M
visit_decl names typed type =
    text "(decl"
    >> indented (names >> when typed (text "\n" >> indent >> text ": " >> type) >> text ")")

-- One round of the loop in `visit_dim`; `given` if there is a value.
abbrev pub visit_item : M → Bool → M → M
visit_item left given right =
    text "\n" >> indent >> left >> when given (text "\n" >> indent >> text " = " >> right)

abbrev pub visit_dim : M → M
visit_dim items = text "(dim" >> indented (items >> text ")")

abbrev pub visit_string : Bytes → M
visit_string val = print (lit "(string '" ∷ str (inspect val) ∷ lit "')" ∷ [])

abbrev pub visit_unary_op : Bool → Kind → M → M
visit_unary_op true op expr =
    text "(" >> expr >> print (lit " " ∷ str (codes (spelling op)) ∷ []) >> text ")"
visit_unary_op false op expr =
    text "(" >> print (str (codes (spelling op)) ∷ lit " " ∷ []) >> expr >> text ")"

abbrev pub visit_binary_op : Bool → Kind → M → M → M
visit_binary_op let_op op left right =
    print (lit (if let_op then "(let " else "(") ∷ str (codes (spelling op)) ∷ lit " " ∷ [])
    >> left
    >> text " "
    >> right
    >> text ")"

abbrev pub visit_array : M → M
visit_array items = text "(array\n" >> indented items >> text ")"

-- One round of the loop in `visit_hash`.
abbrev pub visit_pair : M → M → M
visit_pair key val = indent >> key >> text ": " >> val >> text "\n"

abbrev pub visit_hash : M → M
visit_hash pairs = text "(hash\n" >> indented pairs >> text ")"

abbrev pub visit_subscript : M → M → M
visit_subscript left right =
    text "(subscript\n" >> indented (indent >> left >> text "\n" >> indent >> right) >> text ")"

abbrev pub visit_slot : M → M → M
visit_slot left right =
    text "(slot\n" >> indented (indent >> left >> text "\n" >> indent >> right) >> text ")"

-- `visit_call`, with what it does for the arguments.
abbrev pub visit_call : M → M → M
visit_call expr arguments = text "(call\n" >> indented (indent >> expr >> arguments) >> text ")"

-- The loop over the keyword arguments in `visit_call`.
abbrev pub print_slots : List (Bytes × M) → M
print_slots [] = skip
print_slots ((slot, m) ∷ ps) = print (lit " " ∷ str slot ∷ lit ": " ∷ []) >> m >> print_slots ps

-- The arguments in `visit_call`: the keyword ones are printed only behind positional ones.
abbrev pub print_args : Bool → M → List (Bytes × M) → M
print_args filled arguments slots =
    when filled (text "\n" >> indent >> arguments >> print_slots slots)

abbrev pub visit_scope : M → M
visit_scope block = text "(scope ->" >> indented (text "\n" >> block) >> text ")"

-- `visit_declare`; `typed` if there is a type.
abbrev pub visit_declare : Bytes → Bool → M → M → M
visit_declare name typed type params =
    text "(declare"
    >> text "\n"
    >> indented (
        indent
        >> print (lit "(function " ∷ str name ∷ lit " -> " ∷ [])
        >> when typed type
        >> params)
    >> text "))"

abbrev pub visit_function : Bytes → Bool → M → M → M → M
visit_function name typed type params block =
    print (lit "(function " ∷ str name ∷ lit " -> " ∷ [])
    >> indented (when typed type >> params)
    >> text "\n"
    >> indented block
    >> text ")"

abbrev pub visit_print : M → M
visit_print params = text "(print" >> indented params >> text ")"

abbrev pub visit_input : M → M
visit_input param = text "(input" >> indented param >> text ")"

abbrev pub visit_type : Bytes → M → M
visit_type name fields = print (lit "(type " ∷ str name ∷ []) >> indented fields >> text ")"

abbrev pub visit_while : M → M → M
visit_while expr block = text "(while " >> expr >> indented (text "\n" >> block) >> text ")"

-- `visit_return`; `given` if there is an expression.
abbrev pub visit_return : Bool → M → M
visit_return given expr =
    text "(return" >> when given (indented (text "\n" >> indent >> expr)) >> text ")"

-- One round of the loop in `visit_if`.
abbrev pub visit_else_if : M → M → M
visit_else_if expr block =
    text "\n" >> indent >> text "(else if " >> expr >> indented (text "\n" >> block) >> text ")"

-- `visit_if`; `has_else` if there is an else block.
abbrev pub visit_if : M → M → M → Bool → M → M
visit_if expr block else_ifs has_else else_block =
    text "(if "
    >> expr
    >> indented (text "\n" >> block)
    >> text ")"
    >> else_ifs
    >> when has_else (text "\n" >> indent >> text "(else\n" >> indented else_block >> text ")")
