-- ===== src/Printer/Pieces.antt =====
-- What each visitor of src/prettyprint.c prints, by what the visits of the children print.
use ifj.Prelude.{◌≡◌, refl, arith, Bool, true, false, List, [], ◌∷◌, Bytes, codes, if◌then◌else◌}
use ifj.Token.{Kind, spelling}
use ifj.Printer.Output.{indent, ◌>>◌, lit, str, M, text}
use ifj.Printer.Visitors.{
  visit_stmt, visit_decl, visit_item, visit_dim, visit_unary_op, visit_binary_op, visit_array,
  visit_pair, visit_hash, visit_subscript, visit_slot, visit_call, print_args, visit_scope,
  visit_declare, visit_function, visit_print, visit_input, visit_type, visit_while, visit_return,
  visit_else_if, visit_if,
}
use ifj.Printer.Balance.{
  brackets, Prints, printed, ◌>>>◌, when-Prints, spaced, deeper, within, broken_outside,
}
use ifj.Printer.Brackets.{Every, PrintsSlot, level, opening, close, opening_op, print_slots-Prints}

pub visit_subscript-Prints :
    {l r : M} → Prints 0 0 l → Prints 0 0 r → Prints 0 0 (visit_subscript l r)
unfolding brackets
visit_subscript-Prints x y =
    opening 0 (lit "(subscript\n" ∷ []) (λ d. refl)
    >>> deeper
        (spaced >>> within 1 x >>> level (lit "\n" ∷ []) (λ d. refl) >>> spaced >>> within 1 y)
    >>> close 0

pub visit_slot-Prints : {l r : M} → Prints 0 0 l → Prints 0 0 r → Prints 0 0 (visit_slot l r)
unfolding brackets
visit_slot-Prints x y =
    opening 0 (lit "(slot\n" ∷ []) (λ d. refl)
    >>> deeper
        (spaced >>> within 1 x >>> level (lit "\n" ∷ []) (λ d. refl) >>> spaced >>> within 1 y)
    >>> close 0

pub visit_unary_op-Prints :
    (postfix : Bool) (op : Kind) {m : M} → Prints 0 0 m → Prints 0 0 (visit_unary_op postfix op m)
unfolding brackets
visit_unary_op-Prints true op x =
    opening 0 (lit "(" ∷ []) (λ d. refl)
    >>> within 1 x
    >>> level (lit " " ∷ str (codes (spelling op)) ∷ []) (λ d. refl)
    >>> close 0
visit_unary_op-Prints false op x =
    opening 0 (lit "(" ∷ []) (λ d. refl)
    >>> level (str (codes (spelling op)) ∷ lit " " ∷ []) (λ d. refl)
    >>> within 1 x
    >>> close 0

pub visit_binary_op-Prints :
    (let_op : Bool) (op : Kind) {l r : M}
    → Prints 0 0 l
    → Prints 0 0 r
    → Prints 0 0 (visit_binary_op let_op op l r)
unfolding brackets
visit_binary_op-Prints let_op op x y =
    opening_op let_op op
    >>> within 1 x
    >>> level (lit " " ∷ []) (λ d. refl)
    >>> within 1 y
    >>> close 0

pub visit_decl-Prints :
    {names type : M} (typed : Bool)
    → Prints 0 0 names
    → (typed ≡ true → Prints 0 0 type)
    → Prints 0 0 (visit_decl names typed type)
unfolding brackets
visit_decl-Prints typed x y =
    opening 0 (lit "(decl" ∷ []) (λ d. refl)
    >>> deeper (
        within 1 x
        >>> when-Prints typed (λ e.
          level (lit "\n" ∷ []) (λ d. refl)
          >>> spaced
          >>> level (lit ": " ∷ []) (λ d. refl)
          >>> within 1 (y e))
        >>> close 0)

pub visit_item-Prints :
    {l r : M} (given : Bool)
    → Prints 0 0 l
    → (given ≡ true → Prints 0 0 r)
    → Prints 0 0 (visit_item l given r)
unfolding brackets
visit_item-Prints given x y =
    level (lit "\n" ∷ []) (λ d. refl)
    >>> spaced
    >>> x
    >>> when-Prints given (λ e.
      level (lit "\n" ∷ []) (λ d. refl) >>> spaced >>> level (lit " = " ∷ []) (λ d. refl) >>> y e)

pub visit_dim-Prints : {m : M} → Prints 0 0 m → Prints 0 0 (visit_dim m)
unfolding brackets
visit_dim-Prints x = opening 0 (lit "(dim" ∷ []) (λ d. refl) >>> deeper (within 1 x >>> close 0)

pub visit_array-Prints : {m : M} → Prints 0 0 m → Prints 0 0 (visit_array m)
unfolding brackets
visit_array-Prints x =
    opening 0 (lit "(array\n" ∷ []) (λ d. refl) >>> deeper (within 1 x) >>> close 0

pub visit_hash-Prints : {m : M} → Prints 0 0 m → Prints 0 0 (visit_hash m)
unfolding brackets
visit_hash-Prints x = opening 0 (lit "(hash\n" ∷ []) (λ d. refl) >>> deeper (within 1 x) >>> close 0

pub visit_print-Prints : {m : M} → Prints 0 0 m → Prints 0 0 (visit_print m)
unfolding brackets
visit_print-Prints x = opening 0 (lit "(print" ∷ []) (λ d. refl) >>> deeper (within 1 x) >>> close 0

pub visit_input-Prints : {m : M} → Prints 0 0 m → Prints 0 0 (visit_input m)
unfolding brackets
visit_input-Prints x = opening 0 (lit "(input" ∷ []) (λ d. refl) >>> deeper (within 1 x) >>> close 0

pub visit_type-Prints : (name : Bytes) {m : M} → Prints 0 0 m → Prints 0 0 (visit_type name m)
unfolding brackets
visit_type-Prints name x =
    opening 0 (lit "(type " ∷ str name ∷ []) (λ d. refl) >>> deeper (within 1 x) >>> close 0

pub visit_pair-Prints : {k v : M} → Prints 0 0 k → Prints 0 0 v → Prints 0 0 (visit_pair k v)
unfolding brackets
visit_pair-Prints x y =
    spaced >>> x >>> level (lit ": " ∷ []) (λ d. refl) >>> y >>> level (lit "\n" ∷ []) (λ d. refl)

pub visit_call-Prints :
    {callee args : M} → Prints 0 0 callee → Prints 0 0 args → Prints 0 0 (visit_call callee args)
unfolding brackets
visit_call-Prints x y =
    opening 0 (lit "(call\n" ∷ []) (λ d. refl)
    >>> deeper (spaced >>> within 1 x >>> within 1 y)
    >>> close 0

pub print_args-Prints :
    (filled : Bool) {m : M} (ps : List (Bytes × M))
    → (filled ≡ true → Prints 0 0 m × Every PrintsSlot ps)
    → Prints 0 0 (print_args filled m ps)
unfolding brackets
print_args-Prints filled ps x = when-Prints filled (λ e.
    level (lit "\n" ∷ []) (λ d. refl) >>> spaced >>> (x e).0 >>> print_slots-Prints ps (x e).1)

pub visit_scope-Prints : {m : M} → Prints 0 0 m → Prints 0 0 (visit_scope m)
unfolding brackets
visit_scope-Prints x =
    opening 0 (lit "(scope ->" ∷ []) (λ d. refl)
    >>> deeper (level (lit "\n" ∷ []) (λ d. refl) >>> within 1 x)
    >>> close 0

pub visit_declare-Prints :
    (name : Bytes) {type params : M} (typed : Bool)
    → (typed ≡ true → Prints 0 0 type)
    → Prints 0 0 params
    → Prints 0 0 (visit_declare name typed type params)
unfolding brackets
visit_declare-Prints name typed x y =
    opening 0 (lit "(declare" ∷ []) (λ d. refl)
    >>> level (lit "\n" ∷ []) (λ d. refl)
    >>> deeper (
        spaced
        >>> opening 1 (lit "(function " ∷ str name ∷ lit " -> " ∷ []) (λ d. refl)
        >>> when-Prints typed (λ e. within 2 (x e))
        >>> within 2 y)
    >>> printed {a = 2} {b = 0} (lit "))" ∷ []) (λ k. ground arith)

pub visit_function-Prints :
    (name : Bytes) {type params block : M} (typed : Bool)
    → (typed ≡ true → Prints 0 0 type)
    → Prints 0 0 params
    → Prints 0 0 block
    → Prints 0 0 (visit_function name typed type params block)
unfolding brackets
visit_function-Prints name typed x y z =
    opening 0 (lit "(function " ∷ str name ∷ lit " -> " ∷ []) (λ d. refl)
    >>> deeper (when-Prints typed (λ e. within 1 (x e)) >>> within 1 y)
    >>> level (lit "\n" ∷ []) (λ d. refl)
    >>> deeper (within 1 z)
    >>> close 0

pub visit_while-Prints :
    {cond block : M} → Prints 0 0 cond → Prints 0 0 block → Prints 0 0 (visit_while cond block)
unfolding brackets
visit_while-Prints x y =
    opening 0 (lit "(while " ∷ []) (λ d. refl)
    >>> within 1 x
    >>> deeper (level (lit "\n" ∷ []) (λ d. refl) >>> within 1 y)
    >>> close 0

pub visit_return-Prints :
    {m : M} (given : Bool) → (given ≡ true → Prints 0 0 m) → Prints 0 0 (visit_return given m)
unfolding brackets
visit_return-Prints given x =
    opening 0 (lit "(return" ∷ []) (λ d. refl)
    >>> when-Prints given
        (λ e. deeper (level (lit "\n" ∷ []) (λ d. refl) >>> spaced >>> within 1 (x e)))
    >>> close 0

pub visit_else_if-Prints :
    {cond block : M} → Prints 0 0 cond → Prints 0 0 block → Prints 0 0 (visit_else_if cond block)
unfolding brackets
visit_else_if-Prints x y =
    level (lit "\n" ∷ []) (λ d. refl)
    >>> spaced
    >>> opening 0 (lit "(else if " ∷ []) (λ d. refl)
    >>> within 1 x
    >>> deeper (level (lit "\n" ∷ []) (λ d. refl) >>> within 1 y)
    >>> close 0

pub visit_if-Prints :
    {cond block else_ifs else_block : M} (has_else : Bool)
    → Prints 0 0 cond
    → Prints 0 0 block
    → Prints 0 0 else_ifs
    → (has_else ≡ true → Prints 0 0 else_block)
    → Prints 0 0 (visit_if cond block else_ifs has_else else_block)
unfolding brackets
visit_if-Prints has_else x y z u =
    opening 0 (lit "(if " ∷ []) (λ d. refl)
    >>> within 1 x
    >>> deeper (level (lit "\n" ∷ []) (λ d. refl) >>> within 1 y)
    >>> close 0
    >>> z
    >>> when-Prints has_else (λ e.
      level (lit "\n" ∷ []) (λ d. refl)
      >>> spaced
      >>> opening 0 (lit "(else\n" ∷ []) (λ d. refl)
      >>> deeper (within 1 (u e))
      >>> close 0)

pub visit_stmt-Prints : {m : M} (first : Bool) → Prints 0 0 m → Prints 0 0 (visit_stmt first m)
unfolding brackets
visit_stmt-Prints first x =
    when-Prints (if first then false else true) (λ e. level (lit "\n" ∷ []) (λ d. refl))
    >>> spaced
    >>> x
    >>> broken_outside

pub own_line-Prints : {m : M} → Prints 0 0 m → Prints 0 0 (text "\n" >> indent >> m)
unfolding brackets
own_line-Prints x = level (lit "\n" ∷ []) (λ d. refl) >>> spaced >>> x
