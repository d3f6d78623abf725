-- ===== src/Ast.antt =====
-- src/ast.h and src/ast.c: the nodes of the syntax tree and the functions that make them.
--
-- A pointer to a node is the node; `missing` is a NULL pointer, which a field may hold. An
-- allocation does not fail here. A vector of nodes is a list, to which `push` adds at the end.
use ifj.Prelude.{same, if◌then◌else◌, ℕ, Bool, true, false, Bytes}
use ifj.Token.{Kind, IntValue, Double}

-- The `ifj17_*_node_t` structs, each with its line first and then its fields in the order of
-- the header. `if_node` has its condition, block, else block and else-ifs, a binary operation
-- its flag `let` last. The hash table of the keyword arguments of a call is an association
-- list.
mutual
  pub data Node : Type 0 where
    missing : Node
    block_node : ℕ → Nodes → Node
    args_node : ℕ → Nodes → Pairs → Node
    subscript_node : ℕ → Node → Node → Node
    slot_node : ℕ → Node → Node → Node
    unary_op_node : ℕ → Kind → Node → Bool → Node
    binary_op_node : ℕ → Kind → Node → Node → Bool → Node
    int_node : ℕ → IntValue → Node
    double_node : ℕ → Double → Node
    id_node : ℕ → Bytes → Node
    decl_node : ℕ → Nodes → Node → Node
    dim_node : ℕ → Nodes → Node
    string_node : ℕ → Bytes → Node
    array_node : ℕ → Nodes → Node
    hash_pair_node : ℕ → Node → Node → Node
    hash_node : ℕ → Nodes → Node
    call_node : ℕ → Node → Node → Node
    scope_node : ℕ → Node → Node
    declare_node : ℕ → Bytes → Node → Nodes → Node
    function_node : ℕ → Bytes → Node → Node → Nodes → Node
    type_node : ℕ → Bytes → Nodes → Node
    if_node : ℕ → Node → Node → Node → Nodes → Node
    while_node : ℕ → Node → Node → Node
    return_node : ℕ → Node → Node
    print_node : ℕ → Nodes → Node
    input_node : ℕ → Node → Node

  pub data Nodes : Type 0 where
    nil : Nodes
    cons : Node → Nodes → Nodes

  pub data Pairs : Type 0 where
    no_pairs : Pairs
    pair : Bytes → Node → Pairs → Pairs

-- `ifj17_vec_push`
abbrev pub push : Nodes → Node → Nodes
push nil n = cons n nil
push (cons m ms) n = cons m (push ms n)

-- `ifj17_hash_set`
abbrev pub set : Pairs → Bytes → Node → Pairs
set no_pairs k v = pair k v no_pairs
set (pair j w ps) k v = if same j k then pair j v ps else pair j w (set ps k v)

-- The pointer is not NULL.
abbrev pub is_node : Node → Bool
is_node missing = false
is_node _ = true

-- The constructors of src/ast.c.
abbrev pub block_node_new : ℕ → Node
block_node_new line = block_node line nil

abbrev pub args_node_new : ℕ → Node
args_node_new line = args_node line nil no_pairs

abbrev pub int_node_new : IntValue → ℕ → Node
int_node_new val line = int_node line val

abbrev pub double_node_new : Double → ℕ → Node
double_node_new val line = double_node line val

abbrev pub id_node_new : Bytes → ℕ → Node
id_node_new val line = id_node line val

abbrev pub decl_node_new : Nodes → Node → ℕ → Node
decl_node_new vec type line = decl_node line vec type

abbrev pub dim_node_new : Nodes → ℕ → Node
dim_node_new vec line = dim_node line vec

abbrev pub string_node_new : Bytes → ℕ → Node
string_node_new val line = string_node line val

abbrev pub call_node_new : Node → ℕ → Node
call_node_new expr line = call_node line expr (args_node_new line)

abbrev pub subscript_node_new : Node → Node → ℕ → Node
subscript_node_new left right line = subscript_node line left right

abbrev pub slot_node_new : Node → Node → ℕ → Node
slot_node_new left right line = slot_node line left right

abbrev pub unary_op_node_new : Kind → Node → Bool → ℕ → Node
unary_op_node_new op expr postfix line = unary_op_node line op expr postfix

abbrev pub binary_op_node_new : Kind → Node → Node → ℕ → Node
binary_op_node_new op left right line = binary_op_node line op left right false

abbrev pub array_node_new : ℕ → Node
array_node_new line = array_node line nil

abbrev pub hash_pair_node_new : ℕ → Node
hash_pair_node_new line = hash_pair_node line missing missing

abbrev pub hash_node_new : ℕ → Node
hash_node_new line = hash_node line nil

-- NULL for a block that is NULL.
abbrev pub scope_node_new : Node → ℕ → Node
scope_node_new missing line = missing
scope_node_new block line = scope_node line block

abbrev pub declare_node_new : Bytes → Node → Nodes → ℕ → Node
declare_node_new name type params line = declare_node line name type params

abbrev pub function_node_new : Bytes → Node → Node → Nodes → ℕ → Node
function_node_new name type block params line = function_node line name type block params

abbrev pub type_node_new : Bytes → ℕ → Node
type_node_new name line = type_node line name nil

abbrev pub if_node_new : Node → Node → ℕ → Node
if_node_new expr block line = if_node line expr block missing nil

abbrev pub while_node_new : Node → Node → ℕ → Node
while_node_new expr block line = while_node line expr block

abbrev pub return_node_new : Node → ℕ → Node
return_node_new expr line = return_node line expr

abbrev pub print_node_new : Nodes → ℕ → Node
print_node_new params line = print_node line params

abbrev pub input_node_new : Node → ℕ → Node
input_node_new param line = input_node line param
