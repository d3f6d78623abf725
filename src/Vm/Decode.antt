-- ===== src/Vm/Decode.antt =====
-- src/opcodes.h, and the macros of src/vm.h that take an instruction apart.
use Prim.Native.Nat.{◌/◌}
use ifj.Prelude.{ℕ, zero, suc, ◌+◌, ◌*◌, ◌%◌, ◌<◌, ◌≡◌, arith, List, [], ◌∷◌, Option, none, some}

-- `ifj17_op_t`
pub data Op : Type 0 where
  halt jmp loadk loadb move eq lt lte add sub div mul mod_op pow negate : Op
  bit_shl bit_shr bit_and bit_or bit_xor : Op

-- `IFJ17_OP_LIST`
abbrev pub ops : List Op
ops =
    halt ∷ jmp ∷ loadk ∷ loadb ∷ move ∷ eq ∷ lt ∷ lte ∷ add ∷ sub ∷ div ∷ mul ∷ mod_op ∷ pow
    ∷ negate ∷ bit_shl ∷ bit_shr ∷ bit_and ∷ bit_or ∷ bit_xor ∷ []

unfoldable pub nth_op : List Op → ℕ → Option Op
nth_op [] n = none
nth_op (o ∷ os) zero = some o
nth_op (o ∷ os) (suc n) = nth_op os n

-- `OP(i)`, `A(i)`, `B(i)` and `C(i)` of a word of 32 bits.
abbrev pub opcode : ℕ → ℕ
opcode i = i / 16777216 % 256

abbrev pub operand_a : ℕ → ℕ
operand_a i = i / 65536 % 256

abbrev pub operand_b : ℕ → ℕ
operand_b i = i / 256 % 256

abbrev pub operand_c : ℕ → ℕ
operand_c i = i % 256

-- The operation that a word names, if it names one.
abbrev pub operation : ℕ → Option Op
operation i = nth_op ops (opcode i)

-- `ABC(op, a, b, c)` for operands of a byte each: the `|` of the shifted fields is their sum.
abbrev pub abc : ℕ → ℕ → ℕ → ℕ → ℕ
abc op a b c = op * 16777216 + a * 65536 + b * 256 + c

-- Every word of 32 bits is the instruction of its four fields.
pub abc-fields :
    (i : ℕ) → i < 4294967296 → abc (opcode i) (operand_a i) (operand_b i) (operand_c i) ≡ i
abc-fields i h = omega arith

-- The fields of an instruction that is made of four bytes are these bytes.
pub fields-abc :
    (op a b c : ℕ)
    → op < 256
    → a < 256
    → b < 256
    → c < 256
    → (opcode (abc op a b c) ≡ op)
      × (operand_a (abc op a b c) ≡ a)
      × (operand_b (abc op a b c) ≡ b)
      × (operand_c (abc op a b c) ≡ c)
fields-abc op a b c p q r s = (omega arith, omega arith, omega arith, omega arith)
