-- ===== src/Vm/Eval.antt =====
-- `ifj17_eval` of src/vm.c.
--
-- A register and a constant hold an int as its bit pattern of 32 bits; the arithmetic wraps. An
-- access outside the code, the constants or the 32 registers is the fault `bad_access`. What
-- the instructions print is left out.
use Prim.Native.Nat.{◌/◌}
use ifj.Prelude.{
  ℕ, zero, suc, ◌+◌, ◌-◌, ◌*◌, ◌%◌, Bool, ◌&&◌, List, [], ◌∷◌, Option, none, some, length, ltb, leb,
  ◌==◌, if◌then◌else◌, bad_access, div_zero, overflow, no_fuel, Result, ok, err, bind,
}
use ifj.Token.{int_mod}
use ifj.Vm.Decode.{
  Op, halt, jmp, loadk, loadb, lt, lte, add, sub, div, mul, mod_op, pow, negate, operation,
  operand_a, operand_b, operand_c,
}

-- `ifj17_activation_t`, but for its `ip`.
pub record Activation : Type 0 where
  pub code : List ℕ
  pub constants : List ℕ

-- The local variables of `ifj17_eval`: `ip` as an index into the code.
pub record Machine : Type 0 where
  pub ip : ℕ
  pub registers : List ℕ

-- `a[n]` and `a[n] = v`
unfoldable pub read : List ℕ → ℕ → Result ℕ
read [] n = err bad_access
read (x ∷ xs) zero = ok x
read (x ∷ xs) (suc n) = read xs n

unfoldable pub write : List ℕ → ℕ → ℕ → Result (List ℕ)
write [] n v = err bad_access
write (x ∷ xs) zero v = ok (v ∷ xs)
write (x ∷ xs) (suc n) v = bind (write xs n v) λ ys. ok (x ∷ ys)

abbrev pub register_count : ℕ
register_count = 32

-- `K(n)`
unfoldable pub constant : Activation → ℕ → Result ℕ
constant vm n =
    if ltb n register_count then err bad_access else read vm.constants (n - register_count)

-- `RK(n)`
unfoldable pub register_or_constant : Activation → Machine → ℕ → Result ℕ
register_or_constant vm m n = if ltb n register_count then read m.registers n else constant vm n

-- An int with the sign bit set is negative.
abbrev pub is_negative : ℕ → Bool
is_negative x = leb 2147483648 x

abbrev pub minus : ℕ → ℕ
minus x = (int_mod - x) % int_mod

abbrev pub magnitude : ℕ → ℕ
magnitude x = if is_negative x then int_mod - x else x

-- Negative numbers come first: the bit patterns with the sign bit turned over are in order.
abbrev pub order : ℕ → ℕ
order x = (x + 2147483648) % int_mod

abbrev pub same_sign : ℕ → ℕ → Bool
same_sign x y = if is_negative x then is_negative y else leb y 2147483647

-- `/` and `%` on ints: both trap on zero, and on the least int by -1.
unfoldable pub divides : (ℕ → ℕ → ℕ) → ℕ → ℕ → Result ℕ
divides f x y =
    if y == 0
    then err div_zero
    else if x == 2147483648 && y == int_mod - 1
    then err overflow
    else ok (f x y)

-- The quotient is rounded towards zero.
abbrev pub quotient : ℕ → ℕ → ℕ
quotient x y = let q = magnitude x / magnitude y in if same_sign x y then q else minus q

-- The remainder has the sign of the dividend.
abbrev pub remainder : ℕ → ℕ → ℕ
remainder x y = let r = magnitude x % magnitude y in if is_negative x then minus r else r

abbrev pub zeros : ℕ → List ℕ
zeros zero = []
zeros (suc n) = 0 ∷ zeros n

-- The start of `ifj17_eval`.
abbrev pub machine_init : Machine
machine_init = record { ip = 0; registers = zeros register_count }

-- What an instruction leads to.
pub data Outcome : Type 0 where
  goes_on : Machine → Outcome
  halts : ℕ → Outcome

-- `R(A(i)) = v`
unfoldable pub assign : Machine → ℕ → Result ℕ → Result Outcome
assign m i r =
    bind r
      λ v. bind (write m.registers (operand_a i) v) λ rs. ok (goes_on (record m { registers = rs }))

-- `RK(B(i))` and `RK(C(i))`
unfoldable pub operands {ℓ} :
    {A : Type ℓ} → Activation → Machine → ℕ → (ℕ → ℕ → Result A) → Result A
operands vm m i f =
    bind (register_or_constant vm m (operand_b i))
      λ x. bind (register_or_constant vm m (operand_c i)) λ y. f x y

abbrev pub skip : Machine → ℕ → Machine
skip m n = record m { ip = m.ip + n }

-- `if (x < y) ip++;`, in either order
abbrev pub skip_if : Machine → Bool → Outcome
skip_if m b = goes_on (skip m (if b then 1 else 0))

-- The `switch`, with `ip` behind the instruction `i`. The operations that have no case, and the
-- words that name none, do nothing.
unfoldable pub execute : Activation → Machine → ℕ → Option Op → Result Outcome
execute vm m i (some halt) = bind (read m.registers 0) λ v. ok (halts v)
execute vm m i (some jmp) = ok (goes_on (skip m (operand_b i)))
execute vm m i (some loadk) = assign m i (constant vm (operand_b i))
execute vm m i (some loadb) =
    assign (skip m (if operand_c i == 0 then 0 else 1)) i (constant vm (operand_b i))
execute vm m i (some add) = assign m i (operands vm m i λ x y. ok ((x + y) % int_mod))
execute vm m i (some sub) = assign m i (operands vm m i λ x y. ok ((x + (int_mod - y)) % int_mod))
execute vm m i (some div) = assign m i (operands vm m i (divides quotient))
execute vm m i (some mul) = assign m i (operands vm m i λ x y. ok (x * y % int_mod))
execute vm m i (some mod_op) = assign m i (operands vm m i (divides remainder))
execute vm m i (some negate) = assign m i (bind (read m.registers (operand_b i)) λ x. ok (minus x))
execute vm m i (some lt) = operands vm m i λ x y. ok (skip_if m (ltb (order x) (order y)))
execute vm m i (some lte) = operands vm m i λ x y. ok (skip_if m (leb (order x) (order y)))
execute vm m i _ = ok (goes_on m)

-- One round of the loop.
unfoldable pub round : Activation → Machine → Result Outcome
round vm m = bind (read vm.code m.ip) λ i. execute vm (skip m 1) i (operation i)

-- The loop, a unit of fuel for each round.
unfoldable pub rounds : ℕ → Activation → Machine → Result ℕ
rounds zero vm m = err no_fuel
rounds (suc f) vm m = elim (round vm m) [
  | ok (goes_on m') ↦ rounds f vm m'
  | ok (halts v) ↦ ok v
  | err e ↦ err e
]

-- The loop of `ifj17_eval`: no instruction moves `ip` back, so the length of the code bounds the
-- rounds.
unfoldable pub run : Activation → Result ℕ
run vm = rounds (suc (length vm.code)) vm machine_init

-- `RK(B(i))` and `RK(C(i))` in `ifj17_dump`, whose registers are all zero, behind the operands
-- themselves.
abbrev pub dump_values : Activation → ℕ → Result (List ℕ)
dump_values vm i =
    operands vm machine_init i λ x y. ok (operand_a i ∷ operand_b i ∷ operand_c i ∷ x ∷ y ∷ [])

-- The `switch` of `ifj17_dump`: the numbers that it prints behind the operation.
unfoldable pub dump_line : Activation → ℕ → Op → Result (List ℕ)
dump_line vm i jmp = ok (operand_b i ∷ [])
dump_line vm i loadk = bind (constant vm (operand_b i)) λ k. ok (operand_a i ∷ operand_b i ∷ k ∷ [])
dump_line vm i loadb = bind (constant vm (operand_b i)) λ k. ok (operand_a i ∷ operand_b i ∷ k ∷ [])
dump_line vm i add = dump_values vm i
dump_line vm i sub = dump_values vm i
dump_line vm i div = dump_values vm i
dump_line vm i mul = dump_values vm i
dump_line vm i mod_op = dump_values vm i
dump_line vm i pow = dump_values vm i
dump_line vm i lt = dump_values vm i
dump_line vm i lte = dump_values vm i
dump_line vm i _ = ok []

-- The loop of `ifj17_dump`, from a place in the code on: it goes on to the first HALT, and looks
-- the name of every operation up.
unfoldable pub dump : Activation → List ℕ → Result (List (Op × List ℕ))
dump vm [] = err bad_access
dump vm (i ∷ code) = elim (operation i) [
  | none ↦ err bad_access
  | some halt ↦ ok ((halt, []) ∷ [])
  | some op ↦ bind (dump_line vm i op) λ ns. bind (dump vm code) λ lines. ok ((op, ns) ∷ lines)
]

-- `ifj17_eval`: the code is listed, and then run; the value is that of the first register at the
-- end.
unfoldable pub eval : Activation → Result ℕ
eval vm = bind (dump vm vm.code) λ lines. run vm
