-- ===== src/Vm/Valid.antt =====
-- Code that is well formed for the interpreter of src/vm.c, and the accesses that it makes.
use ifj.Prelude.{
  Anything, ℕ, zero, suc, ◌+◌, ◌-◌, ◌<◌, ◌≡◌, arith, Bool, true, false, Bool-cases, inl, inr, ◌&&◌,
  List, [], ◌∷◌, Option, none, some, length, ltb, leb, ◌==◌, if◌then◌else◌, Fault, overflow,
  div_zero, Result, Leads, gives, faults, bind-Leads,
}
use ifj.Vm.Decode.{
  Op, halt, jmp, loadk, loadb, lt, lte, add, sub, div, mul, mod_op, pow, negate, operation,
  operand_a, operand_b, operand_c,
}
use ifj.Vm.Eval.{
  Activation, Machine, read, write, constant, register_or_constant, divides, assign, operands,
  Outcome, goes_on, halts, register_count,
}

-- The two traps of a division.
abbrev pub IsTrap : Fault → Type 0
IsTrap div_zero = Unit
IsTrap overflow = Unit
IsTrap _ = ⊥

-- `divisions` says whether the code may divide.
module _ (divisions : Bool) (vm : Activation) where
  abbrev in_code : ℕ → Bool
  in_code n = ltb n (length vm.code)

  abbrev pub is_register : ℕ → Bool
  is_register n = ltb n register_count

  abbrev pub is_value : ℕ → Bool
  is_value n = ltb n (register_count + length vm.constants)

  abbrev pub is_constant : ℕ → Bool
  is_constant n = leb register_count n && is_value n

  abbrev pub is_binary : ℕ → ℕ → Bool
  is_binary ip i =
      is_register (operand_a i) && is_value (operand_b i) && is_value (operand_c i) && in_code ip

  abbrev pub is_test : ℕ → ℕ → Bool
  is_test ip i = is_value (operand_b i) && is_value (operand_c i) && in_code (ip + 1)

  -- The operands of an instruction are registers and constants where they are used as such, and
  -- each place that it can lead to is in the code. `ip` is the place behind it.
  unfoldable pub is_valid : ℕ → ℕ → Option Op → Bool
  is_valid ip i (some halt) = true
  is_valid ip i (some jmp) = in_code (ip + operand_b i)
  is_valid ip i (some loadk) = is_register (operand_a i) && is_constant (operand_b i) && in_code ip
  is_valid ip i (some loadb) =
      is_register (operand_a i)
      && is_constant (operand_b i)
      && in_code (ip + (if operand_c i == 0 then 0 else 1))
  is_valid ip i (some add) = is_binary ip i
  is_valid ip i (some sub) = is_binary ip i
  is_valid ip i (some div) = divisions && is_binary ip i
  is_valid ip i (some mul) = is_binary ip i
  is_valid ip i (some mod_op) = divisions && is_binary ip i
  is_valid ip i (some negate) = is_register (operand_a i) && is_register (operand_b i) && in_code ip
  is_valid ip i (some lt) = is_test ip i
  is_valid ip i (some lte) = is_test ip i
  is_valid ip i (some pow) = is_value (operand_b i) && is_value (operand_c i) && in_code ip
  is_valid ip i none = false
  is_valid ip i _ = in_code ip

  -- The instructions from the place `n` on are valid.
  abbrev pub ValidFrom : ℕ → List ℕ → Type 0
  ValidFrom n [] = Unit
  ValidFrom n (i ∷ code) = (is_valid (n + 1) i (operation i) ≡ true) × ValidFrom (n + 1) code

  -- The next instruction is in the code, and the registers are all there.
  abbrev pub Inside : Machine → Type 0
  Inside m = (m.ip < length vm.code) × (length m.registers ≡ register_count)

  abbrev pub StaysInside : Outcome → Type 0
  StaysInside (goes_on m) = Inside m
  StaysInside (halts v) = Unit

module _ {E : Fault → Type 0} (divisions : Bool) where
  pub read-Leads-Inside : (xs : List ℕ) (n : ℕ) → n < length xs → Leads E Anything (read xs n)
  unfolding read
  read-Leads-Inside [] n h = absurd (omega arith)
  read-Leads-Inside (x ∷ xs) zero h = gives tt
  read-Leads-Inside (x ∷ xs) (suc n) h = read-Leads-Inside xs n (omega arith)

  write-Leads-Inside :
      (xs : List ℕ) (n v : ℕ) → n < length xs → Leads E (λ ys. length ys ≡ length xs) (write xs n v)
  unfolding write
  write-Leads-Inside [] n v h = absurd (omega arith)
  write-Leads-Inside (x ∷ xs) zero v h = gives (omega arith)
  write-Leads-Inside (x ∷ xs) (suc n) v h =
      bind-Leads (write xs n v) _ (write-Leads-Inside xs n v (omega arith))
        λ ys e. gives (omega arith)

  pub constant-Leads-Inside :
      (vm : Activation) (n : ℕ)
      → is_constant divisions vm n ≡ true
      → Leads E Anything (constant vm n)
  unfolding constant
  constant-Leads-Inside vm n h = elim (Bool-cases (ltb n register_count)) [
    | inl e ↦ absurd (ground arith)
    | inr e ↦ rw e (read-Leads-Inside vm.constants (n - register_count) (ground arith))
  ]

  pub register_or_constant-Leads-Inside :
      (vm : Activation) (m : Machine) (n : ℕ)
      → length m.registers ≡ register_count
      → is_value divisions vm n ≡ true
      → Leads E Anything (register_or_constant vm m n)
  unfolding register_or_constant
  register_or_constant-Leads-Inside vm m n r h = elim (Bool-cases (ltb n register_count)) [
    | inl e ↦ rw e (read-Leads-Inside m.registers n (ground arith))
    | inr e ↦ rw e (constant-Leads-Inside vm n (ground arith))
  ]

  pub assign-Leads-Inside :
      (vm : Activation) (m : Machine) (i : ℕ) (r : Result ℕ)
      → Leads E Anything r
      → is_register divisions vm (operand_a i) ≡ true
      → Inside divisions vm m
      → Leads E (StaysInside divisions vm) (assign m i r)
  unfolding assign
  assign-Leads-Inside vm m i r h a k = bind-Leads r _ h λ v _.
      bind-Leads _ _ (write-Leads-Inside m.registers (operand_a i) v (ground arith))
        λ rs e. gives (k.0, omega (arith, k.1))

  pub operands-Leads-Inside {ℓ} :
      {A : Type ℓ} {P : A → Type 0} (vm : Activation) (m : Machine) (i : ℕ) (f : ℕ → ℕ → Result A)
      → length m.registers ≡ register_count
      → is_value divisions vm (operand_b i) ≡ true
      → is_value divisions vm (operand_c i) ≡ true
      → ((x y : ℕ) → Leads E P (f x y))
      → Leads E P (operands vm m i f)
  unfolding operands
  operands-Leads-Inside vm m i f r b c h =
      bind-Leads _ _ (register_or_constant-Leads-Inside vm m (operand_b i) r b) λ x _.
        bind-Leads _ _ (register_or_constant-Leads-Inside vm m (operand_c i) r c) λ y _. h x y

pub divides-Leads-IsTrap : (f : ℕ → ℕ → ℕ) (x y : ℕ) → Leads IsTrap Anything (divides f x y)
unfolding divides
divides-Leads-IsTrap f x y = elim (Bool-cases (y == 0)) [
  | inl e ↦ rw e (faults tt)
  | inr e ↦ elim (Bool-cases (x == 2147483648 && y == 4294967295)) [
    | inl i ↦ rw (e, i) (faults tt)
    | inr i ↦ rw (e, i) (gives tt)
  ]
]
