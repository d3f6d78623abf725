-- ===== src/Codegen/State.antt =====
-- The global variables of src/codegen.c, and the steps on them.
--
-- `rel` and `glob_var` are never used. A counter is a number: the code takes one from a counter
-- only behind a test, or behind the increment that it undoes, but for `loop_num`.
use Prim.Native.String.{String}
use ifj.Prelude.{ℕ, Bool, List, [], ◌∷◌, ◌++◌, if◌then◌else◌, Fault, Result, ok, err, bind}
use ifj.Codegen.Output.{Format, Piece, lit, numbered}

pub record Gen : Type 0 where
  pub bin_op : ℕ
  pub from_if : ℕ
  pub else_if_num : ℕ
  pub else_num : ℕ
  pub end_if_num : ℕ
  pub args : ℕ
  pub params : ℕ
  pub from_func : ℕ
  pub from_call : ℕ
  pub from_return : ℕ
  pub loc_var : ℕ
  pub scope : ℕ
  pub from_loop : ℕ
  pub loop_num : ℕ
  pub mem_loop_num : ℕ
  pub not_num : ℕ
  pub from_minus : ℕ
  pub from_dim : ℕ
  pub label_cont_num : ℕ
  pub int2float : ℕ
  pub out : List Piece

-- All of them are zero at the start.
abbrev pub gen_init : Gen
gen_init = record {
  bin_op = 0;
  from_if = 0;
  else_if_num = 0;
  else_num = 0;
  end_if_num = 0;
  args = 0;
  params = 0;
  from_func = 0;
  from_call = 0;
  from_return = 0;
  loc_var = 0;
  scope = 0;
  from_loop = 0;
  loop_num = 0;
  mem_loop_num = 0;
  not_num = 0;
  from_minus = 0;
  from_dim = 0;
  label_cont_num = 0;
  int2float = 0;
  out = [];
}

abbrev pub M : Type 0
M = Gen → Result Gen

infixl 5 ◌>>◌
abbrev pub ◌>>◌ : M → M → M
◌>>◌ m k g = bind (m g) k

abbrev pub skip : M
skip g = ok g

abbrev pub crash : Fault → M
crash e g = err e

abbrev pub modify : (Gen → Gen) → M
modify f g = ok (f g)

-- `if (b) x else y`, where the test reads the variables.
abbrev pub test : (Gen → Bool) → M → M → M
test b x y g = if b g then x g else y g

-- `print_func` and `printf`
abbrev pub print : List Piece → M
print ps g = ok (record g { out = g.out ++ ps })

abbrev pub text : String → M
text s = print (lit s ∷ [])

abbrev pub print_num : Format → (Gen → ℕ) → M
print_num f n g = print (numbered f (n g) ∷ []) g
