-- ===== src/Driver/Args.antt =====
-- `parse_args` of src/ifj17.c, and what `main` goes on with.
use ifj.Prelude.{
  ℕ, zero, suc, ◌+◌, Bool, true, false, ◌||◌, List, [], ◌∷◌, Bytes, codes, same, ◌==◌,
  if◌then◌else◌,
}

-- The globals `ast` and `tokens`.
pub record Options : Type 0 where
  pub ast : Bool
  pub tokens : Bool

-- What an argument is to the chain of tests in `parse_args`.
pub data Argument : Type 0 where
  help version_flag ast_flag tokens_flag unknown_flag file : Argument

abbrev pub is_dashed : Bytes → Bool
is_dashed [] = false
is_dashed (c ∷ cs) = c == b'-'

unfoldable pub argument : Bytes → Argument
argument arg =
    if same (codes "-h") arg || same (codes "--help") arg
    then help
    else if same (codes "-V") arg || same (codes "--version") arg
    then version_flag
    else if same (codes "-A") arg || same (codes "--ast") arg
    then ast_flag
    else if same (codes "-T") arg || same (codes "--tokens") arg
    then tokens_flag
    else if is_dashed arg
    then unknown_flag
    else file

-- The program exits with a status, or it goes on with the options, and with `argv` moved on by
-- a number of places.
pub data Parsed : Type 0 where
  exits : ℕ → Parsed
  parsed : Options → ℕ → Parsed

-- The loop, with the options and the places so far.
unfoldable pub parse_loop : Options → ℕ → List Bytes → Parsed
parse_loop opts moved [] = parsed opts moved
parse_loop opts moved (arg ∷ args) = elim (argument arg) [
  | help ↦ exits 1
  | version_flag ↦ exits 0
  | ast_flag ↦ parse_loop (record opts { ast = true }) (moved + 1) args
  | tokens_flag ↦ parse_loop (record opts { tokens = true }) (moved + 1) args
  | unknown_flag ↦ exits 1
  | file ↦ parse_loop opts moved args
]

abbrev pub options_init : Options
options_init = record { ast = false; tokens = false }

-- `parse_args`, on all of `argv`, the name of the program first.
unfoldable pub parse_args : List Bytes → Parsed
parse_args args = parse_loop options_init 0 args

unfoldable pub drop {ℓ} : {A : Type ℓ} → ℕ → List A → List A
drop zero xs = xs
drop (suc n) [] = []
drop (suc n) (x ∷ xs) = drop n xs

-- What `main` does next: it reads the standard input, starts the REPL or reads a file.
pub data Action : Type 0 where
  quit : ℕ → Action
  read_stdin read_lines : Options → Action
  read_file : Options → Bytes → Action
  no_argument : Action

-- `main` behind `parse_args`, on `argv` with as many arguments as `argc` says.
unfoldable pub choose_input : Bool → Options → List Bytes → Action
choose_input is_tty opts [] = no_argument
choose_input is_tty opts (name ∷ []) = if is_tty then read_lines opts else read_stdin opts
choose_input is_tty opts (name ∷ path ∷ rest) = read_file opts path

unfoldable pub main_action : Bool → List Bytes → Action
main_action is_tty args = elim (parse_args args) [
  | exits status ↦ quit status
  | parsed opts moved ↦ choose_input is_tty opts (drop moved args)
]
