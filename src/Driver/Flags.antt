-- ===== src/Driver/Flags.antt =====
-- The arguments that src/ifj17.c takes for flags, and the one that it takes for the file.
use ifj.Prelude.{
  ℕ, ◌+◌, ◌≡◌, refl, sym, ap, ◌∙◌, arith, Bool, true, false, List, [], ◌∷◌, ◌++◌, append-nil, Bytes,
  length,
}
use ifj.Driver.Args.{
  Options, Argument, help, version_flag, ast_flag, tokens_flag, unknown_flag, file, argument,
  Parsed, exits, parsed, parse_loop, options_init, parse_args, drop, read_file, choose_input,
  main_action,
}

-- `--ast` and `--tokens`, with their short forms.
abbrev pub is_option : Argument → Bool
is_option ast_flag = true
is_option tokens_flag = true
is_option _ = false

abbrev pub is_file : Argument → Bool
is_file file = true
is_file _ = false

abbrev pub AllArguments : (Argument → Bool) → List Bytes → Type 0
AllArguments p [] = Unit
AllArguments p (arg ∷ args) = (p (argument arg) ≡ true) × AllArguments p args

abbrev pub with_option : Argument → Options → Options
with_option ast_flag opts = record opts { ast = true }
with_option tokens_flag opts = record opts { tokens = true }
with_option _ opts = opts

-- The options that a list of flags sets.
abbrev pub options_of : Options → List Bytes → Options
options_of opts [] = opts
options_of opts (arg ∷ args) = options_of (with_option (argument arg) opts) args

parse_loop-flags :
    (flags : List Bytes) (opts : Options) (moved : ℕ) (rest : List Bytes)
    → AllArguments is_option flags
    → parse_loop opts moved (flags ++ rest)
      ≡ parse_loop (options_of opts flags) (length flags + moved) rest
unfolding parse_loop
parse_loop-flags [] opts moved rest h = ap (λ n. parse_loop opts n rest) (omega arith)
parse_loop-flags (arg ∷ flags) opts moved rest h =
    step (argument arg) h.0
    ∙ parse_loop-flags flags _ (moved + 1) rest h.1
    ∙ ap (λ n. parse_loop (options_of (with_option (argument arg) opts) flags) n rest) (omega arith)
  where
    step :
        (a : Argument)
        → is_option a ≡ true
        → (elim a as (λ _. Parsed) [
          | help ↦ exits 1
          | version_flag ↦ exits 0
          | ast_flag ↦ parse_loop (record opts { ast = true }) (moved + 1) (flags ++ rest)
          | tokens_flag ↦ parse_loop (record opts { tokens = true }) (moved + 1) (flags ++ rest)
          | unknown_flag ↦ exits 1
          | file ↦ parse_loop opts moved (flags ++ rest)
        ])
          ≡ parse_loop (with_option a opts) (moved + 1) (flags ++ rest)
    step ast_flag e = refl
    step tokens_flag e = refl
    step help e = cc
    step version_flag e = cc
    step unknown_flag e = cc
    step file e = cc

parse_loop-files :
    (files : List Bytes) (opts : Options) (moved : ℕ) (rest : List Bytes)
    → AllArguments is_file files
    → parse_loop opts moved (files ++ rest) ≡ parse_loop opts moved rest
unfolding parse_loop
parse_loop-files [] opts moved rest h = refl
parse_loop-files (arg ∷ files) opts moved rest h =
    step (argument arg) h.0 ∙ parse_loop-files files opts moved rest h.1
  where
    step :
        (a : Argument)
        → is_file a ≡ true
        → (elim a as (λ _. Parsed) [
          | help ↦ exits 1
          | version_flag ↦ exits 0
          | ast_flag ↦ parse_loop (record opts { ast = true }) (moved + 1) (files ++ rest)
          | tokens_flag ↦ parse_loop (record opts { tokens = true }) (moved + 1) (files ++ rest)
          | unknown_flag ↦ exits 1
          | file ↦ parse_loop opts moved (files ++ rest)
        ])
          ≡ parse_loop opts moved (files ++ rest)
    step file e = refl
    step help e = cc
    step version_flag e = cc
    step ast_flag e = cc
    step tokens_flag e = cc
    step unknown_flag e = cc

add_zero : (n : ℕ) → n + 0 ≡ n
add_zero n = omega arith

-- The name of the program, then arguments that are no flags, then flags, then others that are
-- none.
parse_args-mixed :
    (first flags last : List Bytes)
    → AllArguments is_file first
    → AllArguments is_option flags
    → AllArguments is_file last
    → parse_args (first ++ (flags ++ last)) ≡ parsed (options_of options_init flags) (length flags)
unfolding parse_args parse_loop
parse_args-mixed first flags last h k m =
    parse_loop-files first options_init 0 (flags ++ last) h
    ∙ parse_loop-flags flags options_init 0 last k
    ∙ ap (parse_loop _ _) (sym (append-nil last))
    ∙ parse_loop-files last _ _ [] m
    ∙ ap (parsed (options_of options_init flags)) (add_zero (length flags))

choose_input-drop :
    (is_tty : Bool) (opts : Options) (flags : List Bytes) (name path : Bytes) (rest : List Bytes)
    → choose_input is_tty opts (drop (length flags) (name ∷ (flags ++ path ∷ rest)))
      ≡ read_file opts path
unfolding choose_input drop
choose_input-drop is_tty opts [] name path rest = refl
choose_input-drop is_tty opts (flag ∷ flags) name path rest =
    choose_input-drop is_tty opts flags flag path rest

-- With the flags for the tree and for the tokens in front of the other arguments, in any number
-- and order, the first of the others is the file that is read, and the options are those that
-- the flags set.
pub main_action-flags :
    (is_tty : Bool) (name : Bytes) (flags : List Bytes) (path : Bytes) (rest : List Bytes)
    → is_file (argument name) ≡ true
    → AllArguments is_option flags
    → AllArguments is_file (path ∷ rest)
    → main_action is_tty (name ∷ (flags ++ path ∷ rest))
      ≡ read_file (options_of options_init flags) path
unfolding main_action
main_action-flags is_tty name flags path rest h k m =
    rw (parse_args-mixed (name ∷ []) flags (path ∷ rest) (h, tt) k m, main_action)
      (choose_input-drop is_tty _ flags name path rest)

-- A flag behind the path is itself taken for the file that is read.
pub main_action-late :
    (is_tty : Bool) (name path flag : Bytes)
    → AllArguments is_file (name ∷ path ∷ [])
    → is_option (argument flag) ≡ true
    → main_action is_tty (name ∷ path ∷ flag ∷ [])
      ≡ read_file (options_of options_init (flag ∷ [])) flag
unfolding main_action choose_input drop
main_action-late is_tty name path flag h k =
    rw (parse_args-mixed (name ∷ path ∷ []) (flag ∷ []) [] h (k, tt) tt, main_action) refl
