-- ===== src/Tests/Driver.antt =====
-- Runs of the driver, and the examples of its theorems.
use ifj.Prelude.{
  false, ◌≡◌, refl, true, List, [], ◌∷◌, ◌++◌, Bytes, codes, same, Option, none, IsReal, Leads,
}
use ifj.Token.{Kind, Token, of_int, word, illegal}
use ifj.Printer.Output.{M}
use ifj.Printer.Brackets.{Every}
use ifj.Driver.Args.{options_init, argument, main_action, read_file}
use ifj.Driver.Flags.{options_of, main_action-flags, main_action-late}
use ifj.Driver.Eval.{eval}
use ifj.Driver.Ends.{HasStatus, eval-Leads}

abbrev pub table_order : (A : Type 0) → List (Bytes × A) → List (Bytes × A)
table_order A entries = entries

abbrev pub keeps_table_order :
    (P : Bytes × M → Type 0) (entries : List (Bytes × M))
    → Every P entries
    → Every P (table_order M entries)
keeps_table_order P entries h = h

abbrev pub unknown_address : Bytes → Option Kind
unknown_address name = none

main_action-flags_example :
    main_action true
      (codes "ifj17" ∷ ((codes "--tokens" ∷ codes "-A" ∷ []) ++ codes "a.ifj17" ∷ []))
    ≡ read_file (options_of options_init (codes "--tokens" ∷ codes "-A" ∷ [])) (codes "a.ifj17")
unfolding argument same
main_action-flags_example =
    main_action-flags true (codes "ifj17") (codes "--tokens" ∷ codes "-A" ∷ []) (codes "a.ifj17") []
      refl (refl, (refl, tt)) (refl, tt)

main_action-late_example :
    main_action true (codes "ifj17" ∷ codes "a.ifj17" ∷ codes "-T" ∷ [])
    ≡ read_file (options_of options_init (codes "-T" ∷ [])) (codes "-T")
unfolding argument same
main_action-late_example =
    main_action-late true (codes "ifj17") (codes "a.ifj17") (codes "-T") (refl, (refl, tt)) refl

abbrev pub no_token : Token
no_token = record { kind = illegal; as_string = []; as_double = of_int 0; as_int = word 0 }

eval-Leads_example : Leads IsReal (HasStatus false) (
    eval table_order unknown_address no_token options_init
      (codes "scope\n1 + a;\nend scope\n")
      (codes "a"))
eval-Leads_example =
    eval-Leads table_order unknown_address no_token keeps_table_order options_init
      (codes "scope\n1 + a;\nend scope\n") (codes "a")
