-- ===== src/Driver/Tokens.antt =====
-- What `--tokens` prints of a token: `ifj17_token_inspect` of src/token.c, and the line of it in
-- `eval` of src/ifj17.c.
use Prim.Native.String.{String}
use ifj.Prelude.{ℕ, List, [], ◌∷◌, ◌++◌, codes}
use ifj.Token.{Kind, Token, word, spelling, id, int, double, string}
use ifj.Printer.Output.{Chunk, lit, str, dec, real}

-- `\e` and what follows it in a format string.
abbrev escape : String → Chunk
escape s = str (27 ∷ codes s)

-- The `switch` in `ifj17_token_inspect`.
abbrev pub token_value : Kind → Token → List Chunk
token_value int tok = lit " " ∷ escape "[36m" ∷ dec tok.as_int ∷ escape "[0m" ∷ []
token_value double tok = lit " " ∷ escape "[36m" ∷ real tok.as_double ∷ escape "[0m" ∷ []
token_value string tok =
    lit " " ∷ escape "[32m" ∷ lit "'" ∷ str tok.as_string ∷ lit "'" ∷ escape "[0m" ∷ []
token_value id tok = lit " " ∷ str tok.as_string ∷ []
token_value _ tok = []

-- `ifj17_token_inspect`
unfoldable pub token_inspect : Token → List Chunk
token_inspect tok =
    escape "[90m"
    ∷ str (codes (spelling tok.kind))
    ∷ escape "[0m"
    ∷ (token_value tok.kind tok ++ lit "\n" ∷ [])

-- A round of the loop in `eval`.
unfoldable pub list_token : ℕ → Token → List Chunk
list_token line tok =
    lit "  " ∷ escape "[90m" ∷ dec (word line) ∷ lit " : " ∷ escape "[m" ∷ token_inspect tok

unfoldable pub list_tokens : List (ℕ × Token) → List Chunk
list_tokens [] = []
list_tokens ((line, tok) ∷ ts) = list_token line tok ++ list_tokens ts
