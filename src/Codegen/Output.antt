-- ===== src/Codegen/Output.antt =====
-- What the generator prints: the format strings of src/codegen.c, cut at their conversions.
use Prim.Native.String.{String}
use ifj.Prelude.{ℕ, Bytes}
use ifj.Token.{IntValue, Double}

-- The formats that number a label or a jump to one:
-- "LABEL LOOP_%d\n" and "LOOP_%d "; "LABEL RES_IF_%d\n", "RES_IF_%d " and
-- "JUMPIFEQ RES_IF_%d TF@temp_bool_rel "; "LABEL RES_ELSE_%d\n" and "JUMP RES_ELSE_%d\n";
-- "LABEL END_IF_%d\n" and "JUMP END_IF_%d\n"; "LABEL RES_IF_int2float_%d\n" and
-- "JUMPIFNEQ RES_IF_int2float_%d TF@temp_bool_1 TF@temp_bool_2\n"; "LABEL CONT_%d\n" and
-- "JUMP CONT_%d\n".
pub data Format : Type 0 where
  label_loop jump_loop label_res_if jump_res_if jump_res_if_rel label_else jump_else : Format
  label_end jump_end label_int2float jump_int2float label_cont jump_cont : Format

-- A piece of a format string, the arguments of %s, %d and %g, and the formats above.
pub data Piece : Type 0 where
  lit : String → Piece
  str : Bytes → Piece
  dec : IntValue → Piece
  short : Double → Piece
  numbered : Format → ℕ → Piece
