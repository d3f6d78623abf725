-- ===== src/Lexer/Code.antt =====
-- All of the scanner's code, to unfold at once where it runs on concrete input.
use ifj.Prelude.{same}
use ifj.Token.{ordinal}
use ifj.Lexer.State.{lexer_init, need_semi}
use ifj.Lexer.Chars.{is_alpha, is_digit, is_xdigit, to_lower, is_word, is_word_start, hex}
use ifj.Lexer.Ident.{read_word, find_keyword, finish_ident, scan_ident}
use ifj.Lexer.Text.{
  escape_digits, escape_bytes, hex_literal, c_string, finish_string, string_step, string_loop,
  scan_string,
}
use ifj.Lexer.Number.{
  digit_step, hex_step, expo_loop, number_byte, double_loop, int_loop, scan_int, hex_loop,
  scan_hex_digits, scan_hex, scan_number,
}
use ifj.Lexer.Operator.{
  find_byte, scan_choice, scan_twice, skip_until, scan_slash, scan_quote, scan_bang,
}
use ifj.Lexer.Scan.{
  scan_newline, scan_default, scan_other, scan_byte, scan_step, scan_rounds, scan, token_loop,
  tokens,
}

unfoldable pub scanner_code : Unit {0}
unfolding same ordinal lexer_init need_semi is_alpha is_digit is_xdigit to_lower is_word
    is_word_start hex read_word find_keyword finish_ident scan_ident escape_digits escape_bytes
    hex_literal c_string finish_string string_step string_loop scan_string digit_step hex_step
    expo_loop number_byte double_loop int_loop scan_int hex_loop scan_hex_digits scan_hex
    scan_number find_byte scan_choice scan_twice skip_until scan_slash scan_quote scan_bang
    scan_newline scan_default scan_other scan_byte scan_step scan_rounds scan token_loop tokens
scanner_code = tt
