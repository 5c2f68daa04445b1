-- ===== src/Params/Tests.antt =====
-- src/params.rs on concrete statements.
use mcpg_plugin_backend_sql.Common.{ℕ, ◌≡◌, refl, List, Text, [], ◌∷◌, ◌++◌, some, codes, arith}
use mcpg_plugin_backend_sql.Common.Radix.{format, digits_onto, digit_char}
use mcpg_plugin_backend_sql.Params.{
  postgres, mysql, rewrite_placeholders, rewritten, walk, round, is_name_byte, placeholder,
  push_char, call_statement, call_placeholders, object, collect_bound_params,
}
use mcpg_plugin_backend_sql.Params.Pieces.{
  Piece, plain, literal, cast, named, source, render, names, Fits, rewrite_placeholders-render,
}
use mcpg_plugin_backend_sql.Params.Binding.{Outcome, collect_bound_params-Outcome}

-- `é` is the bytes 195 and 169: each is written as a character of its own.
accent : rewrite_placeholders (195 ∷ 169 ∷ []) mysql ≡ some (195 ∷ 131 ∷ 194 ∷ 169 ∷ [], [])
unfolding rewrite_placeholders rewritten walk round push_char
accent = refl

two_arguments : call_statement (codes "orders.get") 2 postgres ≡ codes "CALL orders.get($1, $2)"
unfolding call_statement call_placeholders placeholder format digits_onto digit_char
two_arguments = refl

abbrev filter_pieces : List Piece
filter_pieces =
    named b'i' (codes "d")
    ∷ plain b'='
    ∷ literal (codes "a:b")
    ∷ cast
    ∷ plain b't'
    ∷ plain b' '
    ∷ named b'n' []
    ∷ []

filter_source : source filter_pieces ≡ codes ":id='a:b'::t :n"
unfolding source
filter_source = refl

filter_pieces-Fits : Fits filter_pieces
unfolding is_name_byte source
filter_pieces-Fits = ground arith

rewrite_placeholders-render_example :
    rewrite_placeholders (source filter_pieces) postgres
    ≡ some (render postgres 1 filter_pieces, names filter_pieces)
rewrite_placeholders-render_example =
    rewrite_placeholders-render postgres filter_pieces filter_pieces-Fits

abbrev arguments : List (Text × ℕ)
arguments = (codes "a", 1) ∷ (codes "b", 2) ∷ []

collect_bound_params-Outcome_example :
    Outcome arguments
      (codes "b" ∷ codes "c" ∷ [])
      (collect_bound_params (object arguments) (codes "b" ∷ codes "c" ∷ []))
collect_bound_params-Outcome_example =
    collect_bound_params-Outcome arguments (codes "b" ∷ codes "c" ∷ [])

-- A lone colon, a byte that is not ASCII, and a quote that is not closed.
abbrev loose : Text
loose = codes "a : " ++ 195 ∷ codes " :b 'c"
