-- ===== src/Parser/Source/Tests.antt =====
-- Statements from their text, with concrete functions for those of the C library.
use nyxdb.Base.{ℕ, ◌≡◌, refl, List, [], ◌∷◌, ◌++◌, Option, none, some, true, arith}
use nyxdb.Base.Int.{ℤ, ◌+ℤ◌, ◌-ℤ◌, ◌*ℤ◌, tdiv, neg_ℤ}
use nyxdb.Base.Strings.{text, to_string}
use nyxdb.Common.SourceError.{render_source_error}
use nyxdb.Value.{Value}
use nyxdb.Shard.Defs.{BinaryOpKind}
use nyxdb.Parser.Token.{Token, TokenKind, SourceLoc}
use nyxdb.Parser.Kind.{is_kind}
use nyxdb.Parser.Lexer.{tokenize, next_token, ident_loop, word_token, string_loop, symbol_kind}
use nyxdb.Parser.Scan.{skip_trivia, trivia_loop, trivia_turn, is_space, block_loop, not_newline}
use nyxdb.Parser.Keywords.{keyword_table, find_keyword}
use nyxdb.Parser.Ast.{Statement, Expr, NullCheckKind, LogicalOpKind, ColumnDef, expr_loc}
use nyxdb.Parser.State.{Parser, Outcome}
use nyxdb.Parser.Default.{Clib}
use nyxdb.Parser.State.Reads.{Is, tokens, Good}
use nyxdb.Parser.Expr.Sound.{Among, parse_expression-Level}
use nyxdb.Parser.Expr.Grammar.{Level, Unary, Literal}
use nyxdb.Parser.Expr.Start.{start}
use nyxdb.Parser.Expr.Accepts.{parse_expression-start}
use nyxdb.Parser.Expr.{OpInfo, Operator}
use nyxdb.Parser.Statement.Ends.{parse-WellFormed}
use nyxdb.Parser.Column.Ends.{AtDefault}
use nyxdb.Parser.WellFormed.{WellFormed}
use nyxdb.Base.{All}
use nyxdb.Parser.Source.{parse_source, Parsed, parse_source-Parsed}
use nyxdb.Parser.State.{
  ◌>>=◌, ret, token_at, peek, consume, at_kind, match, fail_at, fail, expect, word_of, commas_loop,
  commas, opened_by,
}
use nyxdb.Parser.Expr.{
  lookup_op, combine_loc, combine, decimal_loop, strtoll, negate, dated, null_test, parse_args,
  parse_ident_or_call, parenthesised, primary_of, parse_primary, unary_step, operand, loop_step,
  binary_step, args_step, parser_calls, parse_expr, parse_expression,
}
use nyxdb.Parser.Select.{
  parse_alias, parse_table_ref, parse_int_literal, by_list, optional_int, optional_expr,
  parse_select_item, joined, parse_join_clause, parse_order_by_item, joins_loop, parse_joins,
  parse_projections, parse_select,
}
use nyxdb.Parser.Default.{
  fits, checked, add_months, days_of, micros_of, int_value, date_value, timestamp_value, default_of,
  parse_default_literal,
}
use nyxdb.Parser.Column.{
  name_of, column_names, varchar_len, varchar, column_type, column_flags, parse_column_flags,
  parse_column_def,
}
use nyxdb.Parser.CreateTable.{
  constraint_kind, parse_table_constraint, constraints_of, columns_of, parse_partition_def,
  parse_element, parse_partitions, parse_create_table, parse_alter_add_partition,
}
use nyxdb.Parser.Dml.{
  insert_columns, insert_row, parse_insert, parse_delete, assignment, parse_update,
  if_exists_clause, parse_drop_table, parse_create_index, parse_drop_index, parse_show_indexes,
  parse_show_constraints,
}
use nyxdb.Parser.Statement.{
  parse_create, parse_drop, parse_show, parse_vacuum, statement_of, parse_one_statement,
  parse_statement, statements_loop, parse,
}

-- The numbers of a text, at every run of digits.
abbrev dates : List ℤ
dates = ℤ.pos 1973 ∷ ℤ.pos 1 ∷ ℤ.pos 1 ∷ []

abbrev test_lib : Clib
test_lib = record { strtod = λ cs. 0; stod = λ cs. none; sscanf = λ form cs. dates }

unfoldable run : List ℕ → Outcome (List Statement)
unfolding parse_source tokenize expr_loc is_kind neg_ℤ tdiv ◌+ℤ◌ ◌-ℤ◌ ◌*ℤ◌ render_source_error
    skip_trivia trivia_loop trivia_turn is_space next_token ident_loop symbol_kind string_loop
    word_token block_loop not_newline find_keyword keyword_table to_string ◌>>=◌ ret token_at peek
    consume at_kind match fail_at fail expect word_of commas_loop commas opened_by lookup_op
    combine_loc combine decimal_loop strtoll negate dated null_test parse_args parse_ident_or_call
    parenthesised primary_of parse_primary unary_step operand loop_step binary_step args_step
    parser_calls parse_expr parse_expression parse_alias parse_table_ref parse_int_literal by_list
    optional_int optional_expr parse_select_item joined parse_join_clause parse_order_by_item
    joins_loop parse_joins parse_projections parse_select fits checked add_months days_of micros_of
    int_value date_value timestamp_value default_of parse_default_literal name_of column_names
    varchar_len varchar column_type column_flags parse_column_flags parse_column_def constraint_kind
    parse_table_constraint constraints_of columns_of parse_partition_def parse_element
    parse_partitions parse_create_table parse_alter_add_partition insert_columns insert_row
    parse_insert parse_delete assignment parse_update if_exists_clause parse_drop_table
    parse_create_index parse_drop_index parse_show_indexes parse_show_constraints parse_create
    parse_drop parse_show parse_vacuum statement_of parse_one_statement parse_statement
    statements_loop parse
run source = parse_source test_lib source

abbrev query : List ℕ
query = text "select a.b x, -1 + f(*) * 2 from t where a is not null and not b = c limit 5;"

abbrev at_place : ℕ → ℕ → SourceLoc
at_place offset n = record { offset = offset; length = n }

abbrev statements : Outcome (List Statement) → List Statement
statements (Outcome.done ss p) = ss
statements _ = []

abbrev message : Outcome (List Statement) → List ℕ
message (Outcome.failed m) = m
message _ = []

abbrev column_at : ℕ → ℕ → List ℕ → Expr
column_at offset n name = Expr.column_ref none name (at_place offset n)

-- NOT reaches over the comparison, AND takes both.
abbrev condition : Expr
condition =
    Expr.logical_op LogicalOpKind.and
      (Expr.null_check NullCheckKind.is_not_null (column_at 22 1 (text "a")) (at_place 22 13))
      (Expr.not_op
        (Expr.binary_op BinaryOpKind.eq (column_at 44 1 (text "b")) (column_at 48 1 (text "c"))
          (at_place 44 5))
        (at_place 40 9))
      (at_place 22 27)

abbrev first_condition : List Statement → Option Expr
first_condition (Statement.select s ∷ ss) = s.where_expr
first_condition _ = none

condition_test :
    first_condition (statements (run (text "select * from t where a is not null and not b = c")))
    ≡ some condition
unfolding run
condition_test = refl

query_test :
    statements (run (text "vacuum t; drop table if exists u; show indexes from v"))
    ≡ Statement.vacuum (text "t")
      ∷ Statement.drop_table (record { table_name = text "u"; if_exists = true })
      ∷ Statement.show_indexes (text "v")
      ∷ []
unfolding run
query_test = refl

abbrev first_default : List Statement → Option Value
first_default (Statement.create_table s ∷ ss) = default_of_first s.columns
  where
    default_of_first : List ColumnDef → Option Value
    default_of_first [] = none
    default_of_first (c ∷ cs) = c.default_value
first_default _ = none

-- The first day of 1973 is day 1096 after that of 1970.
default_date_test :
    first_default (statements (run (text "create table t (d date default date '1973-01-01')")))
    ≡ some (Value.date (ℤ.pos 1095))
unfolding run
default_date_test = refl

default_overflow_test :
    run (text "create table t (n bigint default 9223372036854775808)") ≡ Outcome.thrown
unfolding run
default_overflow_test = refl

error_test :
    message (run (text "select 1"))
    ≡ text "parse error at line 1, col 9: expected FROM"
      ++ (10 ∷ text "  select 1")
      ++ (10 ∷ text "          ^")
unfolding run
error_test = refl

-- `-a+2`.
abbrev minus_tok : Token
minus_tok = record { kind = TokenKind.minus; loc = at_place 0 1; text = [] }

abbrev ident_tok : Token
ident_tok = record { kind = TokenKind.identifier; loc = at_place 1 1; text = text "a" }

abbrev plus_tok : Token
plus_tok = record { kind = TokenKind.plus; loc = at_place 2 1; text = [] }

abbrev two_tok : Token
two_tok = record { kind = TokenKind.int_literal; loc = at_place 3 1; text = text "2" }

abbrev eof_tok : Token
eof_tok = record { kind = TokenKind.end_of_file; loc = at_place 4 0; text = [] }

abbrev expression_parser : Parser
expression_parser = record {
  source = text "-a+2";
  tok = minus_tok;
  rest = ident_tok ∷ plus_tok ∷ two_tok ∷ eof_tok ∷ [];
}

eof_tok_lem : Is TokenKind.end_of_file eof_tok
unfolding run
eof_tok_lem = refl

parse_expression-Level_example :
    Good
      (text "-a+2")
      (Among (tokens expression_parser))
      ⊥
      (λ front e next. (q : ℕ) × Level (λ cs. 0) 1 q front e × Is TokenKind.end_of_file next)
      expression_parser
      (parse_expression (λ cs. 0) expression_parser)
parse_expression-Level_example = parse_expression-Level (λ cs. 0) expression_parser eof_tok_lem

abbrev minus_a : Expr
minus_a = negate minus_tok (Expr.column_ref none ident_tok.text ident_tok.loc)

abbrev two : Expr
two = Expr.int_lit (strtoll two_tok.text) two_tok.loc

abbrev plus_info : OpInfo
plus_info = record { prec = 5; op = Operator.binary BinaryOpKind.add }

abbrev sum_toks : List Token
sum_toks = minus_tok ∷ ident_tok ∷ plus_tok ∷ two_tok ∷ []

sum_level : Level (λ cs. 0) 1 5 sum_toks (combine plus_info.op minus_a two)
unfolding run
sum_level =
    Level.operation 1 7 7 (minus_tok ∷ ident_tok ∷ []) (two_tok ∷ []) plus_tok plus_info minus_a two
      (omega arith) (omega arith) (refl, refl)
      (Level.operand 1 (minus_tok ∷ ident_tok ∷ []) minus_a
        (Unary.minus minus_tok (ident_tok ∷ []) _ refl (Unary.column ident_tok refl)))
      (Level.operand 6 (two_tok ∷ []) two (Unary.literal _ _ (Literal.int two_tok refl)))

parse_expression-start_example :
    parse_expression (λ cs. 0) expression_parser
    ≡ Outcome.done (combine plus_info.op minus_a two) (start (text "-a+2") [] eof_tok [])
parse_expression-start_example =
    parse_expression-start (λ cs. 0) (text "-a+2") 5 sum_toks (combine plus_info.op minus_a two)
      eof_tok [] sum_level eof_tok_lem

-- `insert into t values (1)`.
abbrev word_tok : TokenKind → ℕ → ℕ → List ℕ → Token
word_tok kind offset n word = record { kind = kind; loc = at_place offset n; text = word }

abbrev statement_parser : Parser
statement_parser = record {
  source = text "insert into t values (1)";
  tok = word_tok TokenKind.kw_insert 0 6 [];
  rest =
      word_tok TokenKind.kw_into 7 4 []
      ∷ word_tok TokenKind.identifier 12 1 (text "t")
      ∷ word_tok TokenKind.kw_values 14 6 []
      ∷ word_tok TokenKind.lparen 21 1 []
      ∷ word_tok TokenKind.int_literal 22 1 (text "1")
      ∷ word_tok TokenKind.rparen 23 1 []
      ∷ eof_tok
      ∷ [];
}

parse-WellFormed_example :
    Good
      (text "insert into t values (1)")
      (Among (tokens statement_parser))
      (AtDefault (Among (tokens statement_parser)))
      (λ front ss next. All WellFormed ss × Is TokenKind.end_of_file next)
      statement_parser
      (parse test_lib statement_parser)
parse-WellFormed_example = parse-WellFormed test_lib statement_parser eof_tok_lem

parse_source-Parsed_example : Parsed query (parse_source test_lib query)
parse_source-Parsed_example = parse_source-Parsed test_lib query (omega arith)

-- A month after the thirteenth reads behind the array.
month_test : add_months 13 1 (ℤ.pos 0) expression_parser ≡ Outcome.undefined
unfolding run
month_test = refl
