-- ===== src/Parser/Dml/Ends.antt =====
-- How the shorter statements of src/parser/parser.cpp end.
use nyxdb.Base.{ℕ, List, [], All}
use nyxdb.Base.Strings.{text}
use nyxdb.Parser.Token.{TokenKind, Token}
use nyxdb.Parser.State.{commas, opened_by}
use nyxdb.Parser.State.Ends.{
  Any, Ends, Ends-ret, Ends-bind, Ends-step, Ends-consume, Ends-match, Ends-expect, Ends-opened_by,
  Ends-commas, ends_rules,
}
use nyxdb.Parser.Expr.{parse_expr}
use nyxdb.Parser.Select.{optional_expr}
use nyxdb.Parser.Select.Ends.{parse_expr-Ends, optional_expr-Ends}
use nyxdb.Parser.Column.{name_of, column_names}
use nyxdb.Parser.Column.Ends.{name_of-Ends, column_names-Ends}
use nyxdb.Parser.Dml.{
  insert_columns, insert_row, parse_insert, parse_delete, assignment, parse_update,
  if_exists_clause, parse_drop_table, parse_create_index, parse_drop_index, parse_show_indexes,
  parse_show_constraints,
}
use nyxdb.Parser.WellFormed.{NonEmpty, WellFormedInsert}

module _ {source : List ℕ} {K : Token → Type 0} {T : Type 0} where
  insert_columns-Ends : Ends source K T Any insert_columns
  unfolding insert_columns
  insert_columns-Ends = search (ends_rules, name_of-Ends) depth 20

  if_exists_clause-Ends : Ends source K T Any if_exists_clause
  unfolding if_exists_clause
  if_exists_clause-Ends = search ends_rules depth 20

  pub parse_drop_table-Ends : Ends source K T Any parse_drop_table
  unfolding parse_drop_table
  parse_drop_table-Ends = search (ends_rules, name_of-Ends, if_exists_clause-Ends) depth 20

  pub parse_drop_index-Ends : Ends source K T Any parse_drop_index
  unfolding parse_drop_index
  parse_drop_index-Ends = search (ends_rules, name_of-Ends) depth 20

  pub parse_show_indexes-Ends : Ends source K T Any parse_show_indexes
  unfolding parse_show_indexes
  parse_show_indexes-Ends = search (ends_rules, name_of-Ends) depth 20

  pub parse_show_constraints-Ends : Ends source K T Any parse_show_constraints
  unfolding parse_show_constraints
  parse_show_constraints-Ends = search (ends_rules, name_of-Ends) depth 20

  pub parse_create_index-Ends : Ends source K T (λ s. NonEmpty s.column_names) parse_create_index
  unfolding parse_create_index
  parse_create_index-Ends = Ends-consume _ _ λ _. Ends-match _ TokenKind.kw_unique _ tt λ unique.
      Ends-expect _ TokenKind.kw_index _ _ tt (
        Ends-step _ (name_of (text "expected index name")) _ (name_of-Ends _) λ index.
          Ends-expect _ TokenKind.kw_on _ _ tt (
            Ends-step _ (name_of (text "expected table name")) _ (name_of-Ends _) λ table.
              Ends-bind NonEmpty _ column_names _ column_names-Ends λ cols q. Ends-ret _ _ q))

module _ {source : List ℕ} {K : Token → Type 0} {T : Type 0} (strtod : List ℕ → ℕ) where
  insert_row-Ends : Ends source K T NonEmpty (insert_row strtod)
  unfolding insert_row
  insert_row-Ends = Ends-expect _ TokenKind.lparen _ _ tt (
      Ends-bind (λ xs. NonEmpty xs × All Any xs) _ (commas (parse_expr strtod)) _
        (Ends-commas Any _ (parse_expr-Ends strtod))
        λ row q. Ends-expect _ TokenKind.rparen _ _ tt (Ends-ret _ row q.0))

  pub parse_insert-Ends : Ends source K T WellFormedInsert (parse_insert strtod)
  unfolding parse_insert
  parse_insert-Ends = Ends-expect _ TokenKind.kw_insert _ _ tt (
      Ends-expect _ TokenKind.kw_into _ _ tt (
        Ends-step _ (name_of (text "expected table name")) _ (name_of-Ends _) λ table.
          Ends-step _ (opened_by TokenKind.lparen [] insert_columns) _
            (Ends-opened_by Any TokenKind.lparen [] insert_columns tt tt insert_columns-Ends)
            λ names. Ends-expect _ TokenKind.kw_values _ _ tt (
              Ends-bind (λ xs. NonEmpty xs × All NonEmpty xs) _ (commas (insert_row strtod)) _
                (Ends-commas NonEmpty _ insert_row-Ends) λ rows q. Ends-ret _ _ q)))

  pub parse_delete-Ends : Ends source K T Any (parse_delete strtod)
  unfolding parse_delete
  parse_delete-Ends = search (ends_rules, name_of-Ends, optional_expr-Ends) depth 20

  assignment-Ends : Ends source K T Any (assignment strtod)
  unfolding assignment
  assignment-Ends = search (ends_rules, name_of-Ends, parse_expr-Ends) depth 20

  pub parse_update-Ends : Ends source K T (λ s. NonEmpty s.assignments) (parse_update strtod)
  unfolding parse_update
  parse_update-Ends = Ends-consume _ _ λ _.
      Ends-step _ (name_of (text "expected table name")) _ (name_of-Ends _) λ table.
        Ends-expect _ TokenKind.kw_set _ _ tt (
          Ends-bind (λ xs. NonEmpty xs × All Any xs) _ (commas (assignment strtod)) _
            (Ends-commas Any _ assignment-Ends)
            λ sets q.
              Ends-step _ (optional_expr strtod TokenKind.kw_where) _
                (optional_expr-Ends strtod TokenKind.kw_where tt) λ filter. Ends-ret _ _ q.0)
