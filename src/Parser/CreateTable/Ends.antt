-- ===== src/Parser/CreateTable/Ends.antt =====
-- How CREATE TABLE and ALTER TABLE of src/parser/parser.cpp end.
use nyxdb.Base.{
  ℕ, ◌≤◌, ◌≡◌, refl, Bool, true, false, List, [], ◌∷◌, Option, none, some, ◌⊎◌, inl, inr, arith, ap,
  if◌then◌else◌, length, All,
}
use nyxdb.Base.Strings.{text}
use nyxdb.Parser.Token.{TokenKind, Token}
use nyxdb.Parser.Ast.{ColumnDef, TableConstraint, PartitionDefAst}
use nyxdb.Parser.State.{◌>>=◌, ret, commas}
use nyxdb.Parser.State.Ends.{
  Any, Ends, Ends-if, Ends-ret, Ends-fail, Ends-bind, Ends-step, Ends-match, Ends-expect, Ends-peek,
  Ends-opened_by, Ends-commas, Ends-word_of, ends_rules,
}
use nyxdb.Parser.Expr.{parse_expr}
use nyxdb.Parser.Select.Ends.{parse_expr-Ends}
use nyxdb.Parser.Default.{Clib}
use nyxdb.Parser.Column.{name_of, column_names, parse_column_def}
use nyxdb.Parser.Column.Ends.{name_of-Ends, column_names-Ends, parse_column_def-Ends, AtDefault}
use nyxdb.Parser.CreateTable.{
  constraint_kind, not_empty, parse_table_constraint, constraints_of, columns_of, part_column,
  part_defs, parse_partition_def, parse_element, parse_partitions, parse_create_table,
  parse_alter_add_partition,
}
use nyxdb.Parser.WellFormed.{
  NonEmpty, MaxOr, WellFormedColumn, WellFormedConstraint, WellFormedPartition, Partitioned,
  WellFormedTable,
}

module _ {source : List ℕ} {K : Token → Type 0} {T : Type 0} where
  constraint_kind-Ends : Ends source K T Any constraint_kind
  unfolding constraint_kind
  constraint_kind-Ends = search ends_rules depth 20

  not_empty-Ends :
      (c : TableConstraint) (names : List (List ℕ))
      → NonEmpty names
      → c.columns ≡ names
      → Ends source K T WellFormedConstraint (not_empty c names)
  not_empty-Ends c [] n e = Ends-fail _ _
  not_empty-Ends c (name ∷ names) n e = Ends-ret _ c (omega (arith, ap (λ xs. length xs) e))

  parse_table_constraint-Ends : Ends source K T WellFormedConstraint parse_table_constraint
  unfolding parse_table_constraint
  parse_table_constraint-Ends =
      Ends-step _ _ _ (Ends-opened_by Any TokenKind.kw_constraint [] _ tt tt (name_of-Ends _))
        λ name. Ends-step _ constraint_kind _ constraint_kind-Ends λ kind.
          Ends-bind NonEmpty _ column_names _ column_names-Ends λ columns q.
            not_empty-Ends (record { kind = kind; name = name; columns = columns }) columns q refl

  -- The bound, or nothing where MAXVALUE stands.
  bound-Ends :
      (strtod : List ℕ → ℕ) (maxvalue : Bool)
      → Ends source K T
          (λ bound. MaxOr maxvalue bound)
          (if maxvalue then ret none else (parse_expr strtod >>= λ e. ret (some e)))
  bound-Ends strtod true = Ends-ret _ none refl
  bound-Ends strtod false =
      Ends-step _ (parse_expr strtod) _ (parse_expr-Ends strtod) (λ e. Ends-ret _ (some e) tt)

  parse_partition_def-Ends :
      (lib : Clib) → Ends source K T WellFormedPartition (parse_partition_def lib)
  unfolding parse_partition_def
  parse_partition_def-Ends lib = Ends-expect _ TokenKind.kw_partition _ _ tt (
      Ends-step _ (name_of (text "expected partition name")) _ (name_of-Ends _) λ name.
        Ends-expect _ TokenKind.kw_values _ _ tt (
          Ends-expect _ TokenKind.kw_less _ _ tt (
            Ends-expect _ TokenKind.kw_than _ _ tt (
              Ends-expect _ TokenKind.lparen _ _ tt (
                Ends-match _ TokenKind.kw_maxvalue _ tt λ maxvalue.
                  Ends-bind (λ bound. MaxOr maxvalue bound) _ _ _ (bound-Ends lib.strtod maxvalue)
                    λ bound q. Ends-expect _ TokenKind.rparen _ _ tt (
                      Ends-expect _ TokenKind.kw_on _ _ tt (
                        Ends-word_of _ TokenKind.string_literal _ _ tt λ addr. Ends-ret _ _ q)))))))

-- What the partitions of a table are.
abbrev PartsOk : Option (List ℕ × List PartitionDefAst) → Type 0
PartsOk parts = Partitioned (part_column parts) (part_defs parts)

abbrev ElementOk : TableConstraint ⊎ ColumnDef → Type 0
ElementOk (inl c) = WellFormedConstraint c
ElementOk (inr c) = WellFormedColumn c

All-columns_of :
    (es : List (TableConstraint ⊎ ColumnDef))
    → All ElementOk es
    → All WellFormedColumn (columns_of es)
unfolding columns_of
All-columns_of [] h = tt
All-columns_of (inl c ∷ es) h = All-columns_of es h.1
All-columns_of (inr c ∷ es) h = (h.0, All-columns_of es h.1)

All-constraints_of :
    (es : List (TableConstraint ⊎ ColumnDef))
    → All ElementOk es
    → All WellFormedConstraint (constraints_of es)
unfolding constraints_of
All-constraints_of [] h = tt
All-constraints_of (inl c ∷ es) h = (h.0, All-constraints_of es h.1)
All-constraints_of (inr c ∷ es) h = All-constraints_of es h.1

module _ {source : List ℕ} {K : Token → Type 0} (lib : Clib) where
  parse_element-Ends : Ends source K (AtDefault K) ElementOk (parse_element lib)
  unfolding parse_element
  parse_element-Ends = Ends-peek _ _ λ tok.
      Ends-if _ _ _ _
        (λ _.
          Ends-bind WellFormedConstraint _ parse_table_constraint _ parse_table_constraint-Ends
            λ c q. Ends-ret _ (inl c) q)
        (λ _.
          Ends-bind WellFormedColumn _ (parse_column_def lib) _ (parse_column_def-Ends lib)
            λ c q. Ends-ret _ (inr c) q)

  parse_partitions-Ends :
      Ends source K (AtDefault K) (λ r. Partitioned (some r.0) r.1) (parse_partitions lib)
  unfolding parse_partitions
  parse_partitions-Ends = Ends-expect _ TokenKind.kw_by _ _ tt (
      Ends-expect _ TokenKind.kw_range _ _ tt (
        Ends-expect _ TokenKind.lparen _ _ tt (
          Ends-step _ (name_of (text "expected partition column name")) _ (name_of-Ends _) λ col.
            Ends-expect _ TokenKind.rparen _ _ tt (
              Ends-expect _ TokenKind.lparen _ _ tt (
                Ends-bind (λ xs. (1 ≤ length xs) × All WellFormedPartition xs) _
                  (commas (parse_partition_def lib)) _
                  (Ends-commas WellFormedPartition _ (parse_partition_def-Ends lib))
                  λ defs q. Ends-expect _ TokenKind.rparen _ _ tt (Ends-ret _ (col, defs) q))))))

  pub parse_create_table-Ends : Ends source K (AtDefault K) WellFormedTable (parse_create_table lib)
  unfolding parse_create_table
  parse_create_table-Ends = Ends-expect _ TokenKind.kw_create _ _ tt (
      Ends-expect _ TokenKind.kw_table _ _ tt (
        Ends-step _ (name_of (text "expected table name")) _ (name_of-Ends _) λ name.
          Ends-expect _ TokenKind.lparen _ _ tt (
            Ends-bind (λ xs. (1 ≤ length xs) × All ElementOk xs) _ (commas (parse_element lib)) _
              (Ends-commas ElementOk _ parse_element-Ends)
              λ es q. Ends-expect _ TokenKind.rparen _ _ tt (
                Ends-bind PartsOk _ _ _
                  (Ends-opened_by PartsOk TokenKind.kw_partition none
                    (parse_partitions lib >>= λ p. ret (some p)) tt refl
                    (Ends-bind (λ r. Partitioned (some r.0) r.1) _ (parse_partitions lib) _
                      parse_partitions-Ends λ p r. Ends-ret _ (some p) r))
                  λ parts r. Ends-ret _ _ (All-columns_of es q.1, All-constraints_of es q.1, r)))))

  pub parse_alter_add_partition-Ends :
      Ends source K
        (AtDefault K)
        (λ s. WellFormedPartition s.partition)
        (parse_alter_add_partition lib)
  unfolding parse_alter_add_partition
  parse_alter_add_partition-Ends = Ends-expect _ TokenKind.kw_alter _ _ tt (
      Ends-expect _ TokenKind.kw_table _ _ tt (
        Ends-step _ (name_of (text "expected table name")) _ (name_of-Ends _) λ name.
          Ends-expect _ TokenKind.kw_add _ _ tt (
            Ends-bind WellFormedPartition _ (parse_partition_def lib) _
              (parse_partition_def-Ends lib) λ part q. Ends-ret _ _ q)))
