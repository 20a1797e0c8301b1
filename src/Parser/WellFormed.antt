-- ===== src/Parser/WellFormed.antt =====
-- Well-formed statements of src/parser/ast.h.
use nyxdb.Base.{ℕ, ◌≤◌, ◌≡◌, ◌≢◌, Bool, true, false, List, [], Option, none, some, length, All}
use nyxdb.Value.{TypeId}
use nyxdb.Parser.Ast.{
  Expr, SelectItem, ColumnDef, TableConstraint, PartitionDefAst, CreateTableStmt, InsertStmt,
  Statement,
}

-- The star, or items, not both.
abbrev pub StarOr : Bool → List SelectItem → Type 0
StarOr true items = items ≡ []
StarOr false items = 1 ≤ length items

abbrev pub WellFormedColumn : ColumnDef → Type 0
WellFormedColumn c =
    (c.type ≢ TypeId.invalid)
    × (1 ≤ c.max_len)
    × (c.max_len ≤ 65535)
    × (c.is_primary_key ≡ true → c.nullable ≡ false)

abbrev pub WellFormedConstraint : TableConstraint → Type 0
WellFormedConstraint c = 1 ≤ length c.columns

-- MAXVALUE, or an upper bound, not both.
abbrev pub MaxOr : Bool → Option Expr → Type 0
MaxOr true bound = bound ≡ none
MaxOr false none = ⊥
MaxOr false (some e) = Unit {0}

abbrev pub WellFormedPartition : PartitionDefAst → Type 0
WellFormedPartition p = MaxOr p.is_maxvalue p.upper_bound

-- No partitions without a column to partition by, and none of them missing.
abbrev pub Partitioned : Option (List ℕ) → List PartitionDefAst → Type 0
Partitioned none defs = defs ≡ []
Partitioned (some col) defs = (1 ≤ length defs) × All WellFormedPartition defs

abbrev pub WellFormedTable : CreateTableStmt → Type 0
WellFormedTable s =
    All WellFormedColumn s.columns
    × All WellFormedConstraint s.constraints
    × Partitioned s.partition_col s.partition_defs

abbrev pub NonEmpty : {A : Type 0} → List A → Type 0
NonEmpty xs = 1 ≤ length xs

abbrev pub WellFormedInsert : InsertStmt → Type 0
WellFormedInsert s = NonEmpty s.rows × All NonEmpty s.rows

abbrev pub WellFormed : Statement → Type 0
WellFormed (Statement.select s) = StarOr s.star_projection s.projections
WellFormed (Statement.create_table s) = WellFormedTable s
WellFormed (Statement.insert s) = WellFormedInsert s
WellFormed (Statement.drop_table s) = Unit {0}
WellFormed (Statement.delete s) = Unit {0}
WellFormed (Statement.update s) = NonEmpty s.assignments
WellFormed (Statement.create_index s) = NonEmpty s.column_names
WellFormed (Statement.drop_index s) = Unit {0}
WellFormed (Statement.show_indexes table) = Unit {0}
WellFormed (Statement.show_constraints table) = Unit {0}
WellFormed (Statement.vacuum table) = Unit {0}
WellFormed (Statement.alter_add_partition s) = WellFormedPartition s.partition
