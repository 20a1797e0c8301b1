-- ===== src/Parser/Ast.antt =====
-- src/parser/ast.h and the operator kinds of src/executor/expression.h: the syntax tree.
use nyxdb.Base.{ℕ, Bool, List, Option}
use nyxdb.Base.Int.{ℤ}
use nyxdb.Value.{TypeId, Value}
use nyxdb.Shard.Defs.{BinaryOpKind}
use nyxdb.Parser.Token.{SourceLoc}

pub data LogicalOpKind : Type 0 where
  and or : LogicalOpKind

pub data NullCheckKind : Type 0 where
  is_null is_not_null : NullCheckKind

-- A double is its 64-bit pattern.
mutual
  pub data Expr : Type 0 where
    int_lit : ℤ → SourceLoc → Expr
    double_lit : ℕ → SourceLoc → Expr
    string_lit : List ℕ → SourceLoc → Expr
    null_lit : SourceLoc → Expr
    bool_lit : Bool → SourceLoc → Expr
    date_lit : List ℕ → SourceLoc → Expr
    timestamp_lit : List ℕ → SourceLoc → Expr
    column_ref : Option (List ℕ) → List ℕ → SourceLoc → Expr
    func_call : List ℕ → Exprs → Bool → SourceLoc → Expr
    binary_op : BinaryOpKind → Expr → Expr → SourceLoc → Expr
    logical_op : LogicalOpKind → Expr → Expr → SourceLoc → Expr
    not_op : Expr → SourceLoc → Expr
    null_check : NullCheckKind → Expr → SourceLoc → Expr

  pub data Exprs : Type 0 where
    nil : Exprs
    cons : Expr → Exprs → Exprs

unfoldable pub expr_loc : Expr → SourceLoc
expr_loc (Expr.int_lit value loc) = loc
expr_loc (Expr.double_lit value loc) = loc
expr_loc (Expr.string_lit value loc) = loc
expr_loc (Expr.null_lit loc) = loc
expr_loc (Expr.bool_lit value loc) = loc
expr_loc (Expr.date_lit value loc) = loc
expr_loc (Expr.timestamp_lit value loc) = loc
expr_loc (Expr.column_ref table column loc) = loc
expr_loc (Expr.func_call name args star loc) = loc
expr_loc (Expr.binary_op op left right loc) = loc
expr_loc (Expr.logical_op op left right loc) = loc
expr_loc (Expr.not_op child loc) = loc
expr_loc (Expr.null_check kind child loc) = loc

pub record SelectItem : Type 0 where
  pub expr : Expr
  pub alias : Option (List ℕ)

pub record TableRef : Type 0 where
  pub table_name : List ℕ
  pub alias : Option (List ℕ)
  pub loc : SourceLoc

pub record JoinClause : Type 0 where
  pub right : TableRef
  pub on : Expr

pub record OrderByItem : Type 0 where
  pub expr : Expr
  pub ascending : Bool

-- A null pointer to an expression is `none`.
pub record SelectStmt : Type 0 where
  pub projections : List SelectItem
  pub star_projection : Bool
  pub from : TableRef
  pub joins : List JoinClause
  pub where_expr : Option Expr
  pub group_by : List Expr
  pub having : Option Expr
  pub order_by : List OrderByItem
  pub limit : Option ℤ
  pub offset : Option ℤ

pub record ColumnDef : Type 0 where
  pub name : List ℕ
  pub type : TypeId
  pub nullable : Bool
  pub max_len : ℕ
  pub is_primary_key : Bool
  pub is_unique : Bool
  pub default_value : Option Value

pub data ConstraintKind : Type 0 where
  primary_key unique : ConstraintKind

pub record TableConstraint : Type 0 where
  pub kind : ConstraintKind
  pub name : List ℕ
  pub columns : List (List ℕ)

pub record PartitionDefAst : Type 0 where
  pub name : List ℕ
  pub is_maxvalue : Bool
  pub upper_bound : Option Expr
  pub node_addr : List ℕ

pub record CreateTableStmt : Type 0 where
  pub table_name : List ℕ
  pub columns : List ColumnDef
  pub constraints : List TableConstraint
  pub partition_col : Option (List ℕ)
  pub partition_defs : List PartitionDefAst

pub record InsertStmt : Type 0 where
  pub table_name : List ℕ
  pub columns : List (List ℕ)
  pub rows : List (List Expr)

pub record DropTableStmt : Type 0 where
  pub table_name : List ℕ
  pub if_exists : Bool

pub record DeleteStmt : Type 0 where
  pub table_name : List ℕ
  pub where_expr : Option Expr

pub record Assignment : Type 0 where
  pub column : List ℕ
  pub value : Expr

pub record UpdateStmt : Type 0 where
  pub table_name : List ℕ
  pub assignments : List Assignment
  pub where_expr : Option Expr

pub record CreateIndexStmt : Type 0 where
  pub index_name : List ℕ
  pub table_name : List ℕ
  pub column_names : List (List ℕ)
  pub unique : Bool

pub record DropIndexStmt : Type 0 where
  pub index_name : List ℕ
  pub table_name : List ℕ

pub record AlterAddPartitionStmt : Type 0 where
  pub table_name : List ℕ
  pub partition : PartitionDefAst

-- `show_indexes`, `show_constraints` and `vacuum` hold the name of a table.
pub data Statement : Type 0 where
  select : SelectStmt → Statement
  create_table : CreateTableStmt → Statement
  insert : InsertStmt → Statement
  drop_table : DropTableStmt → Statement
  delete : DeleteStmt → Statement
  update : UpdateStmt → Statement
  create_index : CreateIndexStmt → Statement
  drop_index : DropIndexStmt → Statement
  show_indexes : List ℕ → Statement
  show_constraints : List ℕ → Statement
  vacuum : List ℕ → Statement
  alter_add_partition : AlterAddPartitionStmt → Statement
