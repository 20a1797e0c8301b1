-- ===== src/Parser/Token.antt =====
-- src/parser/token.h and source_loc.h: the kinds of token, with token_kind_name of
-- src/parser/lexer.cpp.
use nyxdb.Base.{ℕ, List}
use nyxdb.Base.Strings.{text}

pub data TokenKind : Type 0 where
  int_literal double_literal string_literal identifier lparen rparen : TokenKind
  comma semicolon dot star plus minus : TokenKind
  slash lt le eq ne ge : TokenKind
  gt kw_select kw_from kw_where kw_group kw_by : TokenKind
  kw_having kw_order kw_asc kw_desc kw_limit kw_offset : TokenKind
  kw_join kw_inner kw_on kw_as kw_and kw_or : TokenKind
  kw_not kw_is kw_null kw_create kw_table kw_insert : TokenKind
  kw_into kw_values kw_int kw_integer kw_bigint kw_double : TokenKind
  kw_varchar kw_nvarchar kw_drop kw_if kw_exists kw_delete : TokenKind
  kw_update kw_set kw_bool kw_boolean kw_true kw_false : TokenKind
  kw_date kw_timestamp kw_index kw_unique kw_show kw_indexes : TokenKind
  kw_primary kw_key kw_default kw_constraint kw_constraints kw_vacuum : TokenKind
  kw_partition kw_range kw_less kw_than kw_maxvalue kw_alter : TokenKind
  kw_add end_of_file : TokenKind

pub record SourceLoc : Type 0 where
  pub offset : ℕ
  pub length : ℕ

pub record Token : Type 0 where
  pub kind : TokenKind
  pub loc : SourceLoc
  pub text : List ℕ

unfoldable pub token_kind_name : TokenKind → List ℕ
token_kind_name TokenKind.int_literal = text "INT_LITERAL"
token_kind_name TokenKind.double_literal = text "DOUBLE_LITERAL"
token_kind_name TokenKind.string_literal = text "STRING_LITERAL"
token_kind_name TokenKind.identifier = text "IDENTIFIER"
token_kind_name TokenKind.lparen = text "("
token_kind_name TokenKind.rparen = text ")"
token_kind_name TokenKind.comma = text ","
token_kind_name TokenKind.semicolon = text ";"
token_kind_name TokenKind.dot = text "."
token_kind_name TokenKind.star = text "*"
token_kind_name TokenKind.plus = text "+"
token_kind_name TokenKind.minus = text "-"
token_kind_name TokenKind.slash = text "/"
token_kind_name TokenKind.lt = text "<"
token_kind_name TokenKind.le = text "<="
token_kind_name TokenKind.eq = text "="
token_kind_name TokenKind.ne = text "<>"
token_kind_name TokenKind.ge = text ">="
token_kind_name TokenKind.gt = text ">"
token_kind_name TokenKind.kw_select = text "SELECT"
token_kind_name TokenKind.kw_from = text "FROM"
token_kind_name TokenKind.kw_where = text "WHERE"
token_kind_name TokenKind.kw_group = text "GROUP"
token_kind_name TokenKind.kw_by = text "BY"
token_kind_name TokenKind.kw_having = text "HAVING"
token_kind_name TokenKind.kw_order = text "ORDER"
token_kind_name TokenKind.kw_asc = text "ASC"
token_kind_name TokenKind.kw_desc = text "DESC"
token_kind_name TokenKind.kw_limit = text "LIMIT"
token_kind_name TokenKind.kw_offset = text "OFFSET"
token_kind_name TokenKind.kw_join = text "JOIN"
token_kind_name TokenKind.kw_inner = text "INNER"
token_kind_name TokenKind.kw_on = text "ON"
token_kind_name TokenKind.kw_as = text "AS"
token_kind_name TokenKind.kw_and = text "AND"
token_kind_name TokenKind.kw_or = text "OR"
token_kind_name TokenKind.kw_not = text "NOT"
token_kind_name TokenKind.kw_is = text "IS"
token_kind_name TokenKind.kw_null = text "NULL"
token_kind_name TokenKind.kw_create = text "CREATE"
token_kind_name TokenKind.kw_table = text "TABLE"
token_kind_name TokenKind.kw_insert = text "INSERT"
token_kind_name TokenKind.kw_into = text "INTO"
token_kind_name TokenKind.kw_values = text "VALUES"
token_kind_name TokenKind.kw_int = text "INT"
token_kind_name TokenKind.kw_integer = text "INTEGER"
token_kind_name TokenKind.kw_bigint = text "BIGINT"
token_kind_name TokenKind.kw_double = text "DOUBLE"
token_kind_name TokenKind.kw_varchar = text "VARCHAR"
token_kind_name TokenKind.kw_nvarchar = text "NVARCHAR"
token_kind_name TokenKind.kw_drop = text "DROP"
token_kind_name TokenKind.kw_if = text "IF"
token_kind_name TokenKind.kw_exists = text "EXISTS"
token_kind_name TokenKind.kw_delete = text "DELETE"
token_kind_name TokenKind.kw_update = text "UPDATE"
token_kind_name TokenKind.kw_set = text "SET"
token_kind_name TokenKind.kw_bool = text "BOOL"
token_kind_name TokenKind.kw_boolean = text "BOOLEAN"
token_kind_name TokenKind.kw_true = text "TRUE"
token_kind_name TokenKind.kw_false = text "FALSE"
token_kind_name TokenKind.kw_date = text "DATE"
token_kind_name TokenKind.kw_timestamp = text "TIMESTAMP"
token_kind_name TokenKind.kw_index = text "INDEX"
token_kind_name TokenKind.kw_unique = text "UNIQUE"
token_kind_name TokenKind.kw_show = text "SHOW"
token_kind_name TokenKind.kw_indexes = text "INDEXES"
token_kind_name TokenKind.kw_primary = text "PRIMARY"
token_kind_name TokenKind.kw_key = text "KEY"
token_kind_name TokenKind.kw_default = text "DEFAULT"
token_kind_name TokenKind.kw_constraint = text "CONSTRAINT"
token_kind_name TokenKind.kw_constraints = text "CONSTRAINTS"
token_kind_name TokenKind.kw_vacuum = text "VACUUM"
token_kind_name TokenKind.kw_partition = text "PARTITION"
token_kind_name TokenKind.kw_range = text "RANGE"
token_kind_name TokenKind.kw_less = text "LESS"
token_kind_name TokenKind.kw_than = text "THAN"
token_kind_name TokenKind.kw_maxvalue = text "MAXVALUE"
token_kind_name TokenKind.kw_alter = text "ALTER"
token_kind_name TokenKind.kw_add = text "ADD"
token_kind_name TokenKind.end_of_file = text "EOF"
