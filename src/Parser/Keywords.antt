-- ===== src/Parser/Keywords.antt =====
-- keyword_table of src/parser/lexer.cpp.
use nyxdb.Base.{ℕ, List, [], ◌∷◌, Option, none, some, if◌then◌else◌}
use nyxdb.Base.Strings.{str_eq, text}
use nyxdb.Parser.Token.{TokenKind}

unfoldable pub keyword_table : List (List ℕ × TokenKind)
keyword_table =
    (text "select", TokenKind.kw_select)
    ∷ (text "from", TokenKind.kw_from)
    ∷ (text "where", TokenKind.kw_where)
    ∷ (text "group", TokenKind.kw_group)
    ∷ (text "by", TokenKind.kw_by)
    ∷ (text "having", TokenKind.kw_having)
    ∷ (text "order", TokenKind.kw_order)
    ∷ (text "asc", TokenKind.kw_asc)
    ∷ (text "desc", TokenKind.kw_desc)
    ∷ (text "limit", TokenKind.kw_limit)
    ∷ (text "offset", TokenKind.kw_offset)
    ∷ (text "join", TokenKind.kw_join)
    ∷ (text "inner", TokenKind.kw_inner)
    ∷ (text "on", TokenKind.kw_on)
    ∷ (text "as", TokenKind.kw_as)
    ∷ (text "and", TokenKind.kw_and)
    ∷ (text "or", TokenKind.kw_or)
    ∷ (text "not", TokenKind.kw_not)
    ∷ (text "is", TokenKind.kw_is)
    ∷ (text "null", TokenKind.kw_null)
    ∷ (text "create", TokenKind.kw_create)
    ∷ (text "table", TokenKind.kw_table)
    ∷ (text "insert", TokenKind.kw_insert)
    ∷ (text "into", TokenKind.kw_into)
    ∷ (text "values", TokenKind.kw_values)
    ∷ (text "int", TokenKind.kw_int)
    ∷ (text "integer", TokenKind.kw_integer)
    ∷ (text "bigint", TokenKind.kw_bigint)
    ∷ (text "double", TokenKind.kw_double)
    ∷ (text "varchar", TokenKind.kw_varchar)
    ∷ (text "nvarchar", TokenKind.kw_nvarchar)
    ∷ (text "drop", TokenKind.kw_drop)
    ∷ (text "if", TokenKind.kw_if)
    ∷ (text "exists", TokenKind.kw_exists)
    ∷ (text "delete", TokenKind.kw_delete)
    ∷ (text "update", TokenKind.kw_update)
    ∷ (text "set", TokenKind.kw_set)
    ∷ (text "bool", TokenKind.kw_bool)
    ∷ (text "boolean", TokenKind.kw_boolean)
    ∷ (text "true", TokenKind.kw_true)
    ∷ (text "false", TokenKind.kw_false)
    ∷ (text "date", TokenKind.kw_date)
    ∷ (text "timestamp", TokenKind.kw_timestamp)
    ∷ (text "index", TokenKind.kw_index)
    ∷ (text "unique", TokenKind.kw_unique)
    ∷ (text "show", TokenKind.kw_show)
    ∷ (text "indexes", TokenKind.kw_indexes)
    ∷ (text "primary", TokenKind.kw_primary)
    ∷ (text "key", TokenKind.kw_key)
    ∷ (text "default", TokenKind.kw_default)
    ∷ (text "constraint", TokenKind.kw_constraint)
    ∷ (text "constraints", TokenKind.kw_constraints)
    ∷ (text "vacuum", TokenKind.kw_vacuum)
    ∷ (text "partition", TokenKind.kw_partition)
    ∷ (text "range", TokenKind.kw_range)
    ∷ (text "less", TokenKind.kw_less)
    ∷ (text "than", TokenKind.kw_than)
    ∷ (text "maxvalue", TokenKind.kw_maxvalue)
    ∷ (text "alter", TokenKind.kw_alter)
    ∷ (text "add", TokenKind.kw_add)
    ∷ []

-- `find` on the table.
unfoldable pub find_keyword : List ℕ → List (List ℕ × TokenKind) → Option TokenKind
unfolding str_eq
find_keyword word [] = none
find_keyword word ((name, kind) ∷ rest) =
    let further = find_keyword word rest in if str_eq name word then some kind else further
