-- ===== src/Parser/Kind.antt =====
-- src/parser/token.h: the underlying number of a token's kind, and its `==`.
use nyxdb.Base.{ℕ, Bool, ◌==◌}
use nyxdb.Parser.Token.{TokenKind}

unfoldable pub kind_code : TokenKind → ℕ
kind_code TokenKind.int_literal = 0
kind_code TokenKind.double_literal = 1
kind_code TokenKind.string_literal = 2
kind_code TokenKind.identifier = 3
kind_code TokenKind.lparen = 4
kind_code TokenKind.rparen = 5
kind_code TokenKind.comma = 6
kind_code TokenKind.semicolon = 7
kind_code TokenKind.dot = 8
kind_code TokenKind.star = 9
kind_code TokenKind.plus = 10
kind_code TokenKind.minus = 11
kind_code TokenKind.slash = 12
kind_code TokenKind.lt = 13
kind_code TokenKind.le = 14
kind_code TokenKind.eq = 15
kind_code TokenKind.ne = 16
kind_code TokenKind.ge = 17
kind_code TokenKind.gt = 18
kind_code TokenKind.kw_select = 19
kind_code TokenKind.kw_from = 20
kind_code TokenKind.kw_where = 21
kind_code TokenKind.kw_group = 22
kind_code TokenKind.kw_by = 23
kind_code TokenKind.kw_having = 24
kind_code TokenKind.kw_order = 25
kind_code TokenKind.kw_asc = 26
kind_code TokenKind.kw_desc = 27
kind_code TokenKind.kw_limit = 28
kind_code TokenKind.kw_offset = 29
kind_code TokenKind.kw_join = 30
kind_code TokenKind.kw_inner = 31
kind_code TokenKind.kw_on = 32
kind_code TokenKind.kw_as = 33
kind_code TokenKind.kw_and = 34
kind_code TokenKind.kw_or = 35
kind_code TokenKind.kw_not = 36
kind_code TokenKind.kw_is = 37
kind_code TokenKind.kw_null = 38
kind_code TokenKind.kw_create = 39
kind_code TokenKind.kw_table = 40
kind_code TokenKind.kw_insert = 41
kind_code TokenKind.kw_into = 42
kind_code TokenKind.kw_values = 43
kind_code TokenKind.kw_int = 44
kind_code TokenKind.kw_integer = 45
kind_code TokenKind.kw_bigint = 46
kind_code TokenKind.kw_double = 47
kind_code TokenKind.kw_varchar = 48
kind_code TokenKind.kw_nvarchar = 49
kind_code TokenKind.kw_drop = 50
kind_code TokenKind.kw_if = 51
kind_code TokenKind.kw_exists = 52
kind_code TokenKind.kw_delete = 53
kind_code TokenKind.kw_update = 54
kind_code TokenKind.kw_set = 55
kind_code TokenKind.kw_bool = 56
kind_code TokenKind.kw_boolean = 57
kind_code TokenKind.kw_true = 58
kind_code TokenKind.kw_false = 59
kind_code TokenKind.kw_date = 60
kind_code TokenKind.kw_timestamp = 61
kind_code TokenKind.kw_index = 62
kind_code TokenKind.kw_unique = 63
kind_code TokenKind.kw_show = 64
kind_code TokenKind.kw_indexes = 65
kind_code TokenKind.kw_primary = 66
kind_code TokenKind.kw_key = 67
kind_code TokenKind.kw_default = 68
kind_code TokenKind.kw_constraint = 69
kind_code TokenKind.kw_constraints = 70
kind_code TokenKind.kw_vacuum = 71
kind_code TokenKind.kw_partition = 72
kind_code TokenKind.kw_range = 73
kind_code TokenKind.kw_less = 74
kind_code TokenKind.kw_than = 75
kind_code TokenKind.kw_maxvalue = 76
kind_code TokenKind.kw_alter = 77
kind_code TokenKind.kw_add = 78
kind_code TokenKind.end_of_file = 79

unfoldable pub is_kind : TokenKind → TokenKind → Bool
unfolding kind_code
is_kind a b = kind_code a == kind_code b
