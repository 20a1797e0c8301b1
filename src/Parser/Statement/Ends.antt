-- ===== src/Parser/Statement/Ends.antt =====
-- How parse_statement and parse of src/parser/parser.cpp end.
use nyxdb.Base.{ℕ, zero, suc, ◌≤◌, refl, List, [], ◌∷◌, arith, if◌then◌else◌, All}
use nyxdb.Base.Strings.{text}
use nyxdb.Parser.Token.{TokenKind, Token}
use nyxdb.Parser.Ast.{Statement}
use nyxdb.Parser.State.{Parser, Parse, ◌>>=◌, ret, at_kind, fail, left}
use nyxdb.Parser.State.Reads.{
  Is, Closed, tokens, Good, Reads, Reads-ret, Reads-bind, Reads-if, Reads-fail,
}
use nyxdb.Parser.State.Tokens.{Reads-at_kind, Reads-match, Reads-expect}
use nyxdb.Parser.State.Ends.{
  Any, Value_is, Ends, Ends-ret, Ends-fail, Ends-bind, Ends-peek, ends_rules,
}
use nyxdb.Parser.Expr.Sound.{Among, Inside-Among}
use nyxdb.Parser.Select.Ends.{parse_select-Ends}
use nyxdb.Parser.Default.{Clib}
use nyxdb.Parser.Column.Ends.{name_of-Ends, AtDefault}
use nyxdb.Parser.CreateTable.{parse_create_table}
use nyxdb.Parser.Dml.{parse_create_index}
use nyxdb.Parser.CreateTable.Ends.{parse_create_table-Ends, parse_alter_add_partition-Ends}
use nyxdb.Parser.Dml.Ends.{
  parse_drop_table-Ends, parse_drop_index-Ends, parse_show_indexes-Ends,
  parse_show_constraints-Ends, parse_create_index-Ends, parse_insert-Ends, parse_delete-Ends,
  parse_update-Ends,
}
use nyxdb.Parser.Statement.{
  as_statement, parse_create, parse_drop, parse_show, parse_vacuum, statement_of,
  parse_one_statement, parse_statement, statements_loop, parse,
}
use nyxdb.Parser.WellFormed.{WellFormed}

module _ {source : List ℕ} {K : Token → Type 0} {T : Type 0} where
  as_statement-Ends :
      {A : Type 0} (Q : A → Type 0) (make : A → Statement) (m : Parse A)
      → ((a : A) → Q a → WellFormed (make a))
      → Ends source K T Q m
      → Ends source K T WellFormed (as_statement make m)
  as_statement-Ends Q make m w e = Ends-bind Q _ m _ e (λ a q. Ends-ret _ (make a) (w a q))

module _ {source : List ℕ} {K : Token → Type 0} (lib : Clib) where
  created_table-Ends :
      Ends source K
        (AtDefault K)
        WellFormed
        (as_statement Statement.create_table (parse_create_table lib))
  created_table-Ends =
      as_statement-Ends _ Statement.create_table _ (λ a q. q) (parse_create_table-Ends lib)

  created_index-Ends :
      Ends source K
        (AtDefault K)
        WellFormed
        (as_statement Statement.create_index parse_create_index)
  created_index-Ends =
      as_statement-Ends _ Statement.create_index _ (λ a q. q) parse_create_index-Ends

  parse_create-Ends : Ends source K (AtDefault K) WellFormed (parse_create lib)
  unfolding parse_create
  parse_create-Ends = search (ends_rules, created_table-Ends, created_index-Ends) depth 20

  parse_drop-Ends : Ends source K (AtDefault K) WellFormed (parse_drop lib)
  unfolding parse_drop
  parse_drop-Ends = search (ends_rules, parse_drop_table-Ends, parse_drop_index-Ends) depth 20

  parse_show-Ends : Ends source K (AtDefault K) WellFormed (parse_show lib)
  unfolding parse_show
  parse_show-Ends =
      search (ends_rules, parse_show_constraints-Ends, parse_show_indexes-Ends) depth 20

  parse_vacuum-Ends : Ends source K (AtDefault K) WellFormed (parse_vacuum lib)
  unfolding parse_vacuum
  parse_vacuum-Ends = search (ends_rules, name_of-Ends) depth 20

  statement_of-Ends : (k : TokenKind) → Ends source K (AtDefault K) WellFormed (statement_of lib k)
  unfolding statement_of
  statement_of-Ends TokenKind.kw_select =
      as_statement-Ends _ Statement.select _ (λ a q. q) (parse_select-Ends lib.strtod)
  statement_of-Ends TokenKind.kw_create = parse_create-Ends
  statement_of-Ends TokenKind.kw_insert =
      as_statement-Ends _ Statement.insert _ (λ a q. q) (parse_insert-Ends lib.strtod)
  statement_of-Ends TokenKind.kw_drop = parse_drop-Ends
  statement_of-Ends TokenKind.kw_show = parse_show-Ends
  statement_of-Ends TokenKind.kw_delete =
      as_statement-Ends Any Statement.delete _ (λ a q. q) (parse_delete-Ends lib.strtod)
  statement_of-Ends TokenKind.kw_update =
      as_statement-Ends _ Statement.update _ (λ a q. q) (parse_update-Ends lib.strtod)
  statement_of-Ends TokenKind.kw_vacuum = parse_vacuum-Ends
  statement_of-Ends TokenKind.kw_alter =
      as_statement-Ends _ Statement.alter_add_partition _ (λ a q. q)
        (parse_alter_add_partition-Ends lib)
  statement_of-Ends _ = Ends-fail _ _

  parse_one_statement-Ends : Ends source K (AtDefault K) WellFormed (parse_one_statement lib)
  unfolding parse_one_statement
  parse_one_statement-Ends = Ends-peek _ _ (λ t. statement_of-Ends t.kind)

  -- What follows the statement of parse_statement.
  closing-Reads :
      (b : ℕ) (t : Token) (s : Statement)
      → WellFormed s
      → Reads source K
          (AtDefault K)
          b
          t
          (λ front s next. WellFormed s × Is TokenKind.end_of_file next)
          (at_kind TokenKind.end_of_file >>= λ ended.
            if ended then ret s else fail (text "unexpected token after statement"))
  closing-Reads b t s w =
      Reads-at_kind b t _ TokenKind.end_of_file _
        (Reads-if b t _ _ _ _ (λ i. Reads-ret b t _ s (w, i)) (λ _. Reads-fail b t _ _))

  parse_statement-Reads :
      (b : ℕ) (t : Token)
      → Reads source K
          (AtDefault K)
          b
          t
          (λ front s next. WellFormed s × Is TokenKind.end_of_file next)
          (parse_statement lib)
  unfolding parse_statement
  parse_statement-Reads b t =
      Reads-bind b t (Value_is WellFormed) _ (parse_one_statement lib) _
        (parse_one_statement-Ends.reads b t)
        λ front s u c w ku fit.
          Reads-match c u _ TokenKind.semicolon _ tt (λ i v d kv m. closing-Reads d v s w)
            (closing-Reads c u s w)

  statements_loop-Reads :
      (n b : ℕ) (t : Token)
      → suc b ≤ n
      → Reads source K
          (AtDefault K)
          b
          t
          (λ front ss next. All WellFormed ss × Is TokenKind.end_of_file next)
          (statements_loop lib n)
  unfolding statements_loop
  statements_loop-Reads zero b t l = absurd (omega arith)
  statements_loop-Reads (suc n) b t l = Reads-at_kind b t _ TokenKind.end_of_file _ (
      Reads-if b t _ _ _ _ (λ i. Reads-ret b t _ [] (tt, i))
        (λ _.
          Reads-bind b t (Value_is WellFormed) _ (parse_one_statement lib) _
            (parse_one_statement-Ends.reads b t)
            λ front s u c w ku fit. Reads-at_kind c u _ TokenKind.end_of_file _ (
              Reads-if c u _ _ _ _ (λ i. Reads-ret c u _ (s ∷ []) ((w, tt), i))
                (λ _. Reads-expect c u _ TokenKind.semicolon _ _ tt λ j v d kv m.
                  Reads-bind d v (λ back ss next. All WellFormed ss × Is TokenKind.end_of_file next)
                    _ (statements_loop lib n) _ (statements_loop-Reads n d v (omega arith))
                    λ back ss x e q kx fit'. Reads-ret e x _ (s ∷ ss) ((w, q.0), q.1)))))

-- On tokens of which the last is the end of the file, parse ends. It returns statements only at an
-- end of the file, and all of them are well formed: a SELECT has a star or else at least one item; a
-- column of CREATE TABLE has a type, a length from 1 to 65535, and is not nullable if it is the primary
-- key; a table constraint or an index names a column; a table has partitions exactly if it has a
-- partition column, and each has MAXVALUE or else a bound; INSERT has a row and no empty row; UPDATE
-- has an assignment. Otherwise it returns an error, whose message is rendered at one of the tokens, or
-- it throws, overflows or reads behind an array, and then one of the tokens is DEFAULT.
pub parse-WellFormed :
    (lib : Clib) (p : Parser)
    → Closed p.tok p.rest
    → Good p.source
        (Among (tokens p))
        (AtDefault (Among (tokens p)))
        (λ front ss next. All WellFormed ss × Is TokenKind.end_of_file next)
        p
        (parse lib p)
unfolding parse
parse-WellFormed lib p h =
    (statements_loop-Reads lib (suc (left p)) (left p) p.tok (omega arith)).at p (Inside-Among p h)
      refl (omega arith)

-- The same of parse_statement, for the one statement that it returns.
pub parse_statement-WellFormed :
    (lib : Clib) (p : Parser)
    → Closed p.tok p.rest
    → Good p.source
        (Among (tokens p))
        (AtDefault (Among (tokens p)))
        (λ front s next. WellFormed s × Is TokenKind.end_of_file next)
        p
        (parse_statement lib p)
parse_statement-WellFormed lib p h =
    (parse_statement-Reads lib (left p) p.tok).at p (Inside-Among p h) refl (omega arith)
