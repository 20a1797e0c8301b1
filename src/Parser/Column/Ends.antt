-- ===== src/Parser/Column/Ends.antt =====
-- How names, and the columns of CREATE TABLE, of src/parser/parser.cpp end.
use nyxdb.Base.{ℕ, zero, suc, ◌≤◌, ◌≢◌, refl, true, false, List, some, arith, All}
use nyxdb.Base.Int.{ℤ, ltb_ℤ, pos_part}
use nyxdb.Base.Strings.{text}
use nyxdb.Value.{TypeId}
use nyxdb.Parser.Token.{TokenKind, Token}
use nyxdb.Parser.Ast.{ColumnDef}
use nyxdb.Parser.State.{◌>>=◌, ret, consume, commas, left}
use nyxdb.Parser.State.Reads.{Is, Reads, Reads-ret, Reads-bind, Reads-if, Reads-known}
use nyxdb.Parser.State.Tokens.{Reads-consume, Reads-expect, Reads-peek}
use nyxdb.Parser.State.Ends.{
  Any, Value_is, Ends, Ends-if, Ends-ret, Ends-fail, Ends-bind, Ends-step, Ends-consume,
  Ends-commas, Ends-expect, Ends-peek, Ends-opened_by, ends_rules,
}
use nyxdb.Parser.Select.{parse_int_literal}
use nyxdb.Parser.Select.Ends.{parse_int_literal-Ends}
use nyxdb.Parser.Default.{Clib, parse_default_literal}
use nyxdb.Parser.Default.Ends.{parse_default_literal-Ends}
use nyxdb.Parser.Column.{
  name_of, column_names, varchar_len, varchar, column_type, fresh_column, column_flags,
  parse_column_flags, parse_column_def,
}
use nyxdb.Parser.WellFormed.{NonEmpty, WellFormedColumn}

abbrev TypeOk : TypeId × ℕ → Type 0
TypeOk (type, n) = (type ≢ TypeId.invalid) × (1 ≤ n) × (n ≤ 65535)

module _ {source : List ℕ} {K : Token → Type 0} {T : Type 0} where
  pub name_of-Ends : (message : List ℕ) → Ends source K T Any (name_of message)
  unfolding name_of
  name_of-Ends message = search ends_rules depth 20

  pub column_names-Ends : Ends source K T NonEmpty column_names
  unfolding column_names
  column_names-Ends = Ends-expect _ TokenKind.lparen _ _ tt (
      Ends-bind (λ xs. NonEmpty xs × All Any xs) _ (commas (name_of (text "expected column name")))
        _ (Ends-commas Any _ (name_of-Ends _))
        λ names q. Ends-expect _ TokenKind.rparen _ _ tt (Ends-ret _ names q.0))

  varchar_len-Ends : Ends source K T (λ n. (1 ≤ n) × (n ≤ 65535)) varchar_len
  unfolding varchar_len
  varchar_len-Ends =
      Ends-step _ (parse_int_literal (text "VARCHAR")) _ (parse_int_literal-Ends _) λ n.
        Ends-if _ (ltb_ℤ (ℤ.pos 0) n) _ _
          (λ low.
            Ends-if _ (ltb_ℤ (ℤ.pos 65535) n) _ _ (λ _. Ends-fail _ _)
              (λ high.
                Ends-expect _ TokenKind.rparen _ _ tt
                  (Ends-ret _ (pos_part n) (ground (arith, low, high)))))
          (λ _. Ends-fail _ _)

  plain-Ends :
      (type : TypeId)
      → type ≢ TypeId.invalid
      → Ends source K T TypeOk (consume >>= λ _. ret (type, 255))
  plain-Ends type v = Ends-consume _ _ (λ _. Ends-ret _ (type, 255) (v, omega arith, omega arith))

  varchar-Ends : Ends source K T TypeOk varchar
  unfolding varchar
  varchar-Ends = Ends-consume _ _ λ _.
      Ends-bind (λ n. (1 ≤ n) × (n ≤ 65535)) _ _ _
        (Ends-opened_by _ TokenKind.lparen 255 varchar_len tt (omega arith) varchar_len-Ends)
        λ n q. Ends-ret _ (TypeId.varchar, n) (λ e. cc e, q.0, q.1)

  column_type-Ends : (k : TokenKind) → Ends source K T TypeOk (column_type k)
  unfolding column_type
  column_type-Ends TokenKind.kw_int = plain-Ends TypeId.int32 (λ e. cc e)
  column_type-Ends TokenKind.kw_integer = plain-Ends TypeId.int32 (λ e. cc e)
  column_type-Ends TokenKind.kw_bigint = plain-Ends TypeId.int64 (λ e. cc e)
  column_type-Ends TokenKind.kw_double = plain-Ends TypeId.double (λ e. cc e)
  column_type-Ends TokenKind.kw_varchar = varchar-Ends
  column_type-Ends TokenKind.kw_nvarchar = varchar-Ends
  column_type-Ends TokenKind.kw_bool = plain-Ends TypeId.bool (λ e. cc e)
  column_type-Ends TokenKind.kw_boolean = plain-Ends TypeId.bool (λ e. cc e)
  column_type-Ends TokenKind.kw_date = plain-Ends TypeId.date (λ e. cc e)
  column_type-Ends TokenKind.kw_timestamp = plain-Ends TypeId.timestamp (λ e. cc e)
  column_type-Ends _ = Ends-fail _ _

-- A token DEFAULT among those that `K` holds of.
abbrev pub AtDefault : (Token → Type 0) → Type 0
AtDefault K = (t : Token) × K t × Is TokenKind.kw_default t

module _ {source : List ℕ} {K : Token → Type 0} (lib : Clib) where
  column_flags-Reads :
      (n b : ℕ) (t : Token) (c : ColumnDef)
      → suc b ≤ n
      → WellFormedColumn c
      → Reads source K (AtDefault K) b t (Value_is WellFormedColumn) (column_flags lib n c)
  unfolding column_flags
  column_flags-Reads zero b t c l w = absurd (omega arith)
  column_flags-Reads (suc n) b t c l w = Reads-known b t _ _ λ k. Reads-peek b t _ _ (
      Reads-if b t _ _ _ _
        (λ i. Reads-consume b t _ TokenKind.kw_not _ tt i λ u d ku m.
          Reads-expect d u _ TokenKind.kw_null _ _ tt λ j v e kv m'.
            column_flags-Reads n e v (record c { nullable = false }) (omega arith)
              (w.0, w.1, w.2, λ _. refl))
        (λ _.
          Reads-if b t _ _ _ _
            (λ i. Reads-consume b t _ TokenKind.kw_primary _ tt i λ u d ku m.
              Reads-expect d u _ TokenKind.kw_key _ _ tt λ j v e kv m'.
                column_flags-Reads n e v (record c { is_primary_key = true; nullable = false })
                  (omega arith) (w.0, w.1, w.2, λ _. refl))
            (λ _.
              Reads-if b t _ _ _ _
                (λ i. Reads-consume b t _ TokenKind.kw_unique _ tt i λ u d ku m.
                  column_flags-Reads n d u (record c { is_unique = true }) (omega arith) w)
                (λ _.
                  Reads-if b t _ _ _ _
                    (λ i. Reads-consume b t _ TokenKind.kw_default _ tt i λ u d ku m.
                      Reads-bind d u (Value_is Any) _ (parse_default_literal lib) _
                        ((parse_default_literal-Ends source K (AtDefault K) (t, k, i) lib).reads d
                          u)
                        λ front v x e q kx fit.
                          column_flags-Reads n e x (record c { default_value = some v })
                            (omega arith) w)
                    (λ _. Reads-ret b t _ c w)))))

  parse_column_flags-Ends :
      (c : ColumnDef)
      → WellFormedColumn c
      → Ends source K (AtDefault K) WellFormedColumn (parse_column_flags lib c)
  unfolding parse_column_flags
  parse_column_flags-Ends c w = record {
    reads = λ b t. record {
      at = λ p h e l.
          (column_flags-Reads (suc (left p)) (left p) t c (omega arith) w).at p h e (omega arith);
    };
  }

  pub parse_column_def-Ends : Ends source K (AtDefault K) WellFormedColumn (parse_column_def lib)
  unfolding parse_column_def
  parse_column_def-Ends =
      Ends-step _ (name_of (text "expected column name")) _ (name_of-Ends _) λ name.
        Ends-peek _ _ λ t.
          Ends-bind TypeOk _ (column_type t.kind) _ (column_type-Ends t.kind) λ (type, n) q.
            parse_column_flags-Ends (fresh_column name type n) (q.0, q.1, q.2, λ e. cc e)
