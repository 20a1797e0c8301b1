-- ===== src/Parser.antt =====
-- src/parser: from the text of a statement to its tokens.
pub mod Token
pub mod Keywords
pub mod Scan
pub mod Lexer
pub mod Kind
pub mod Ast
pub mod State
pub mod Expr
pub mod Select
pub mod Default
pub mod Column
pub mod CreateTable
pub mod Dml
pub mod WellFormed
pub mod Statement
pub mod Source
