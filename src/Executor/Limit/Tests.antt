-- ===== src/Executor/Limit/Tests.antt =====
-- The operator of src/executor/limit.cpp over two chunks, one with a selection.
use nyxdb.Base.{ℕ, ◌≡◌, refl, List, [], ◌∷◌, none, some, map, take, drop}
use nyxdb.Common.Result.{Result}
use nyxdb.Executor.SelectionVector.{from_dense, for_each, truncate, drop_prefix}
use nyxdb.Executor.Limit.{Chunk, new_limit, next, emit, next_loop, logical_size, resize, drop_rows}
use nyxdb.Executor.Limit.Rows.{rows_out, all_rows, rows_out-take-drop}

abbrev chunks : List (Chunk ℕ)
chunks =
    record { rows = 10 ∷ 11 ∷ 12 ∷ []; sel = none }
    ∷ record { rows = 20 ∷ 21 ∷ 22 ∷ 23 ∷ []; sel = some (from_dense (1 ∷ 3 ∷ []) 4) }
    ∷ []

limit_test :
    rows_out 3 (new_limit 2 2) (map (λ (c : Chunk ℕ). Result.ok c) chunks)
    ≡ some (Result.ok (some 12 ∷ some 21 ∷ []))
unfolding next emit next_loop logical_size resize drop_rows from_dense for_each truncate drop_prefix
limit_test = refl

rows_out-take-drop_example :
    rows_out 3 (new_limit 2 2) (map (λ (c : Chunk ℕ). Result.ok c) chunks)
    ≡ some (Result.ok (take 2 (drop 2 (all_rows chunks))))
unfolding from_dense for_each
rows_out-take-drop_example =
    rows_out-take-drop 2 2 chunks (tt, (record { counts = refl; bytes = tt; lengths = tt }, tt))
