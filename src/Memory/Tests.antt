-- ===== src/Memory/Tests.antt =====
-- The replacer of src/storage/memory/lru_k_replacer.cpp at concrete runs.
use nyxdb.Base.{ℕ, ◌≡◌, refl, ◌⊎◌, true, List, [], ◌∷◌, some, none, arith}
use nyxdb.Memory.LruK.{make, pin, unpin, record_access, remove, size, victim, frame, scan_frame}
use nyxdb.Memory.LruK.Counting.{count, is_candidate}
use nyxdb.Memory.LruK.Invariant.{IsValid}
use nyxdb.Memory.LruK.Victim.{Precedes}
use nyxdb.Memory.LruK.Calls.{Call, step, run, run-victim}

-- Frame 0 is accessed twice, frame 1 once and later; both are unpinned.
abbrev calls : List Call
calls = Call.accesses 0 ∷ Call.accesses 0 ∷ Call.accesses 1 ∷ Call.unpins 0 ∷ Call.unpins 1 ∷ []

run-victim_example :
    IsValid (run (make 3 2) calls)
    × (size (run (make 3 2) calls) ≡ count (run (make 3 2) calls).frames)
    × (((size (run (make 3 2) calls) ≡ 0)
          × (victim (run (make 3 2) calls) ≡ (none, run (make 3 2) calls)))
        ⊎ ((i : ℕ) × (victim (run (make 3 2) calls) ≡ (some i, remove (run (make 3 2) calls) i))
            × (is_candidate (frame (run (make 3 2) calls) i) ≡ true)
            × ((j : ℕ)
                → is_candidate (frame (run (make 3 2) calls) j) ≡ true
                → Precedes
                    (run (make 3 2) calls).k
                    (frame (run (make 3 2) calls) i)
                    (frame (run (make 3 2) calls) j))))
run-victim_example = run-victim 3 2 calls (omega arith) (omega arith) (omega arith) (omega arith)

-- With k = 2 the frame with one access leaves first.
one_access_leaves : (victim (run (make 3 2) calls)).0 ≡ some 1
unfolding run step make pin unpin record_access victim scan_frame
one_access_leaves = refl
