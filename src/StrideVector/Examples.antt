-- ===== src/StrideVector/Examples.antt =====
-- A vector with a history, and the theorems of StrideVector.Capacity at it.
use llprof.Base.{ℕ, ◌≤◌, ◌≡◌, some, List, [], ◌∷◌, ◌>>=◌, arith}
use llprof.StrideVector.{StrideVector, new, set_extra_stride, resize, reserve, offset}
use llprof.StrideVector.Capacity.{Op, resizes, reserves, apply_all, resize_exact, reserve_shrinks}

abbrev history : List Op
history = resizes 3 ∷ reserves 8 ∷ resizes 4 ∷ []

resize_exact_example :
    (do v ← set_extra_stride 16 24 new; w ← apply_all history v; resize 6 w)
    ≡ some (record { stride = 40; buffer = some 240; capacity = 0; size = 6 })
resize_exact_example =
    resize_exact 16 24 5 history (omega arith) (omega arith)
      (omega arith, (omega arith, (omega arith, tt))) (omega arith)

reserve_shrinks_example :
    (w : StrideVector) × ((do
      v ← set_extra_stride 16 24 new
      u ← apply_all history v
      r ← resize 6 u
      reserve 2 r)
      ≡ some w)
    × (w.size ≡ 6)
    × ((b : ℕ) × (w.buffer ≡ some b) × (b ≤ offset w 5))
reserve_shrinks_example =
    reserve_shrinks 16 24 5 2 history (omega arith) (omega arith)
      (omega arith, (omega arith, (omega arith, tt))) (omega arith) (omega arith) (omega arith)
