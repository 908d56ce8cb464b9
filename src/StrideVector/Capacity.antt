-- ===== src/StrideVector/Capacity.antt =====
-- llprofcommon/data_struct.h: the blocks that a `free_stride_vector` asks for.
use llprof.Base.{
  ℕ, zero, suc, ◌+◌, ◌*◌, ◌^◌, ◌≤◌, ◌<◌, ◌≡◌, refl, Option, some, List, [], ◌∷◌, arith, ◌>>=◌,
}
use llprof.StrideVector.{StrideVector, new, set_extra_stride, resize, reserve, offset}

pub data Op : Type 0 where
  resizes : ℕ → Op
  reserves : ℕ → Op

pub apply : Op → StrideVector → Option StrideVector
apply (resizes n) v = resize n v
apply (reserves n) v = reserve n v

pub apply_all : List Op → StrideVector → Option StrideVector
apply_all [] v = some v
apply_all (o ∷ os) v = do v' ← apply o v; apply_all os v'

-- The blocks that the operations ask for have less than 2^31 bytes.
abbrev pub elements : Op → ℕ
elements (resizes n) = n
elements (reserves n) = n

abbrev pub AllFit : ℕ → List Op → Type 0
AllFit stride [] = Unit {0}
AllFit stride (o ∷ os) = (elements o * stride < 2 ^ 31) × AllFit stride os

pub record IsSound (stride : ℕ) (v : StrideVector) : Type 0 where
  pub positive : 0 < stride
  pub same_stride : v.stride ≡ stride
  pub no_capacity : v.capacity ≡ 0

apply-IsSound :
    (stride : ℕ) (o : Op) (v : StrideVector)
    → IsSound stride v
    → elements o * stride < 2 ^ 31
    → (v' : StrideVector) × (apply o v ≡ some v') × IsSound stride v'
unfolding apply resize reserve
apply-IsSound stride (resizes zero) v h fits = (
  record v { size = 0 },
  ground arith,
  record { positive = h.positive; same_stride = h.same_stride; no_capacity = h.no_capacity },
)
apply-IsSound stride (resizes (suc n)) v h fits = (
  record v { size = suc n; buffer = some (suc n * v.stride) },
  ground arith,
  record { positive = h.positive; same_stride = h.same_stride; no_capacity = h.no_capacity },
)
apply-IsSound stride (reserves zero) v h fits = (v, ground arith, h)
apply-IsSound stride (reserves (suc n)) v h fits = (
  record v { buffer = some (suc n * v.stride) },
  ground arith,
  record { positive = h.positive; same_stride = h.same_stride; no_capacity = h.no_capacity },
)

apply_all-IsSound :
    (stride : ℕ) (os : List Op) (v : StrideVector)
    → IsSound stride v
    → AllFit stride os
    → (v' : StrideVector) × (apply_all os v ≡ some v') × IsSound stride v'
unfolding apply_all
apply_all-IsSound stride [] v h fits = (v, refl, h)
apply_all-IsSound stride (o ∷ os) v h (fits, all_fit) =
    let (w, done, k) = apply-IsSound stride o v h fits in
    let (u, rest, k') = apply_all-IsSound stride os w k all_fit in
    (u, ground (arith, done, rest), k')

-- A vector with a stride that has been resized and reserved at will, and is then resized to
-- `n + 1` elements, all within the 2^31 bytes of an `int`, has a block of exactly that many strides: no resize over-allocates, so each
-- growth by one element calls `realloc`.
pub resize_exact :
    (extra item n : ℕ) (os : List Op)
    → 0 < extra + item
    → extra + item < 2 ^ 31
    → AllFit (extra + item) os
    → suc n * (extra + item) < 2 ^ 31
    → (do v ← set_extra_stride extra item new; w ← apply_all os v; resize (suc n) w)
      ≡ some (record {
        stride = extra + item;
        buffer = some (suc n * (extra + item));
        capacity = 0;
        size = suc n;
      })
unfolding set_extra_stride resize
resize_exact extra item n os h small fits fit =
    let (w, done, k) =
      apply_all-IsSound (extra + item) os (record new { stride = extra + item })
        (record { positive = h; same_stride = refl; no_capacity = refl }) fits in
    ground (arith, done, k, fit, small)

-- From such a vector of at least one element, with any history within 2^31 bytes, a `reserve` of fewer elements than
-- it holds, but at least one, gives the end of the block back: the last element lies outside it.
pub reserve_shrinks :
    (extra item n m : ℕ) (os : List Op)
    → 0 < extra + item
    → extra + item < 2 ^ 31
    → AllFit (extra + item) os
    → suc n * (extra + item) < 2 ^ 31
    → 0 < m
    → m ≤ n
    → (w : StrideVector) × ((do
      v ← set_extra_stride extra item new
      u ← apply_all os v
      r ← resize (suc n) u
      reserve m r)
        ≡ some w)
      × (w.size ≡ suc n)
      × ((b : ℕ) × (w.buffer ≡ some b) × (b ≤ offset w n))
unfolding set_extra_stride resize reserve
reserve_shrinks extra item n m os h small fits fit pos le =
    let (w, done, k) =
      apply_all-IsSound (extra + item) os (record new { stride = extra + item })
        (record { positive = h; same_stride = refl; no_capacity = refl }) fits in
    let less : m * (extra + item) < 2 ^ 31 = grind arith in
    (
      record {
        stride = extra + item;
        buffer = some (m * (extra + item));
        capacity = 0;
        size = suc n;
      },
      ground (arith, done, k, fit, small, less),
      refl,
      (m * (extra + item), refl, grind arith),
    )
