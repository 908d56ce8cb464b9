-- ===== src/StrideVector.antt =====
-- llprofcommon/data_struct.h, `free_stride_vector`: its sizes, and the bytes that the last `realloc`
-- gave it. `none` is a failed assertion, or an overflow of the `int` that is the size of a block or of
-- an element.
pub mod Capacity
pub mod Examples
use llprof.Base.{
  ℕ, ◌+◌, ◌*◌, ◌^◌, ◌≤◌, Bool, true, false, not, ◌||◌, Option, none, some, List, [], ◌∷◌, ltb, leb,
  ◌==◌, if◌then◌else◌, ◌>>=◌, ◌>>◌, assert,
}

abbrev pub allocate_factor : ℕ
allocate_factor = 2

-- `buffer` is `none` for NULL, and else the size of the allocated block.
pub record StrideVector : Type 0 where
  pub stride : ℕ
  pub buffer : Option ℕ
  pub capacity : ℕ
  pub size : ℕ

abbrev pub new : StrideVector
new = record { stride = 0; buffer = none; capacity = 0; size = 0 }

abbrev is_null : Option ℕ → Bool
is_null none = true
is_null (some n) = false

-- `capacity_` is not written.
unfoldable pub reallocate : ℕ → StrideVector → Option StrideVector
reallocate n v = do
  assert (ltb 0 v.stride)
  assert (ltb (n * v.stride) (2 ^ 31))
  some (record v { buffer = some (n * v.stride) })

unfoldable pub set_stride : ℕ → StrideVector → Option StrideVector
set_stride stride v = do
  assert (ltb 0 stride)
  assert (is_null v.buffer)
  some (record v { stride = stride })

-- The second argument is `sizeof(T)`.
unfoldable pub set_extra_stride : ℕ → ℕ → StrideVector → Option StrideVector
unfolding set_stride
set_extra_stride extra item v = do assert (ltb (extra + item) (2 ^ 31)); set_stride (extra + item) v

unfoldable pub resize : ℕ → StrideVector → Option StrideVector
unfolding reallocate
resize n v = do
  v' ←
      if ltb v.capacity n
      then if leb n (v.capacity * allocate_factor)
        then reallocate (v.capacity * allocate_factor) v
        else reallocate n v
      else some v
  some (record v' { size = n })

unfoldable pub reserve : ℕ → StrideVector → Option StrideVector
unfolding reallocate
reserve n v = if ltb v.capacity n then reallocate n v else some v

abbrev pub buffer_size : StrideVector → ℕ
buffer_size v = v.size * v.stride

unfoldable pub empty : StrideVector → Bool
empty v = is_null v.buffer || v.size == 0

-- Where `operator[]` points, for an index whose product with the stride is an `int`.
abbrev pub offset : StrideVector → ℕ → ℕ
offset v index = index * v.stride
