-- ===== src/Network/Hash.antt =====
-- llprofcommon/network.cpp: `HashStr` stays inside its string.
use llprof.Base.{
  ℕ, zero, suc, ◌+◌, ◌*◌, ◌/◌, ◌%◌, ◌-◌, ◌≤◌, ◌≡◌, refl, some, Text, length, length-drop, drop,
  get_or, leb, ltb, read64, word64-total, add64, Bool-cases, inl, inr, arith, ◌^◌,
}
use llprof.Network.{signed_shift, hash_loop, hash_str}

read64-total : (s : Text) (p : ℕ) → 8 ≤ length s - p → (v : ℕ) × (read64 s p ≡ some v)
read64-total s p h = word64-total (drop p s) (omega (arith, h, length-drop p s))

hash_loop-total : (f : ℕ) (s : Text) (p result : ℕ) → (v : ℕ) × (hash_loop f s p result ≡ some v)
unfolding hash_loop
hash_loop-total zero s p result = (result, refl)
hash_loop-total (suc f) s p result = elim (Bool-cases (ltb p (length s))) [
  | inr e ↦ (result, rw (e, hash_loop) refl)
  | inl e ↦ elim (Bool-cases (leb 8 (length s - p))) [
    | inl long ↦
        let (v, at) = read64-total s p (ground arith) in
        let (r, rest) = hash_loop-total f s (p + 7) (add64 result (v * 2 ^ (p / 7 % 7))) in
        (r, rw (e, long, at, hash_loop) rest)
    | inr short ↦
        let (r, rest) =
          hash_loop-total f s (p + 1) (add64 result (signed_shift (get_or s p 0) (p * 8 % 7))) in
        (r, rw (e, short, hash_loop) rest)
  ]
]

-- Every text has a hash.
pub hash_str-total : (s : Text) → (v : ℕ) × (hash_str s ≡ some v)
unfolding hash_str
hash_str-total s = hash_loop-total (length s) s 0 (length s % 2 ^ 64)
