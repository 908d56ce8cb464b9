-- ===== src/Webmon/Integrate/Numbers.antt =====
-- Webmon/Integrate: the numbers of the hashes while nodes go into the global store, and which sources
-- go to a node.
use llprof.Base.{
  ℕ, ◌≡◌, refl, Bool, false, Option, none, some, [], ◌∷◌, Map, find, find-put, ltb, ◌==◌,
  if◌then◌else◌, add64, arith, Bool-cases, Option-cases, inl, inr,
}
use llprof.Webmon.Slices.{Node}
use llprof.Webmon.Quantity.{Quantity, amount}
use llprof.Webmon.Sequence.{Sequence, seq_of}
use llprof.Webmon.Nodes.{RecordNode}

-- The number that a hash has been given; the hashes 0 and 1 are numbers already.
abbrev pub number : ℕ → Sequence → Option ℕ
number gnid s = if ltb gnid 2 then some gnid else find gnid s.gnid_to_seq

-- The numbers that were given stay.
pub Extends : Sequence → Sequence → Type 0
Extends s s' = (gnid n : ℕ) → number gnid s ≡ some n → number gnid s' ≡ some n

pub Extends-refl : (s : Sequence) → Extends s s
unfolding Extends
Extends-refl s gnid n e = e

pub Extends-trans : (s t u : Sequence) → Extends s t → Extends t u → Extends s u
unfolding Extends
Extends-trans s t u a b gnid n e = b gnid n (a gnid n e)

pub Extends-number :
    (s s' : Sequence) (gnid n : ℕ) → Extends s s' → number gnid s ≡ some n → number gnid s' ≡ some n
unfolding Extends
Extends-number s s' gnid n extends e = extends gnid n e

pub seq_of-number :
    (gnid : ℕ) (s : Sequence)
    → (number gnid (seq_of gnid s).1 ≡ some (seq_of gnid s).0) × Extends s (seq_of gnid s).1
unfolding seq_of Extends
seq_of-number gnid s = elim (Bool-cases (ltb gnid 2)) [
  | inl e ↦ rw (e, seq_of) (refl, λ h n k. k)
  | inr e ↦ elim (Option-cases (find gnid s.gnid_to_seq)) [
    | inr (n, f) ↦ rw (e, f, seq_of) (f, λ h m k. k)
    | inl f ↦
        let next = λ (h : ℕ). find-put gnid h (add64 s.seq_num 1) s.gnid_to_seq in
        rw (e, f, seq_of) (ground (arith, next gnid), λ h n k. ground (arith, k, f, next h))
  ]
]

-- A source goes to the node that has the number of its hash.
abbrev pub goes_to : Map RecordNode → Sequence → Node → ℕ → Bool
goes_to src_tree s src j = elim (find src.id src_tree) [
  | none ↦ false
  | some current ↦ elim (number current.gnid s) [ none ↦ false | some n ↦ n == j ]
]

pub goes_to_lem :
    (src_tree : Map RecordNode) (s : Sequence) (src : Node) (current : RecordNode) (n j : ℕ)
    → find src.id src_tree ≡ some current
    → number current.gnid s ≡ some n
    → goes_to src_tree s src j ≡ (n == j)
goes_to_lem src_tree s src current n j e f = rw (e, f, goes_to) refl

-- What the sources for a node have, added to a number.
abbrev pub add_sources : Quantity → ℕ → Map RecordNode → Sequence → Map Node → ℕ → ℕ
add_sources q j src_tree s [] c = c
add_sources q j src_tree s ((_, src) ∷ nodes) c =
    add_sources q j src_tree s nodes
      (if goes_to src_tree s src j then add64 c (amount q src) else c)
