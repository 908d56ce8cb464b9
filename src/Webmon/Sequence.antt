-- ===== src/Webmon/Sequence.antt =====
-- webmon/data_store.cpp, `GlobalThreadStore::GNIDToSeq`: short numbers for the hashes that name the
-- nodes of all threads.
use llprof.Base.{
  ℕ, ◌+◌, ◌^◌, ◌<◌, ◌≤◌, ◌≡◌, refl, sym, ◌∙◌, ◌↔◌, ◌⊎◌, inl, inr, none, some, List, [], ◌∷◌, Map,
  find, put, find-put, length, ltb, if◌then◌else◌, add64, Bool-cases, Option-cases, arith,
}

-- `seq_num_` and `gnid_to_seq_`
pub record Sequence : Type 0 where
  pub seq_num : ℕ
  pub gnid_to_seq : Map ℕ

abbrev pub new_sequence : Sequence
new_sequence = record { seq_num = 1; gnid_to_seq = [] }

unfoldable pub seq_of : ℕ → Sequence → ℕ × Sequence
seq_of gnid s = if ltb gnid 2 then (gnid, s) else elim (find gnid s.gnid_to_seq) [
  | some seq ↦ (seq, s)
  | none ↦ (
    add64 s.seq_num 1,
    record {
      seq_num = add64 s.seq_num 1;
      gnid_to_seq = put gnid (add64 s.seq_num 1) s.gnid_to_seq;
    },
  )
]

unfoldable pub seq_of_all : List ℕ → Sequence → Sequence
seq_of_all [] s = s
seq_of_all (gnid ∷ gnids) s = seq_of_all gnids (seq_of gnid s).1

-- The number that a hash has.
abbrev Has : Sequence → ℕ → ℕ → Type 0
Has s gnid seq = ((gnid < 2) × (seq ≡ gnid)) ⊎ ((2 ≤ gnid) × (find gnid s.gnid_to_seq ≡ some seq))

record IsSound (s : Sequence) : Type 0 where
  positive : 1 ≤ s.seq_num
  range : (g n : ℕ) → find g s.gnid_to_seq ≡ some n → (2 ≤ n) × (n ≤ s.seq_num)
  distinct : (g h n : ℕ) → find g s.gnid_to_seq ≡ some n → find h s.gnid_to_seq ≡ some n → g ≡ h

abbrev with_new : ℕ → Sequence → Sequence
with_new g s = record {
  seq_num = add64 s.seq_num 1;
  gnid_to_seq = put g (add64 s.seq_num 1) s.gnid_to_seq;
}

with_new-IsSound :
    (g : ℕ) (s : Sequence)
    → IsSound s
    → s.seq_num + 1 < 2 ^ 64
    → find g s.gnid_to_seq ≡ none
    → IsSound (with_new g s)
with_new-IsSound g s v room miss =
    let next : add64 s.seq_num 1 ≡ s.seq_num + 1 = omega arith in
    record {
      positive = omega (arith, next);
      range = λ h n e.
          ground
            (arith, find-put g h (add64 s.seq_num 1) s.gnid_to_seq, v.range h n, next, v.positive);
      distinct = λ h k n e f. ground (
        arith,
        find-put g h (add64 s.seq_num 1) s.gnid_to_seq,
        find-put g k (add64 s.seq_num 1) s.gnid_to_seq,
        v.range h n,
        v.range k n,
        v.distinct h k n,
        next,
      );
    }

-- What a call leaves.
record Asked (g : ℕ) (s : Sequence) (r : ℕ × Sequence) : Type 0 where
  sound : IsSound r.1
  has : Has r.1 g r.0
  keeps : (h n : ℕ) → Has s h n → Has r.1 h n
  steps : r.1.seq_num ≤ s.seq_num + 1

seq_of-Asked : (g : ℕ) (s : Sequence) → IsSound s → s.seq_num + 1 < 2 ^ 64 → Asked g s (seq_of g s)
unfolding seq_of
seq_of-Asked g s v room = elim (Bool-cases (ltb g 2)) [
  | inl e ↦
      rw (e, seq_of)
        (record {
          sound = v;
          has = inl (ground arith, refl);
          keeps = λ h n k. k;
          steps = omega arith;
        })
  | inr e ↦ elim (Option-cases (find g s.gnid_to_seq)) [
    | inr (n, f) ↦
        rw (e, f, seq_of)
          (record {
            sound = v;
            has = inr (ground arith, f);
            keeps = λ h m k. k;
            steps = omega arith;
          })
    | inl f ↦
        let next = find-put g g (add64 s.seq_num 1) s.gnid_to_seq in
        rw (e, f, seq_of)
          (record {
            sound = with_new-IsSound g s v room f;
            has = inr (ground arith, ground (arith, next));
            keeps = λ h n k. ground (arith, k, f, find-put g h (add64 s.seq_num 1) s.gnid_to_seq);
            steps = omega arith;
          })
  ]
]

new_sequence-IsSound : IsSound new_sequence
unfolding find
new_sequence-IsSound = record {
  positive = omega arith;
  range = λ g n e. absurd (cc);
  distinct = λ g h n e f. absurd (cc);
}

seq_of_all-IsSound :
    (gnids : List ℕ) (s : Sequence)
    → IsSound s
    → s.seq_num + length gnids < 2 ^ 64
    → IsSound (seq_of_all gnids s) × ((seq_of_all gnids s).seq_num ≤ s.seq_num + length gnids)
unfolding seq_of_all
seq_of_all-IsSound [] s v room = (v, omega arith)
seq_of_all-IsSound (g ∷ gnids) s v room =
    let a = seq_of-Asked g s v (omega arith) in
    let (sound, steps) = seq_of_all-IsSound gnids (seq_of g s).1 a.sound (omega (arith, a.steps)) in
    (sound, omega (arith, steps, a.steps))

Has-injective : (s : Sequence) (g h a : ℕ) → IsSound s → Has s g a → Has s h a → g ≡ h
Has-injective s g h a v (inl p) (inl q) = sym p.1 ∙ q.1
Has-injective s g h a v (inl p) (inr q) = absurd (omega (arith, v.range h a q.1))
Has-injective s g h a v (inr p) (inl q) = absurd (omega (arith, v.range g a p.1))
Has-injective s g h a v (inr p) (inr q) = v.distinct g h a p.1 q.1

Has-functional : (s : Sequence) (g h a b : ℕ) → g ≡ h → Has s g a → Has s h b → a ≡ b
Has-functional s g h a b e (inl p) (inl q) = p.1 ∙ e ∙ sym q.1
Has-functional s g h a b e (inl p) (inr q) = absurd (omega arith)
Has-functional s g h a b e (inr p) (inl q) = absurd (omega arith)
Has-functional s g h a b e (inr p) (inr q) = ground (arith, p, q, e)

-- After any sequence of fewer than 2^64 - 3 calls of `GNIDToSeq` on a new store, two more calls give
-- the same number exactly if they are for the same hash: a hash keeps its number, and no two hashes
-- share one.
pub seq_of-injective :
    (gnids : List ℕ) (g h : ℕ)
    → length gnids + 3 < 2 ^ 64
    → let (a, s) = seq_of g (seq_of_all gnids new_sequence) in
      let (b, s') = seq_of h s in (a ≡ b) ↔ (g ≡ h)
seq_of-injective gnids g h room =
    let (sound, steps) = seq_of_all-IsSound gnids new_sequence new_sequence-IsSound (omega arith) in
    let before = seq_of_all gnids new_sequence in
    let one = seq_of-Asked g before sound (omega (arith, steps)) in
    let two = seq_of-Asked h (seq_of g before).1 one.sound (omega (arith, steps, one.steps)) in
    let last = (seq_of h (seq_of g before).1).1 in
    let b = (seq_of h (seq_of g before).1).0 in
    let first = two.keeps g (seq_of g before).0 one.has in
    (
      λ e. Has-injective last g h b two.sound (rw (sym e) first) two.has,
      λ e. Has-functional last g h (seq_of g before).0 b e first two.has,
    )
