-- ===== src/Webmon/Polls/Sums.antt =====
-- Webmon/Merge and Webmon/Totals: the calls that the slices have together, and the nodes that they
-- have.
use llprof.Base.{
  ℕ, zero, suc, ◌+◌, ◌≤◌, ◌<◌, ◌^◌, ◌≡◌, refl, sym, ap, ◌∙◌, inl, inr, none, some, [], ◌∷◌, Map,
  find, Above, Sorted, ◌==◌, ==_refl, Bool-cases, add64, arith,
}
use llprof.Webmon.Slices.{Node, Slices}
use llprof.Webmon.SliceLookup.{tree_at}
use llprof.Webmon.Merge.{AllSized, Known, count, add_counts, add_range}
use llprof.Webmon.Quantity.{Quantity, amount}
use llprof.Webmon.Nodes.{RecordNode, parents}
use llprof.Webmon.Totals.{Has}

module _ {ℓ} {V : Type ℓ} where
  find-Above : (k : ℕ) (m : Map V) → Above k m → find k m ≡ none
  unfolding find
  find-Above k [] above = refl
  find-Above k ((j, v) ∷ m) (lt, above) = ground (arith, lt, find-Above k m above)

  Above-find : (k j : ℕ) (v : V) (m : Map V) → Above k m → find j m ≡ some v → k < j
  unfolding find
  Above-find k j v [] above e = absurd (cc)
  Above-find k j v ((i, w) ∷ m) (lt, above) e = elim (Bool-cases (i == j)) [
    | inl same ↦ ground (arith, lt, same)
    | inr other ↦ Above-find k j v m above (rw other at e)
  ]

  pub find_tail :
      (k j : ℕ) (v w : V) (m : Map V) → Above k m → find j m ≡ some w → find j ((k, v) ∷ m) ≡ some w
  unfolding find
  find_tail k j v w m above e = ground (arith, Above-find k j w m above e, e)

-- The entries of a slice add each node once.
add_counts-Above :
    (q : Quantity) (id c : ℕ) (tree : Map Node) → Above id tree → add_counts q id tree c ≡ c
add_counts-Above q id c [] above = refl
add_counts-Above q id c ((j, node) ∷ tree) (lt, above) =
    ground (arith, lt, add_counts-Above q id c tree above)

pub add_counts-Sorted :
    (q : Quantity) (id c : ℕ) (tree : Map Node)
    → c < 2 ^ 64
    → Sorted tree
    → add_counts q id tree c ≡ add64 c (count q id tree)
unfolding find
add_counts-Sorted q id c [] small sorted = omega (arith, small)
add_counts-Sorted q id c ((j, node) ∷ tree) small (above, sorted) = elim (Bool-cases (j == id)) [
  | inl same ↦
      let e : j ≡ id = ground (arith, same) in
      rw (same, count, find) (add_counts-Above q id (add64 c (amount q node)) tree (rw (← e) above))
  | inr other ↦ rw (other, count, find) (add_counts-Sorted q id c tree small sorted)
]

pub add_range-suc :
    (q : Quantity) (id : ℕ) (s : Slices) (n t c : ℕ)
    → add_range q id s t (suc n) c ≡ add_counts q id (tree_at (t + n) s) (add_range q id s t n c)
add_range-suc q id s zero t c = ap (λ u. add_counts q id (tree_at u s) c) (omega arith)
add_range-suc q id s (suc n) t c =
    add_range-suc q id s n (t + 1) (add_counts q id (tree_at t s) c)
    ∙ ap (λ u. add_counts q id (tree_at u s) (add_range q id s t (suc n) c)) (omega arith)

pub add_range-last :
    (q : Quantity) (id : ℕ) (s : Slices) (n c : ℕ)
    → add_range q id s 0 (suc n) c ≡ add_counts q id (tree_at n s) (add_range q id s 0 n c)
add_range-last q id s n c =
    let e : 0 + n ≡ n = omega arith in
    add_range-suc q id s n 0 c ∙ ap (λ u. add_counts q id (tree_at u s) (add_range q id s 0 n c)) e

-- Times that two stores share.
pub add_range-below :
    (q : Quantity) (id : ℕ) (s s' : Slices) (n c : ℕ)
    → ((u : ℕ) → u < n → tree_at u s' ≡ tree_at u s)
    → add_range q id s' 0 n c ≡ add_range q id s 0 n c
add_range-below q id s s' zero c same = refl
add_range-below q id s s' (suc n) c same =
    add_range-last q id s' n c
    ∙ ap (λ tree. add_counts q id tree (add_range q id s' 0 n c)) (same n (omega arith))
    ∙ ap (add_counts q id (tree_at n s))
        (add_range-below q id s s' n c (λ u lt. same u (omega (arith, lt))))
    ∙ sym (add_range-last q id s n c)

-- Times without nodes.
pub add_range_empty :
    (q : Quantity) (id : ℕ) (s : Slices) (n k c : ℕ)
    → ((u : ℕ) → n ≤ u → tree_at u s ≡ [])
    → add_range q id s 0 (n + k) c ≡ add_range q id s 0 n c
add_range_empty q id s n zero c empty =
    let e : n + 0 ≡ n = omega arith in ap (λ m. add_range q id s 0 m c) e
add_range_empty q id s n (suc k) c empty =
    let e : n + suc k ≡ suc (n + k) = omega arith in
    ap (λ m. add_range q id s 0 m c) e
    ∙ add_range-last q id s (n + k) c
    ∙ ap (λ tree. add_counts q id tree (add_range q id s 0 (n + k) c)) (empty (n + k) (omega arith))
    ∙ add_range_empty q id s n k c empty

Has-parents :
    (id : ℕ) (tree : Map RecordNode) (entry : ℕ × ℕ)
    → find id (parents tree) ≡ some entry
    → Has id tree
unfolding find
Has-parents id [] entry e = absurd (cc)
Has-parents id ((j, node) ∷ tree) entry e = elim (Bool-cases (j == id)) [
  | inl same ↦ (node, rw (same, find) refl)
  | inr different ↦
      let (other, at) = Has-parents id tree entry (rw different at e) in
      (other, rw (different, find) at)
]

parents-Has :
    (id : ℕ) (tree : Map RecordNode)
    → Has id tree
    → (entry : ℕ × ℕ) × (find id (parents tree) ≡ some entry)
unfolding find
parents-Has id [] (node, e) = absurd (cc)
parents-Has id ((j, node) ∷ tree) (other, e) = elim (Bool-cases (j == id)) [
  | inl same ↦ ((node.basic.parent_id, node.basic.node_name), rw (same, find) refl)
  | inr different ↦
      let (entry, at) = parents-Has id tree (other, rw different at e) in
      (entry, rw (different, find) at)
]

-- A slice whose nodes are all in the tree.
pub Known-tree :
    (n : ℕ) (tree : Map RecordNode) (slice : Map Node)
    → Sorted slice
    → AllSized n slice
    → ((j : ℕ) (tss : Node) → find j slice ≡ some tss → Has j tree)
    → Known n (parents tree) slice
unfolding find
Known-tree n tree [] sorted sized known = tt
Known-tree n tree ((j, tss) ∷ slice) (above, sorted) sized known =
    let here : find j ((j, tss) ∷ slice) ≡ some tss = ground (arith, ==_refl j) in
    (
      sized j tss here,
      parents-Has j tree (known j tss here),
      Known-tree n tree slice sorted
          (λ k node e. sized k node (find_tail j k tss node slice above e))
          (λ k node e. known k node (find_tail j k tss node slice above e)),
    )

pub Known-grown :
    (n : ℕ) (tree tree' : Map RecordNode) (slice : Map Node)
    → ((j : ℕ) → Has j tree → Has j tree')
    → Known n (parents tree) slice
    → Known n (parents tree') slice
Known-grown n tree tree' [] keep known = tt
Known-grown n tree tree' ((j, tss) ∷ slice) keep (sized, (entry, e), known) = (
  sized,
  parents-Has j tree' (keep j (Has-parents j tree entry e)),
  Known-grown n tree tree' slice keep known,
)
