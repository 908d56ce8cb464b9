-- ===== src/Webmon/Merge.antt =====
-- webmon/data_store.cpp: what `MergeTimeSlice` adds up for each node, over the times of a range.
use llprof.Base.{
  ℕ, zero, suc, ◌+◌, ◌-◌, ◌≡◌, refl, ap, ◌∙◌, Bool, true, false, Option, none, some, List, [], ◌∷◌,
  Map, find, put, find-put, length, get_elem?, get_or, replicate, length-replicate, ltb,
  if◌then◌else◌, ◌==◌, Option-cases, inl, inr, add64, arith,
}
use llprof.Webmon.Slices.{
  Node, TimeSlice, Slices, Parents, Merged, accumulate_values, accumulate, integrated_node, zeros,
  get_time_slice, merge_tree, merge_found, merge_one, merge_time_slice,
}
use llprof.Webmon.Quantity.{Quantity, of_calls, of_all, of_children, amount, IsAdded}
use llprof.Webmon.SliceLookup.{tree_or, tree_at, tree_at-get_time_slice, Found, found}

-- A node with a value for each column.
abbrev pub Sized : ℕ → Node → Type 0
Sized n node = (length node.all_values ≡ n) × (length node.children_values ≡ n)

-- The nodes of a slice have a value for each column, and the thread has the nodes.
abbrev pub Known : ℕ → Parents → Map Node → Type 0
Known n current [] = Unit {0}
Known n current ((id, node) ∷ tree) =
    Sized n node × ((entry : ℕ × ℕ) × (find id current ≡ some entry)) × Known n current tree

abbrev pub AllKnown : ℕ → Parents → List TimeSlice → Type 0
AllKnown n current [] = Unit {0}
AllKnown n current (tss ∷ xs) = Known n current tss.tree × AllKnown n current xs

Known-tree_or :
    (n : ℕ) (current : Parents) (xs : List TimeSlice) (i : ℕ)
    → AllKnown n current xs
    → Known n current (tree_or (get_elem? xs i))
Known-tree_or n current [] i known = tt
Known-tree_or n current (tss ∷ xs) zero known = known.0
Known-tree_or n current (tss ∷ xs) (suc i) known = Known-tree_or n current xs i known.1

Known-if :
    (n : ℕ) (current : Parents) (b : Bool) (tree : Map Node)
    → Known n current tree
    → Known n current (if b then [] else tree)
Known-if n current true tree known = tt
Known-if n current false tree known = known

Known-tree_at :
    (n : ℕ) (current : Parents) (s : Slices) (u : ℕ)
    → AllKnown n current s.time_slice
    → Known n current (tree_at u s)
Known-tree_at n current s u known =
    Known-if n current (ltb u s.start_time_number)
      (tree_or (get_elem? s.time_slice (u - s.start_time_number)))
      (Known-tree_or n current s.time_slice (u - s.start_time_number) known)

abbrev pub AllSized : ℕ → Map Node → Type 0
AllSized n m = (id : ℕ) (node : Node) → find id m ≡ some node → Sized n node

-- What a node of `integrated` has of a quantity.
abbrev pub count : Quantity → ℕ → Map Node → ℕ
count q id m = elim (find id m) [ none ↦ 0 | some node ↦ amount q node ]

-- What a node has in a slice, added to a number.
abbrev pub add_counts : Quantity → ℕ → Map Node → ℕ → ℕ
add_counts q id [] c = c
add_counts q id ((j, node) ∷ tree) c =
    add_counts q id tree (if j == id then add64 c (amount q node) else c)

sums_cons :
    (b : Bool) (v w : ℕ) (static : List Bool) (vs ws r : List ℕ)
    → ((i : ℕ)
        → get_elem? static i ≡ some false
        → get_or r i 0 ≡ add64 (get_or vs i 0) (get_or ws i 0))
    → (i : ℕ) → get_elem? (b ∷ static) i ≡ some false
    → get_or ((if b then w else add64 v w) ∷ r) i 0
      ≡ add64 (get_or (v ∷ vs) i 0) (get_or (w ∷ ws) i 0)
sums_cons b v w static vs ws r sums zero e = let plain : b ≡ false = cc in rw plain refl
sums_cons b v w static vs ws r sums (suc i) e = sums i e

pub length-accumulate_values :
    (static : List Bool) (vs ws : List ℕ)
    → length vs ≡ length static
    → length ws ≡ length static
    → (r : List ℕ) × (accumulate_values static vs ws ≡ some r)
      × (length r ≡ length static)
      × ((i : ℕ)
          → get_elem? static i ≡ some false
          → get_or r i 0 ≡ add64 (get_or vs i 0) (get_or ws i 0))
length-accumulate_values [] vs ws h k = (vs, refl, h, λ i e. absurd (cc))
length-accumulate_values (b ∷ static) [] ws h k = absurd (omega (arith, h))
length-accumulate_values (b ∷ static) (v ∷ vs) [] h k = absurd (omega (arith, k))
length-accumulate_values (b ∷ static) (v ∷ vs) (w ∷ ws) h k =
    let (r, e, len, sums) =
      length-accumulate_values static vs ws (omega (arith, h)) (omega (arith, k)) in
    (
      (if b then w else add64 v w) ∷ r,
      rw e refl,
      ap suc len,
      λ i. sums_cons b v w static vs ws r sums i,
    )

-- The sums of the two vectors, as amounts.
pub sum_amount :
    (q : Quantity) (static : List Bool) (node rhs : Node) (all children : List ℕ)
    → IsAdded static q
    → ((i : ℕ)
        → get_elem? static i ≡ some false
        → get_or all i 0 ≡ add64 (get_or node.all_values i 0) (get_or rhs.all_values i 0))
    → ((i : ℕ)
        → get_elem? static i ≡ some false
        → get_or children i 0
          ≡ add64 (get_or node.children_values i 0) (get_or rhs.children_values i 0))
    → amount q (record node {
      all_values = all;
      children_values = children;
      call_count = add64 node.call_count rhs.call_count;
    })
      ≡ add64 (amount q node) (amount q rhs)
sum_amount (of_calls) static node rhs all children added sums sums' = refl
sum_amount (of_all i) static node rhs all children added sums sums' =
    let e = sums i added in omega (arith, e)
sum_amount (of_children i) static node rhs all children added sums sums' =
    let e = sums' i added in omega (arith, e)

accumulate-total :
    (static : List Bool) (node rhs : Node)
    → Sized (length static) node
    → Sized (length static) rhs
    → (r : Node) × (accumulate static node rhs ≡ some r)
      × Sized (length static) r
      × ((q : Quantity) → IsAdded static q → amount q r ≡ add64 (amount q node) (amount q rhs))
unfolding accumulate
accumulate-total static node rhs (a, b) (c, d) =
    let (all, e, len, sums) = length-accumulate_values static node.all_values rhs.all_values a c in
    let (children, e', len', sums') =
      length-accumulate_values static node.children_values rhs.children_values b d in
    (
      record node {
        all_values = all;
        children_values = children;
        call_count = add64 node.call_count rhs.call_count;
      },
      rw (e, e') refl,
      (len, len'),
      λ q added. sum_amount q static node rhs all children added sums sums',
    )

pub zero_at : (n i : ℕ) → get_or {A = ℕ} (replicate n 0) i 0 ≡ 0
zero_at zero i = refl
zero_at (suc n) zero = refl
zero_at (suc n) (suc i) = zero_at n i

-- A node of zeros has nothing of a quantity.
pub no_amount :
    (q : Quantity) (node : Node)
    → node.call_count ≡ 0
    → ((i : ℕ) → get_or node.all_values i 0 ≡ 0)
    → ((i : ℕ) → get_or node.children_values i 0 ≡ 0)
    → amount q node ≡ 0
no_amount (of_calls) node calls all children = calls
no_amount (of_all i) node calls all children = let e = all i in omega (arith, e)
no_amount (of_children i) node calls all children = let e = children i in omega (arith, e)

integrated_node-total :
    (static : List Bool) (current : Parents) (id : ℕ) (m : Map Node)
    → AllSized (length static) m
    → ((entry : ℕ × ℕ) × (find id current ≡ some entry))
    → (node : Node) × (integrated_node static current id m ≡ some node)
      × Sized (length static) node
      × ((q : Quantity) → amount q node ≡ count q id m)
unfolding integrated_node
integrated_node-total static current id m sized ((parent, name), known) =
    elim (Option-cases (find id m)) [
      | inl e ↦
          let width = length-replicate (length static) 0 in
          (
            record {
              id = id;
              parent_id = parent;
              node_name = name;
              all_values = zeros static;
              children_values = zeros static;
              call_count = 0;
              running = false;
            },
            rw (e, known, integrated_node) refl,
            (width, width),
            λ q.
                rw (e, count)
                  (no_amount q _ refl (zero_at (length static)) (zero_at (length static))),
          )
      | inr (node, e) ↦
          (node, rw (e, integrated_node) refl, sized id node e, λ q. rw (e, count) refl)
    ]

merge_step :
    (static : List Bool) (current : Parents) (id : ℕ) (rhs node node' : Node) (m : Map Node)
    (tree : Map Node)
    → integrated_node static current id m ≡ some node
    → accumulate static node rhs ≡ some node'
    → merge_tree static current m ((id, rhs) ∷ tree)
      ≡ merge_tree static current (put id node' m) tree
unfolding merge_tree
merge_step static current id rhs node node' m tree e acc = rw (e, acc) refl

pub Sized-put :
    (n id : ℕ) (node : Node) (m : Map Node)
    → Sized n node
    → AllSized n m
    → AllSized n (put id node m)
Sized-put n id node m this sized j other e = ground (arith, find-put id j node m, sized j other)

pub count-put :
    (q : Quantity) (id j : ℕ) (node : Node) (m : Map Node)
    → count q j (put id node m) ≡ (if id == j then amount q node else count q j m)
count-put q id j node m = ground (arith, find-put id j node m)

count-step :
    (q : Quantity) (id j c : ℕ) (node node' : Node) (m : Map Node)
    → amount q node ≡ count q j m
    → amount q node' ≡ add64 (amount q node) c
    → count q id (put j node' m) ≡ (if j == id then add64 (count q id m) c else count q id m)
count-step q id j c node node' m calls calls' = ground (arith, count-put q j id node' m)

merge_tree-total :
    (static : List Bool) (current : Parents) (tree m : Map Node)
    → AllSized (length static) m
    → Known (length static) current tree
    → (r : Map Node) × (merge_tree static current m tree ≡ some r)
      × AllSized (length static) r
      × ((q : Quantity)
          → IsAdded static q
          → (id : ℕ) → count q id r ≡ add_counts q id tree (count q id m))
unfolding merge_tree
merge_tree-total static current [] m sized known = (m, refl, sized, λ q added id. refl)
merge_tree-total static current ((j, rhs) ∷ tree) m sized (this, has, known) =
    let (node, found, width, calls) = integrated_node-total static current j m sized has in
    let (node', acc, width', calls') = accumulate-total static node rhs width this in
    let (r, done, sized', counts) =
      merge_tree-total static current tree (put j node' m)
        (Sized-put (length static) j node' m width' sized) known in
    (
      r,
      merge_step static current j rhs node node' m tree found acc ∙ done,
      sized',
      λ q added id.
          counts q added id
          ∙ ap (add_counts q id tree)
              (count-step q id j (amount q rhs) node node' m (calls q) (calls' q added)),
    )

-- What a node has over `n` times from `t` on, added to a number.
abbrev pub add_range : Quantity → ℕ → Slices → ℕ → ℕ → ℕ → ℕ
add_range q id s t zero c = c
add_range q id s t (suc n) c = add_range q id s (t + 1) n (add_counts q id (tree_at t s) c)

-- What a step of the loop leaves, with `tree` the nodes of its time.
abbrev Stepped : List Bool → Map Node → Merged → Merged → Type 0
Stepped static tree m m' =
    ((t : ℕ) → tree_at t m'.slices ≡ tree_at t m.slices)
    × AllSized (length static) m'.integrated
    × ((q : Quantity)
        → IsAdded static q
        → (id : ℕ) → count q id m'.integrated ≡ add_counts q id tree (count q id m.integrated))

merge_found-total :
    (static : List Bool) (current : Parents) (t : ℕ) (m : Merged) (got : Slices × Option ℕ)
    → Found t m.slices got
    → ((u : ℕ) → tree_at u got.0 ≡ tree_at u m.slices)
    → AllSized (length static) m.integrated
    → Known (length static) current (tree_at t m.slices)
    → (m' : Merged) × (merge_found static current m got ≡ some m')
      × Stepped static (tree_at t m.slices) m m'
unfolding merge_found
merge_found-total static current t m (s, none) nothing keep sized known =
    (record m { slices = s }, refl, (keep, sized, λ q added id. rw nothing refl))
merge_found-total static current t m (s, some i) (tss, at, tree) keep sized known =
    let (r, done, sized', counts) =
      merge_tree-total static current (tree_at t m.slices) m.integrated sized known in
    (
      record { slices = s; integrated = r; last_tss = some i },
      rw (at, tree, done) refl,
      (keep, sized', counts),
    )

merge_one-total :
    (static : List Bool) (current : Parents) (t : ℕ) (m : Merged)
    → AllSized (length static) m.integrated
    → Known (length static) current (tree_at t m.slices)
    → (m' : Merged) × (merge_one static current t m ≡ some m')
      × Stepped static (tree_at t m.slices) m m'
unfolding merge_one
merge_one-total static current t m sized known =
    merge_found-total static current t m (get_time_slice t m.slices) (found t m.slices)
      (λ u. tree_at-get_time_slice t u m.slices) sized known

add_range_same :
    (q : Quantity) (id : ℕ) (s s' : Slices) (n t c : ℕ)
    → ((u : ℕ) → tree_at u s' ≡ tree_at u s)
    → add_range q id s' t n c ≡ add_range q id s t n c
add_range_same q id s s' zero t c same = refl
add_range_same q id s s' (suc n) t c same =
    add_range_same q id s s' n (t + 1) _ same
    ∙ ap (λ tree. add_range q id s (t + 1) n (add_counts q id tree c)) (same t)

merge_times :
    (static : List Bool) (current : Parents) (n t : ℕ) (m m' m'' : Merged)
    → merge_one static current t m ≡ some m'
    → merge_time_slice static current (t + 1) n m' ≡ some m''
    → merge_time_slice static current t (suc n) m ≡ some m''
unfolding merge_time_slice
merge_times static current n t m m' m'' one rest = rw (one, rest, merge_time_slice) refl

pub merge_range :
    (static : List Bool) (current : Parents) (n t : ℕ) (m : Merged)
    → AllSized (length static) m.integrated
    → ((u : ℕ) → Known (length static) current (tree_at u m.slices))
    → (m' : Merged) × (merge_time_slice static current t n m ≡ some m')
      × ((q : Quantity)
          → IsAdded static q
          → (id : ℕ)
          → count q id m'.integrated ≡ add_range q id m.slices t n (count q id m.integrated))
unfolding merge_time_slice
merge_range static current zero t m sized known = (m, refl, λ q added id. refl)
merge_range static current (suc n) t m sized known =
    let (m', one, (keep, sized', counts)) = merge_one-total static current t m sized (known t) in
    let (m'', rest, totals) =
      merge_range static current n (t + 1) m' sized' (λ u. rw (keep u) (known u)) in
    (
      m'',
      merge_times static current n t m m' m'' one rest,
      λ q added id.
          totals q added id
          ∙ add_range_same q id m.slices m'.slices n (t + 1) _ keep
          ∙ ap (add_range q id m.slices (t + 1) n) (counts q added id),
    )

-- For any range of times, `MergeTimeSlice` succeeds, and each node's calls in the result are those
-- it had, plus the calls of that node in each slice of the range, modulo 2^64, and so for its values
-- of a column that is not static; times without a slice add nothing. The nodes of the slices and of
-- `integrated` have a value for each column, and `current_tree_` has the nodes of the slices.
pub merge_time_slice-count :
    (static : List Bool) (current : Parents) (n t : ℕ) (m : Merged)
    → AllSized (length static) m.integrated
    → AllKnown (length static) current m.slices.time_slice
    → (m' : Merged) × (merge_time_slice static current t n m ≡ some m')
      × ((q : Quantity)
          → IsAdded static q
          → (id : ℕ)
          → count q id m'.integrated ≡ add_range q id m.slices t n (count q id m.integrated))
merge_time_slice-count static current n t m sized known =
    merge_range static current n t m sized
      (λ u. Known-tree_at (length static) current m.slices u known)
