-- ===== src/Webmon/Slices.antt =====
-- webmon/data_store.cpp: the time slices of a thread, `ThreadStore::GetTimeSlice`,
-- `RecordNodeBasic::Accumulate` and `ThreadStore::MergeTimeSlice`. Times are not negative.
use llprof.Base.{
  ℕ, zero, suc, ◌+◌, ◌-◌, Bool, false, Option, none, some, List, [], ◌∷◌, ◌++◌, Map, find, put,
  length, get_elem?, modify, replicate, ltb, if◌then◌else◌, add64, ◌>>=◌,
}

-- `RecordNodeBasic`
pub record Node : Type 0 where
  pub id : ℕ
  pub parent_id : ℕ
  pub node_name : ℕ
  pub all_values : List ℕ
  pub children_values : List ℕ
  pub call_count : ℕ
  pub running : Bool

-- `TimeSliceStore`
pub record TimeSlice : Type 0 where
  pub time_number : ℕ
  pub tree : Map Node
  pub now_values : List ℕ
  pub running_node : ℕ

-- What `resize` appends. The constructor leaves the number open; `GetTimeSlice` sets it before it
-- hands a slice out.
abbrev pub empty_slice : TimeSlice
empty_slice = record { time_number = 0; tree = []; now_values = []; running_node = 0 }

-- The fields of `ThreadStore` that hold the slices.
pub record Slices : Type 0 where
  pub start_time_number : ℕ
  pub time_slice : List TimeSlice

abbrev pub started : ℕ → Slices → Slices
started ts s = elim s.time_slice [ [] ↦ record s { start_time_number = ts } | _ ∷ _ ↦ s ]

-- `resize(ts - start_time_number_ + 1)` when the position is out of bounds
abbrev pub grown : ℕ → List TimeSlice → List TimeSlice
grown i xs = if ltb i (length xs) then xs else xs ++ replicate (suc i - length xs) empty_slice

-- The rest of `GetTimeSlice`, when `start_time_number_` is set.
unfoldable pub started_slice : ℕ → Slices → Slices × Option ℕ
started_slice ts s =
    let i = ts - s.start_time_number in
    if ltb ts s.start_time_number then (s, none) else (
      record s {
        time_slice = modify (grown i s.time_slice) i (λ tss. record tss { time_number = ts });
      },
      some i,
    )

-- The position of the slice, or `none` for NULL, and the store that the call leaves.
unfoldable pub get_time_slice : ℕ → Slices → Slices × Option ℕ
get_time_slice ts s = started_slice ts (started ts s)

-- The loop of `Accumulate` over one of the two vectors. `static` has the `StaticValueFlag` of each
-- value; an index beyond a vector is `none`.
abbrev pub accumulate_values : List Bool → List ℕ → List ℕ → Option (List ℕ)
accumulate_values [] vs ws = some vs
accumulate_values (b ∷ static) (v ∷ vs) (w ∷ ws) = do
  rest ← accumulate_values static vs ws
  some ((if b then w else add64 v w) ∷ rest)
accumulate_values (b ∷ static) _ _ = none

unfoldable pub accumulate : List Bool → Node → Node → Option Node
accumulate static node rhs = do
  all ← accumulate_values static node.all_values rhs.all_values
  children ← accumulate_values static node.children_values rhs.children_values
  some (record node {
    all_values = all;
    children_values = children;
    call_count = add64 node.call_count rhs.call_count;
  })

-- The parent and the name of a node in `current_tree_`.
abbrev pub Parents : Type 0
Parents = Map (ℕ × ℕ)

abbrev pub zeros : List Bool → List ℕ
zeros static = replicate (length static) 0

-- The node of `integrated` for an id, made when it is missing. A node that `current_tree_` does not
-- have would be read before it is initialised: `none`.
unfoldable pub integrated_node : List Bool → Parents → ℕ → Map Node → Option Node
integrated_node static current id integrated = elim (find id integrated) [
  | some node ↦ some node
  | none ↦ do
    (parent, name) ← find id current
    some (record {
      id = id;
      parent_id = parent;
      node_name = name;
      all_values = zeros static;
      children_values = zeros static;
      call_count = 0;
      running = false;
    })
]

-- The inner loop, over the nodes of one slice.
unfoldable pub merge_tree : List Bool → Parents → Map Node → Map Node → Option (Map Node)
unfolding accumulate integrated_node
merge_tree static current integrated [] = some integrated
merge_tree static current integrated ((id, rhs) ∷ tree) = do
  node ← integrated_node static current id integrated
  node' ← accumulate static node rhs
  merge_tree static current (put id node' integrated) tree

-- What the loop over the times carries: the store, `integrated`, and `last_tss` as a position.
pub record Merged : Type 0 where
  pub slices : Slices
  pub integrated : Map Node
  pub last_tss : Option ℕ

-- One round, with what `GetTimeSlice` returned.
unfoldable pub merge_found : List Bool → Parents → Merged → Slices × Option ℕ → Option Merged
unfolding merge_tree
merge_found static current m (slices, none) = some (record m { slices = slices })
merge_found static current m (slices, some i) = do
  tss ← get_elem? slices.time_slice i
  integrated ← merge_tree static current m.integrated tss.tree
  some (record { slices = slices; integrated = integrated; last_tss = some i })

unfoldable pub merge_one : List Bool → Parents → ℕ → Merged → Option Merged
merge_one static current t m = merge_found static current m (get_time_slice t m.slices)

-- The loop from the time `t`, over `n` times.
unfoldable pub merge_time_slice : List Bool → Parents → ℕ → ℕ → Merged → Option Merged
merge_time_slice static current t zero m = some m
merge_time_slice static current t (suc n) m = do
  m' ← merge_one static current t m
  merge_time_slice static current (t + 1) n m'
