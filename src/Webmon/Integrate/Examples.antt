-- ===== src/Webmon/Integrate/Examples.antt =====
-- A slice with two nodes of one program, which goes into a global store that has its root.
use llprof.Base.{ℕ, ◌≡◌, refl, false, some, [], ◌∷◌, Map, find, codes}
use llprof.Webmon.Slices.{Node}
use llprof.Webmon.Sequence.{new_sequence}
use llprof.Webmon.Quantity.{Quantity, IsAdded}
use llprof.Webmon.Merge.{count}
use llprof.Webmon.Clear.{statics}
use llprof.Webmon.Integrate.Numbers.{Extends, add_sources}
use llprof.Webmon.Nodes.{RecordNode, new_record_node}
use llprof.Webmon.Integrate.{Integrating, integrate_nodes}
use llprof.Webmon.Integrate.Aligned.{IsAligned}
use llprof.Webmon.Integrate.Adding.{integrate_nodes-IsAligned}
use llprof.Webmon.Polls.Examples.{monitor}

abbrev node_of : ℕ → ℕ → ℕ → Node
node_of id parent calls = record {
  id = id;
  parent_id = parent;
  node_name = 7;
  all_values = 90 ∷ [];
  children_values = 0 ∷ [];
  call_count = calls;
  running = false;
}

abbrev current_of : Node → ℕ → RecordNode
current_of node gnid = record new_record_node { basic = node; temp_values = 0 ∷ []; gnid = gnid }

abbrev source_tree : Map RecordNode
source_tree = (1, current_of (node_of 1 0 0) 1) ∷ (2, current_of (node_of 2 1 4) 900) ∷ []

abbrev source_slice : Map Node
source_slice = (1, node_of 1 0 0) ∷ (2, node_of 2 1 4) ∷ []

abbrev empty_store : Integrating
empty_store = record { tree = []; slice = []; sequence = new_sequence; names = [] }

empty_store-IsAligned : IsAligned monitor (λ q id. 0) empty_store
unfolding find
empty_store-IsAligned = record {
  tree_sized = λ id node e. absurd (cc);
  slice_sized = λ id node e. absurd (cc);
  total = λ q added id. refl;
}

integrate_nodes-IsAligned_example :
    (st' : Integrating) × (integrate_nodes monitor
        ((7, codes "main") ∷ [])
        source_tree
        source_slice
        empty_store
      ≡ some st')
    × IsAligned monitor (λ q id. 0) st'
    × ((q : Quantity)
        → IsAdded (statics monitor) q
        → (j : ℕ)
        → count q j st'.slice
          ≡ add_sources q j source_tree st'.sequence source_slice (count q j []))
    × Extends new_sequence st'.sequence
unfolding find
integrate_nodes-IsAligned_example =
    integrate_nodes-IsAligned monitor (λ q id. 0) ((7, codes "main") ∷ []) source_tree source_slice
      empty_store
      (
        (refl, refl),
        (current_of (node_of 1 0 0) 1, refl),
        ((refl, refl), (current_of (node_of 2 1 4) 900, refl), tt),
      )
      empty_store-IsAligned
