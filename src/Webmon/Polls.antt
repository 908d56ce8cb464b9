-- ===== src/Webmon/Polls.antt =====
-- webmon/data_store.cpp: `ThreadStore::Store` as a whole, poll after poll. Attribute nodes and the
-- single tree mode are off.
pub mod Records
pub mod NowInfo
pub mod Sums
pub mod Poll
pub mod Step
pub mod Check
pub mod Examples
pub mod Placing
use llprof.Base.{ℕ, suc, ◌≡◌, ◌≤◌, ◌<◌, ◌⊎◌, Bool, false, List, [], ◌∷◌, Map, length}
use llprof.CallTree.{SerializedInfo}
use llprof.Webmon.Slices.{TimeSlice, Slices}
use llprof.Webmon.Nodes.{Ds, RecordNode, get_num_profile_values}
use llprof.Webmon.Totals.{Has}

-- The setting without attribute nodes and without the single tree.
abbrev pub IsPlain : Ds → Type 0
IsPlain ds = (ds.single_tree_mode ≡ false) × (ds.leaf_node_accumulate ≡ false)

abbrev pub Seen : ℕ → List ℕ → Type 0
Seen id [] = ⊥
Seen id (j ∷ seen) = (id ≡ j) ⊎ Seen id seen

abbrev pub Reached : Map RecordNode → List ℕ → ℕ → Type 0
Reached tree seen id = Has id tree ⊎ Seen id seen

-- Records of nodes that are in the tree or come after their parents, which have smaller ids. `seen`
-- has the ids of the earlier records.
abbrev pub AllFit : Ds → ℕ → Map RecordNode → List ℕ → List SerializedInfo → Type 0
AllFit ds top tree seen [] = Unit {0}
AllFit ds top tree seen (s ∷ samples) =
    (length s.profile_value ≡ get_num_profile_values ds)
    × (Reached tree seen s.call_node_id
        ⊎ ((s.call_node_id < top)
            × (s.parent_node_id < s.call_node_id)
            × Reached tree seen s.parent_node_id))
    × AllFit ds top tree (s.call_node_id ∷ seen) samples

-- The time is not before the first slice.
abbrev pub OnTime : ℕ → Slices → Type 0
OnTime t s = (s.time_slice ≡ []) ⊎ (s.start_time_number ≤ t)
