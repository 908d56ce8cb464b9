-- ===== src/Registry/Examples.antt =====
-- The record types of a binding with two counters, and the theorems of Registry at them.
use llprof.Base.{
  ℕ, suc, ◌≡◌, refl, true, false, Option, none, some, List, [], ◌∷◌, ◌++◌, ◌<◌, Text, codes, split,
  length, arith,
}
use llprof.Registry.{
  PvType, Registry, no_records, is_pvt_enabled, set_record_string, add_counter_pv, add_event_pv,
  add_active_record,
}
use llprof.Registry.Selection.{
  Setup, counter, event, select, set_up, slots, kinds, is_pvt_enabled-set_up,
  active-set_record_string,
}
use llprof.Registry.Slots.{start_node, start_node_two_counters}

abbrev set_ups : List Setup
set_ups =
    counter (codes "rtime") (codes "real-time")
    ∷ event (codes "alloc") (codes "allocated")
    ∷ select (some (codes "rtime"))
    ∷ []

abbrev counter_type : Text → PvType
counter_type id = record {
  record_type_id = id;
  record_type_name = id;
  is_counter = true;
  record_index = none;
}

abbrev two_counters : Registry
two_counters = record {
  records = counter_type (codes "rtime") ∷ counter_type (codes "cpu") ∷ [];
  active = 0 ∷ 0 ∷ 1 ∷ 1 ∷ [];
}

is_pvt_enabled-set_up_example : is_pvt_enabled 0 (set_up set_ups no_records) ≡ some false
unfolding set_up set_record_string llprof.Base.split_from add_active_record add_event_pv
    add_counter_pv llprof.Base.text_eq
is_pvt_enabled-set_up_example = is_pvt_enabled-set_up set_ups 0 (omega arith)

active-set_record_string_example :
    (set_record_string (some (codes "alloc rtime")) (set_up set_ups no_records)).active
    ≡ (set_up set_ups no_records).active ++ 1 ∷ 0 ∷ 0 ∷ []
unfolding slots llprof.Registry.Selection.slots_of kinds llprof.Base.split_from llprof.Base.text_eq
active-set_record_string_example = active-set_record_string set_ups (codes "alloc rtime")

start_node_two_counters_example : start_node two_counters (λ i. 5) (1 ∷ 2 ∷ 3 ∷ 4 ∷ []) ≡ none
start_node_two_counters_example =
    start_node_two_counters two_counters 0 1 (counter_type (codes "rtime"))
      (counter_type (codes "cpu")) (λ i. 5) (1 ∷ 2 ∷ 3 ∷ 4 ∷ []) refl refl refl refl refl
