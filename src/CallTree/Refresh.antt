-- ===== src/CallTree/Refresh.antt =====
-- llprofcommon/call_tree.cpp: `get_current_node_info_pair`, and what it leaves of a thread.
use llprof.Base.{
  ℕ, ◌<◌, ◌≤◌, ◌≡◌, refl, ap, ◌∙◌, ◌⊎◌, inl, inr, Bool, some, List, [], ◌∷◌, ◌++◌, map, length,
  get_elem?, modify, arith, ◌==◌, map-modify, length-modify, get_elem?-append_last, get_elem?-of_lt,
  get_elem?-modify_self, Bool-cases, ==_iff,
}
use llprof.Registry.{Registry}
use llprof.CallTree.{NodeInfo, SerializedInfo, ThreadInfo, fresh_record, point_to, refresh}
use llprof.CallTree.Links.{links, link, IsTree, IsTree-modify}
use llprof.CallTree.Counts.{calls_at, calls_at-append_fresh}
use llprof.CallTree.Invariant.{IsCached, IsCached-record, Describes}

-- The values that the nodes had when they were entered.
abbrev pub starts : List NodeInfo → List (List ℕ)
starts = map λ n. n.start_value

pub record IsValid (g : Registry) (ti : ThreadInfo) : Type 0 where
  pub tree : IsTree ti.nodes
  pub cache : IsCached (length g.active) ti.generation ti.nodes ti.serialized
  pub low : 1 ≤ ti.current
  pub high : ti.current < length ti.nodes

-- A thread whose current node has its record, and what it shares with the thread before.
pub record Refreshed (g : Registry) (ti ti' : ThreadInfo) : Type 0 where
  pub valid : IsValid g ti'
  pub same_links : links ti'.nodes ≡ links ti.nodes
  pub same_starts : starts ti'.nodes ≡ starts ti.nodes
  pub same_current : ti'.current ≡ ti.current
  pub same_generation : ti'.generation ≡ ti.generation
  pub same_stop : ti'.stop ≡ ti.stop
  pub node : NodeInfo
  pub entry : SerializedInfo
  pub at_node : get_elem? ti'.nodes ti'.current ≡ some node
  pub at_entry : get_elem? ti'.serialized node.serialized_node_index ≡ some entry
  pub describes : Describes ti'.current node entry
  pub added :
      (ti'.serialized ≡ ti.serialized)
      ⊎ (ti'.serialized ≡ ti.serialized ++ fresh_record g ti.current node ∷ [])

with_record : Registry → ThreadInfo → NodeInfo → ThreadInfo
with_record g ti n = record ti {
  nodes = modify ti.nodes ti.current (point_to (length ti.serialized) ti.generation);
  serialized = ti.serialized ++ fresh_record g ti.current n ∷ [];
}

with_record-Refreshed :
    (g : Registry) (ti : ThreadInfo) (n : NodeInfo)
    → IsValid g ti
    → get_elem? ti.nodes ti.current ≡ some n
    → Refreshed g ti (with_record g ti n)
unfolding with_record
with_record-Refreshed g ti n v at = record {
  valid = record {
    tree =
        IsTree-modify ti.nodes ti.current (point_to (length ti.serialized) ti.generation)
          (λ m. refl) (λ m. refl) v.tree;
    cache =
        IsCached-record (length g.active) ti.generation ti.nodes ti.serialized v.cache g ti.current
          n refl at;
    low = v.low;
    high =
        rw (length-modify ti.nodes ti.current (point_to (length ti.serialized) ti.generation))
          v.high;
  };
  same_links = map-modify link _ ti.nodes ti.current (λ m. refl);
  same_starts = map-modify (λ m. m.start_value) _ ti.nodes ti.current (λ m. refl);
  same_current = refl;
  same_generation = refl;
  same_stop = refl;
  node = point_to (length ti.serialized) ti.generation n;
  entry = fresh_record g ti.current n;
  at_node =
      get_elem?-modify_self ti.nodes ti.current (point_to (length ti.serialized) ti.generation) at;
  at_entry = get_elem?-append_last ti.serialized (fresh_record g ti.current n);
  describes = (refl, refl, refl);
  added = inr refl;
}

pub refresh-Refreshed :
    (g : Registry) (ti : ThreadInfo)
    → IsValid g ti
    → (ti' : ThreadInfo) × (refresh g ti ≡ some ti') × Refreshed g ti ti'
unfolding refresh with_record
refresh-Refreshed g ti v =
    let (n, at) = get_elem?-of_lt ti.nodes ti.current v.high in
    elim (Bool-cases (n.generation_number == ti.generation)) [
      | inl e ↦
          let (s, there, d) =
            v.cache.cached ti.current n at ((==_iff n.generation_number ti.generation).0 e) in
          (
            ti,
            ground (arith, at, e),
            record {
              valid = v;
              same_links = refl;
              same_starts = refl;
              same_current = refl;
              same_generation = refl;
              same_stop = refl;
              node = n;
              entry = s;
              at_node = at;
              at_entry = there;
              describes = d;
              added = inl refl;
            },
          )
      | inr e ↦ (with_record g ti n, ground (arith, at, e), with_record-Refreshed g ti n v at)
    ]

-- The record that may have been added has no calls.
pub calls_at-Refreshed :
    (j : ℕ → Bool) (g : Registry) (ti ti' : ThreadInfo)
    → Refreshed g ti ti'
    → calls_at j ti'.serialized ≡ calls_at j ti.serialized
calls_at-Refreshed j g ti ti' k = elim k.added [
  | inl e ↦ ap (calls_at j) e
  | inr e ↦
      ap (calls_at j) e
      ∙ calls_at-append_fresh j ti.serialized (fresh_record g ti.current k.node) refl
]
