-- ===== src/CallTree/Calls.antt =====
-- llprofcommon/call_tree.cpp: `llprof_call_handler`, and the child node that a call goes to.
use llprof.Base.{
  ℕ, ◌-◌, ◌<◌, ◌≤◌, ◌≡◌, refl, ap, ◌∙◌, inl, inr, Bool, true, false, Option, none, some, List, [],
  ◌∷◌, ◌++◌, length, get_elem?, arith, if◌then◌else◌, add64, find, Text, map-modify, map-append_one,
  length-append, length-map, get_elem?-of_lt, lt_of_get_elem?, get_elem?-append_inv, Option-cases,
}
use mathlib.Core.Path.{ap₂}
use llprof.Registry.{Registry}
use llprof.Registry.Slots.{Layout}
use llprof.CallTree.{
  NodeInfo, Tree, add_child, fresh_node, add_call_node, get_child_node_id, call_handler,
}
use llprof.CallTree.Links.{
  links, link, stack_at, stack_at-append, stack_at-node, IsTree, grown, IsTree-grown, links-grown,
  get_elem?-links-grown,
}
use llprof.CallTree.Invariant.{IsCached, IsCached-modify, IsCached-append}
use llprof.CallTree.Counts.{calls_at}
use llprof.CallTree.Refresh.{IsValid, starts}
use llprof.CallTree.Handlers.{IsStarted, stack, IsReady, enter-Keeps}

thread-add_call_node :
    (p k : ℕ) (name : Option Text) (t : Tree)
    → 1 ≤ p
    → ((add_call_node p k name t).0.thread ≡ record t.thread { nodes = grown t.thread.nodes p k })
      × ((add_call_node p k name t).1 ≡ length t.thread.nodes)
unfolding add_call_node
thread-add_call_node p k name t low =
    let last : length (t.thread.nodes ++ fresh_node p k ∷ []) - 1 ≡ length t.thread.nodes =
      omega (arith, length-append t.thread.nodes (fresh_node p k ∷ [])) in
    (ground (arith, last), omega arith)

starts-grown :
    (p k : ℕ) (nodes : List NodeInfo) → starts (grown nodes p k) ≡ starts nodes ++ [] ∷ []
starts-grown p k nodes =
    map-modify (λ (m : NodeInfo). m.start_value) (add_child k (length nodes))
      (nodes ++ fresh_node p k ∷ []) p (λ m. refl)
    ∙ map-append_one (λ (m : NodeInfo). m.start_value) nodes (fresh_node p k)

-- The child node that a call goes to.
pub record Child (g : Registry) (nameid : ℕ) (t t' : Tree) (id : ℕ) : Type 0 where
  pub tree : IsTree t'.thread.nodes
  pub cache : IsCached (length g.active) t'.thread.generation t'.thread.nodes t'.thread.serialized
  pub started : IsStarted g id t'.thread.nodes
  pub below_root : 2 ≤ id
  pub child_link : get_elem? (links t'.thread.nodes) id ≡ some (nameid, t.thread.current)
  pub same_stack : stack_at (links t'.thread.nodes) t.thread.current ≡ stack t.thread
  pub same_generation : t'.thread.generation ≡ t.thread.generation
  pub same_stop : t'.thread.stop ≡ t.thread.stop
  pub same_records : t'.thread.serialized ≡ t.thread.serialized

module _ (g : Registry) (nameid : ℕ) (name : Option Text) (t : Tree) (v : IsValid g t.thread)
    (s : IsStarted g 0 t.thread.nodes) where
  new-Child :
      (n : NodeInfo)
      → get_elem? t.thread.nodes t.thread.current ≡ some n
      → find nameid n.children ≡ none
      → Child g nameid t (add_call_node t.thread.current nameid name t).0 (length t.thread.nodes)
  new-Child n at miss =
      let e = (thread-add_call_node t.thread.current nameid name t v.low).0 in
      record {
        tree = rw e (IsTree-grown t.thread.nodes t.thread.current nameid n v.tree v.low at miss);
        cache = rw e (
            IsCached-modify (length g.active) t.thread.generation _ t.thread.serialized
              (IsCached-append (length g.active) t.thread.generation t.thread.nodes
                t.thread.serialized v.cache t.thread.current nameid)
              t.thread.current (add_child nameid (length t.thread.nodes))
              (λ m. (refl, refl, refl)));
        started =
            rw (e, starts-grown t.thread.current nameid t.thread.nodes)
              (λ i w at two ne. elim (get_elem?-append_inv (starts t.thread.nodes) [] i at) [
                | inl old ↦ s i w old two (omega arith)
                | inr last ↦
                    absurd
                      (ne (last.0 ∙ length-map (λ (m : NodeInfo). m.start_value) t.thread.nodes))
              ]);
        below_root = omega (arith, v.low, v.high);
        child_link =
            rw e
              (get_elem?-links-grown t.thread.nodes t.thread.current nameid n v.tree v.low at miss);
        same_stack =
            rw (e, links-grown t.thread.nodes t.thread.current nameid n v.tree v.low at miss)
              (stack_at-append (links t.thread.nodes) (nameid, t.thread.current) t.thread.current
                v.tree.ordered (rw (length-map link t.thread.nodes) v.high));
        same_generation = rw e;
        same_stop = rw e;
        same_records = rw e;
      }

  old-Child :
      (n : NodeInfo) (c : ℕ)
      → get_elem? t.thread.nodes t.thread.current ≡ some n
      → find nameid n.children ≡ some c
      → Child g nameid t t c
  old-Child n c at hit =
      let (two, l) = v.tree.children t.thread.current n nameid c at hit in
      record {
        tree = v.tree;
        cache = v.cache;
        started = λ i w e h _. s i w e h (omega arith);
        below_root = two;
        child_link = l;
        same_stack = refl;
        same_generation = refl;
        same_stop = refl;
        same_records = refl;
      }

  Child-total :
      (t' : Tree) × (id : ℕ) × (get_child_node_id nameid name t ≡ some (t', id))
      × Child g nameid t t' id
  unfolding get_child_node_id
  Child-total =
      let (n, at) = get_elem?-of_lt t.thread.nodes t.thread.current v.high in
      elim (Option-cases (find nameid n.children)) [
        | inl miss ↦ (
          (add_call_node t.thread.current nameid name t).0,
          length t.thread.nodes,
          ground (arith, at, miss, (thread-add_call_node t.thread.current nameid name t v.low).1),
          new-Child n at miss,
        )
        | inr (c, hit) ↦ (t, c, ground (arith, at, hit), old-Child n c at hit)
      ]

-- With no record type active, or exactly one, which is a counter, and from a thread between two
-- handlers that satisfies the invariant, a call never fails (the sizes of the arrays in bytes are not
-- part of the state): the invariant holds again, the name of the call is pushed on the
-- stack of names, the generation is unchanged, and among the records waiting exactly one call more
-- is counted, modulo 2^64, for the new current node.
pub call_handler-total :
    (g : Registry) (layout : Layout g) (read : ℕ → ℕ) (nameid : ℕ) (name : Option Text) (t : Tree)
    → IsReady g t.thread
    → (t' : Tree) × (call_handler g read nameid name t ≡ some t')
      × IsReady g t'.thread
      × (stack t'.thread ≡ nameid ∷ stack t.thread)
      × (t'.thread.generation ≡ t.thread.generation)
      × ((j : ℕ → Bool)
          → calls_at j t'.thread.serialized
            ≡ add64 (calls_at j t.thread.serialized) (if j t'.thread.current then 1 else 0))
unfolding call_handler
call_handler-total g layout read nameid name t v =
    let u : Tree = record t { thread = record t.thread { stop = true } } in
    let v' : IsValid g u.thread = record {
      tree = v.valid.tree;
      cache = v.valid.cache;
      low = v.valid.low;
      high = v.valid.high;
    } in
    let (t', id, found, c) = Child-total g nameid name u v' v.started in
    let high : id < length t'.thread.nodes =
      rw (← length-map link t'.thread.nodes)
        (lt_of_get_elem? (links t'.thread.nodes) id c.child_link) in
    let (ti, entered, k, same) =
      enter-Keeps g layout read (record t'.thread { current = id })
        (record { tree = c.tree; cache = c.cache; low = omega (arith, c.below_root); high = high })
        c.started in
    (
      record t' { thread = record ti { stop = false } },
      ground (arith, v.idle, found, entered),
      record {
        valid = record {
          tree = k.valid.tree;
          cache = k.valid.cache;
          low = k.valid.low;
          high = k.valid.high;
        };
        started = k.started;
        idle = refl;
      },
      ap₂ stack_at k.same_links same
          ∙ stack_at-node (links t'.thread.nodes) id nameid t.thread.current c.tree.ordered
              c.child_link c.below_root
          ∙ ap (◌∷◌ nameid) c.same_stack,
      k.same_generation ∙ c.same_generation,
      λ j. ground (arith, k.counts j, c.same_records, same),
    )
