-- ===== src/CallTree/Handlers.antt =====
-- llprofcommon/call_tree.cpp: `llprof_return_handler`, and what the handlers do at the current node.
use llprof.Base.{
  ℕ, ◌≤◌, ◌≡◌, refl, sym, ap, ◌∙◌, ◌≢◌, inl, inr, Bool, true, false, some, List, [], ◌∷◌, length,
  get_elem?, modify, arith, ◌==◌, if◌then◌else◌, add64, map-modify, length-modify,
  get_elem?-modify_inv, get_elem?-map, get_elem?-map_inv, Bool-cases, ==_iff,
}
use mathlib.Core.Path.{ap₂}
use mathlib.Core.List.{tail}
use llprof.Registry.{Registry}
use llprof.Registry.Slots.{Layout, start_node-total, end_node-total}
use llprof.CallTree.{
  NodeInfo, ThreadInfo, set_start, count_call, set_values, enter, leave, return_handler,
}
use llprof.CallTree.Links.{links, link, stack_at, stack_at-node, stack_at-root, IsTree-modify}
use llprof.CallTree.Invariant.{IsCached-modify, IsCached-count}
use llprof.CallTree.Counts.{calls_at, calls_at-lt, calls_at-count_call, calls_at-set_values}
use llprof.CallTree.Refresh.{calls_at-Refreshed, IsValid, refresh-Refreshed, starts}

-- Every node below the root but `skip` has been entered.
abbrev pub IsStarted : Registry → ℕ → List NodeInfo → Type 0
IsStarted g skip nodes =
    (i : ℕ) (w : List ℕ)
    → get_elem? (starts nodes) i ≡ some w
    → 2 ≤ i
    → i ≢ skip
    → length w ≡ length g.active

abbrev pub stack : ThreadInfo → List ℕ
stack ti = stack_at (links ti.nodes) ti.current

-- What holds between two handlers.
pub record IsReady (g : Registry) (ti : ThreadInfo) : Type 0 where
  pub valid : IsValid g ti
  pub started : IsStarted g 0 ti.nodes
  pub idle : ti.stop ≡ false

-- What a step that counts `n` calls of the current node does to the rest of a thread.
pub record Keeps (g : Registry) (n : ℕ) (ti ti' : ThreadInfo) : Type 0 where
  pub valid : IsValid g ti'
  pub started : IsStarted g 0 ti'.nodes
  pub same_links : links ti'.nodes ≡ links ti.nodes
  pub same_generation : ti'.generation ≡ ti.generation
  pub counts :
      (j : ℕ → Bool)
      → calls_at j ti'.serialized ≡ add64 (calls_at j ti.serialized) (if j ti.current then n else 0)

started-set :
    (g : Registry) (nodes : List NodeInfo) (id : ℕ) (v : List ℕ)
    → length v ≡ length g.active
    → IsStarted g id nodes
    → IsStarted g 0 (modify nodes id (set_start v))
started-set g nodes id v w s i u e two ne =
    let (m, at, is) =
      get_elem?-map_inv (λ (n : NodeInfo). n.start_value) (modify nodes id (set_start v)) i e in
    let (n, before, was) = get_elem?-modify_inv nodes id i (set_start v) at in
    elim was [
      | inl p ↦ ground (arith, is, p, w)
      | inr p ↦ ground (
        arith,
        is,
        p,
        s i n.start_value (get_elem?-map (λ (x : NodeInfo). x.start_value) nodes i before) two
            (λ q. p.0 (sym q)),
      )
    ]

module _ (g : Registry) (layout : Layout g) (read : ℕ → ℕ) where
  pub enter-Keeps :
      (ti : ThreadInfo)
      → IsValid g ti
      → IsStarted g ti.current ti.nodes
      → (ti' : ThreadInfo) × (enter g read ti ≡ some ti')
        × Keeps g 1 ti ti'
        × (ti'.current ≡ ti.current)
  unfolding enter
  enter-Keeps ti v s =
      let (r, done, k) = refresh-Refreshed g ti v in
      let (values, counted, width) =
        start_node-total g read k.entry.profile_value layout
          (k.valid.cache.widths k.node.serialized_node_index k.entry k.at_entry) in
      (
        record r {
          nodes = modify r.nodes r.current (set_start values);
          serialized = modify r.serialized k.node.serialized_node_index (count_call values);
        },
        ground (arith, done, k.at_node, k.at_entry, counted),
        record {
          valid = record {
            tree =
                IsTree-modify r.nodes r.current (set_start values) (λ n. refl) (λ n. refl)
                  k.valid.tree;
            cache =
                IsCached-count (length g.active) r.generation _ r.serialized
                  (IsCached-modify (length g.active) r.generation r.nodes r.serialized k.valid.cache
                    r.current (set_start values) (λ n. (refl, refl, refl)))
                  k.node.serialized_node_index (count_call values)
                  (λ e at. (
                    width ∙ sym (k.valid.cache.widths k.node.serialized_node_index e at),
                    refl,
                    refl,
                    refl,
                  ));
            low = k.valid.low;
            high = rw (length-modify r.nodes r.current (set_start values)) k.valid.high;
          };
          started =
              started-set g r.nodes r.current values width (rw (k.same_starts, k.same_current) s);
          same_links =
              map-modify link (set_start values) r.nodes r.current (λ n. refl) ∙ k.same_links;
          same_generation = k.same_generation;
          counts = λ j. ground (
            arith,
            calls_at-count_call j k.node.serialized_node_index values r.serialized k.at_entry,
            calls_at-Refreshed j g ti r k,
            k.describes,
            k.same_current,
          );
        },
        k.same_current,
      )

  pub leave-Keeps :
      (ti : ThreadInfo)
      → IsValid g ti
      → IsStarted g 0 ti.nodes
      → 2 ≤ ti.current
      → (ti' : ThreadInfo) × (leave g read ti ≡ some ti')
        × Keeps g 0 ti ti'
        × ((name : ℕ) × (stack ti ≡ name ∷ stack ti'))
  unfolding leave
  leave-Keeps ti v s below =
      let (r, done, k) = refresh-Refreshed g ti v in
      let width = k.valid.cache.widths k.node.serialized_node_index k.entry k.at_entry in
      let at_start = get_elem?-map (λ (n : NodeInfo). n.start_value) r.nodes r.current k.at_node in
      let started : IsStarted g 0 r.nodes = rw k.same_starts s in
      let (values, counted, same) =
        end_node-total g read k.node.start_value k.entry.profile_value layout
          (started r.current k.node.start_value at_start (rw k.same_current below)
            (omega (arith, k.same_current)))
          width in
      let at_link = get_elem?-map link r.nodes r.current k.at_node in
      let order =
        k.valid.tree.ordered r.current k.node.nameid k.node.parent_node_id at_link
          (rw k.same_current below) in
      (
        record r {
          serialized = modify r.serialized k.node.serialized_node_index (set_values values);
          current = k.entry.parent_node_id;
          nodes = modify r.nodes r.current (λ n. n);
        },
        ground (arith, done, k.at_node, k.at_entry, counted),
        record {
          valid = record {
            tree = IsTree-modify r.nodes r.current (λ n. n) (λ n. refl) (λ n. refl) k.valid.tree;
            cache =
                IsCached-count (length g.active) r.generation _ r.serialized
                  (IsCached-modify (length g.active) r.generation r.nodes r.serialized k.valid.cache
                    r.current (λ n. n) (λ n. (refl, refl, refl)))
                  k.node.serialized_node_index (set_values values)
                  (λ e at. (
                    same ∙ sym (k.valid.cache.widths k.node.serialized_node_index e at),
                    refl,
                    refl,
                    refl,
                  ));
            low = ground (arith, k.describes, order);
            high =
                rw (length-modify r.nodes r.current (λ n. n))
                  (ground (arith, k.describes, order, k.valid.high));
          };
          started =
              rw
                (map-modify (λ (n : NodeInfo). n.start_value) (λ n. n) r.nodes r.current
                  (λ n. refl))
                started;
          same_links = map-modify link (λ n. n) r.nodes r.current (λ n. refl) ∙ k.same_links;
          same_generation = k.same_generation;
          counts = λ j. ground (
            arith,
            calls_at-set_values j k.node.serialized_node_index values r.serialized,
            calls_at-Refreshed j g ti r k,
            calls_at-lt j ti.serialized,
          );
        },
        (
          k.node.nameid,
          stack_at-node (links ti.nodes) ti.current k.node.nameid k.node.parent_node_id
                v.tree.ordered (rw (k.same_links, k.same_current) at at_link) below
              ∙ ap (◌∷◌ k.node.nameid) (
                  ap₂ stack_at
                    (sym (map-modify link (λ n. n) r.nodes r.current (λ n. refl) ∙ k.same_links))
                    (sym k.describes.2)),
        ),
      )

  root_stack : (ti : ThreadInfo) → (ti.current == 1) ≡ true → stack ti ≡ tail (stack ti)
  root_stack ti e = empty ∙ sym (ap tail empty)
    where
      empty : stack ti ≡ []
      empty =
          ap (stack_at (links ti.nodes)) ((==_iff ti.current 1).0 e)
          ∙ stack_at-root (links ti.nodes)

  pub return_handler-total :
      (ti : ThreadInfo)
      → IsReady g ti
      → (ti' : ThreadInfo) × (return_handler g read ti ≡ some ti')
        × IsReady g ti'
        × (stack ti' ≡ tail (stack ti))
        × (ti'.generation ≡ ti.generation)
        × ((j : ℕ → Bool) → calls_at j ti'.serialized ≡ calls_at j ti.serialized)
  unfolding return_handler
  return_handler-total ti v = elim (Bool-cases (ti.current == 1)) [
    | inl e ↦ (ti, ground (arith, e), v, root_stack ti e, refl, λ j. refl)
    | inr e ↦
        let (ti', done, k, top) =
          leave-Keeps (record ti { stop = true })
            (record {
              tree = v.valid.tree;
              cache = v.valid.cache;
              low = v.valid.low;
              high = v.valid.high;
            })
            v.started (ground (arith, e, v.valid.low)) in
        (
          record ti' { stop = false },
          ground (arith, e, v.idle, done),
          record {
            valid = record {
              tree = k.valid.tree;
              cache = k.valid.cache;
              low = k.valid.low;
              high = k.valid.high;
            };
            started = k.started;
            idle = refl;
          },
          sym (ap tail top.1),
          k.same_generation,
          λ j. ground (arith, k.counts j, calls_at-lt j ti.serialized),
        )
  ]
