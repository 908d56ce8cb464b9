-- ===== src/Webmon/Integrate/Adding.antt =====
-- Webmon/Integrate: what the nodes of a slice add to the global tree and to the global slice.
use llprof.Base.{
  ℕ, ◌≡◌, refl, sym, ap, ◌∙◌, inl, inr, some, [], ◌∷◌, Map, find, put, find-put, Text, ==_refl,
  ◌==◌, if◌then◌else◌, subst, Option-cases, bind_some, ◌>>=◌, add64, arith,
}
use llprof.Webmon.Slices.{Node}
use llprof.Webmon.Quantity.{Quantity, amount, IsAdded}
use llprof.Webmon.Merge.{Sized, AllSized, count, count-put, Sized-put}
use llprof.Webmon.Sequence.{Sequence, seq_of}
use llprof.Webmon.Integrate.Numbers.{
  Extends, Extends-refl, Extends-trans, Extends-number, seq_of-number, goes_to_lem, add_sources,
}
use llprof.Webmon.Nodes.{Ds, RecordNode, get_num_profile_values, get_slice_node, slice_node}
use llprof.Webmon.Clear.{Clearing, statics}
use llprof.Webmon.Totals.{Has, held}
use llprof.Webmon.Totals.Moves.{
  new_slice_node, get_slice_node-old, get_slice_node-new, written_total, own_total,
}
use llprof.Webmon.Integrate.{
  Integrating, add_node, touch_dest, add_dest, integrate_under, integrate_node, integrate_nodes,
}
use llprof.Webmon.Integrate.Aligned.{
  IsAligned, TreeSized-put, add_node-total, touch_dest_lem, touch_dest-IsAligned,
}

module _ (ds : Ds) (base : Quantity → ℕ → ℕ) where
  -- The slice with a node for the id.
  slice_ready :
      (id : ℕ) (slice : Map Node)
      → AllSized (get_num_profile_values ds) slice
      → AllSized (get_num_profile_values ds) (get_slice_node ds id slice)
        × ((tss : Node) × (find id (get_slice_node ds id slice) ≡ some tss))
        × ((q : Quantity) (j : ℕ) → count q j (get_slice_node ds id slice) ≡ count q j slice)
  slice_ready id slice sized = elim (Option-cases (find id slice)) [
    | inr (tss, e) ↦ rw (get_slice_node-old ds 0 base id slice tss e) (sized, (tss, e), λ q j. refl)
    | inl e ↦
        let node = slice_node ds id slice in
        let (width, _, _, nothing) = new_slice_node ds 0 base id slice e in
        rw (get_slice_node-new ds 0 base id slice e) (
          Sized-put (get_num_profile_values ds) id node slice width sized,
          (node, find-put id id node slice ∙ ground (arith, ==_refl id)),
          λ q j. ground (arith, count-put q id j node slice, nothing q, e),
        )
  ]

  add_dest_step :
      (src : Node) (dest_id : ℕ) (st : Integrating) (dest_current : RecordNode) (dest r r' : Node)
      → find dest_id st.tree ≡ some dest_current
      → find dest_id (get_slice_node ds dest_id st.slice) ≡ some dest
      → add_node ds dest src ≡ some r
      → add_node ds dest_current.basic src ≡ some r'
      → add_dest ds src dest_id st
        ≡ some (record st {
          tree = put dest_id (record dest_current { basic = r' }) st.tree;
          slice = put dest_id r (get_slice_node ds dest_id st.slice);
        })
  unfolding add_dest
  add_dest_step src dest_id st dest_current dest r r' a b c d =
      bind_some (find dest_id st.tree) _ dest_current a
      ∙ bind_some (find dest_id (get_slice_node ds dest_id st.slice)) _ dest b
      ∙ rw (c, d) refl

  -- What a source adds to the node `dest_id`.
  record Added (src : Node) (dest_id : ℕ) (st st' : Integrating) : Type 0 where
    aligned : IsAligned ds base st'
    counts :
        (q : Quantity)
        → IsAdded (statics ds) q
        → (j : ℕ)
        → count q j st'.slice
          ≡ (if dest_id == j then add64 (count q j st.slice) (amount q src) else count q j st.slice)
    extends : Extends st.sequence st'.sequence

  put_counts :
      (q : Quantity) (dest_id j : ℕ) (src dest r : Node) (before slice : Map Node)
      → count q j slice ≡ count q j before
      → find dest_id slice ≡ some dest
      → amount q r ≡ add64 (amount q dest) (amount q src)
      → count q j (put dest_id r slice)
        ≡ (if dest_id == j then add64 (count q j before) (amount q src) else count q j before)
  put_counts q dest_id j src dest r before slice same here sum =
      ground (arith, count-put q dest_id j r slice, same, here, sum)

  add_dest-IsAligned :
      (src : Node) (dest_id : ℕ) (st : Integrating)
      → IsAligned ds base st
      → Has dest_id st.tree
      → Sized (get_num_profile_values ds) src
      → (st' : Integrating) × (add_dest ds src dest_id st ≡ some st') × Added src dest_id st st'
  add_dest-IsAligned src dest_id st al (dest_current, at) width =
      let (sized, (dest, here), same) = slice_ready dest_id st.slice al.slice_sized in
      let slice = get_slice_node ds dest_id st.slice in
      let (r, done, r_sized, sums) =
        add_node-total ds base dest src (sized dest_id dest here) width in
      let (r', done', r_sized', sums') =
        add_node-total ds base dest_current.basic src (al.tree_sized dest_id dest_current at)
          width in
      let node' : RecordNode = record dest_current { basic = r' } in
      let c : Clearing = record { tree = st.tree; slice = slice } in
      (
        record st { tree = put dest_id node' st.tree; slice = put dest_id r slice },
        add_dest_step src dest_id st dest_current dest r r' at here done done',
        record {
          aligned = record {
            tree_sized = TreeSized-put ds base dest_id node' st.tree r_sized' al.tree_sized;
            slice_sized = Sized-put (get_num_profile_values ds) dest_id r slice r_sized sized;
            total = λ q added j.
                let before : (k : ℕ) → held q k st.tree ≡ add64 (base q k) (count q k slice) =
                  λ k. al.total q added k ∙ ap (add64 (base q k)) (sym (same q k)) in
                let own =
                  own_total ds 0 base q dest_id c dest_current dest (before dest_id) at here in
                let e = sums q added in
                let e' = sums' q added in
                written_total ds 0 base q dest_id j c node' r (before j)
                  (omega (arith, own, e, e'));
          };
          counts = λ q added j.
              put_counts q dest_id j src dest r st.slice slice (same q j) here (sums q added);
          extends = Extends-refl st.sequence;
        },
      )

  -- Nodes with a value for each column, which the source's tree has.
  abbrev pub AllSources : Map RecordNode → Map Node → Type 0
  AllSources src_tree [] = Unit {0}
  AllSources src_tree ((_, src) ∷ nodes) =
      Sized (get_num_profile_values ds) src × Has src.id src_tree × AllSources src_tree nodes

  integrate_under-IsAligned :
      (src_names : Map Text) (src_tree : Map RecordNode) (src : Node) (src_current : RecordNode)
      (st : Integrating) (r : ℕ × Sequence)
      → IsAligned ds base st
      → Sized (get_num_profile_values ds) src
      → (st' : Integrating) × (integrate_under ds src_names src_tree src src_current st r
          ≡ some st')
        × Added src r.0 (record st { sequence = r.1 }) st'
  unfolding integrate_under
  integrate_under-IsAligned src_names src_tree src src_current st (dest_id, sequence) al width =
      let st1 : Integrating = record st { sequence = sequence } in
      let al1 : IsAligned ds base st1 = record {
        tree_sized = al.tree_sized;
        slice_sized = al.slice_sized;
        total = al.total;
      } in
      let (al2, has) =
        touch_dest-IsAligned ds base src_names src_tree src_current dest_id st1 al1 in
      let st2 = touch_dest ds src_names src_tree src_current dest_id st1 in
      let (slices, extends) = touch_dest_lem ds base src_names src_tree src_current dest_id st1 in
      let (st', done, a) = add_dest-IsAligned src dest_id st2 al2 has width in
      (
        st',
        done,
        record {
          aligned = a.aligned;
          counts = λ q added j.
              subst
                (λ slice. count q j st'.slice ≡ (
                  if dest_id == j then add64 (count q j slice) (amount q src) else count q j slice))
                slices (a.counts q added j);
          extends = Extends-trans sequence st2.sequence st'.sequence extends a.extends;
        },
      )

  node_step :
      (src_names : Map Text) (src_tree : Map RecordNode) (id : ℕ) (src : Node) (nodes : Map Node)
      (src_current : RecordNode) (st st' : Integrating)
      → find src.id src_tree ≡ some src_current
      → integrate_under ds src_names src_tree src src_current st
          (seq_of src_current.gnid st.sequence)
        ≡ some st'
      → integrate_nodes ds src_names src_tree ((id, src) ∷ nodes) st
        ≡ integrate_nodes ds src_names src_tree nodes st'
  unfolding integrate_nodes integrate_node
  node_step src_names src_tree id src nodes src_current st st' at done =
      ap (λ o. o >>= integrate_nodes ds src_names src_tree nodes)
        (bind_some (find src.id src_tree) _ src_current at ∙ done)

  -- The nodes of a source's slice go into the global store with success. In calls and in each column
  -- that is not static, each node of the global slice has then what it had and what the source's nodes
  -- have whose hashes have its number, modulo 2^64, and so has each node of the global tree: its
  -- difference to the slice is what it was. No hash has lost its number. Every node has a value for
  -- each column, and the source's tree has the nodes of its slice.
  pub integrate_nodes-IsAligned :
      (src_names : Map Text) (src_tree : Map RecordNode) (nodes : Map Node) (st : Integrating)
      → AllSources src_tree nodes
      → IsAligned ds base st
      → (st' : Integrating) × (integrate_nodes ds src_names src_tree nodes st ≡ some st')
        × IsAligned ds base st'
        × ((q : Quantity)
            → IsAdded (statics ds) q
            → (j : ℕ)
            → count q j st'.slice
              ≡ add_sources q j src_tree st'.sequence nodes (count q j st.slice))
        × Extends st.sequence st'.sequence
  unfolding integrate_nodes
  integrate_nodes-IsAligned src_names src_tree [] st all al =
      (st, refl, al, (λ q added j. refl), Extends-refl st.sequence)
  integrate_nodes-IsAligned src_names src_tree ((id, src) ∷ nodes) st (width, (current, at), all)
        al =
      let dest = seq_of current.gnid st.sequence in
      let (given, kept) = seq_of-number current.gnid st.sequence in
      let (st1, done, a) =
        integrate_under-IsAligned src_names src_tree src current st dest al width in
      let (st2, rest, al2, counts, extends) =
        integrate_nodes-IsAligned src_names src_tree nodes st1 all a.aligned in
      let later = Extends-trans dest.1 st1.sequence st2.sequence a.extends extends in
      (
        st2,
        node_step src_names src_tree id src nodes current st st1 at done ∙ rest,
        al2,
        (λ q added j.
            counts q added j
            ∙ ap (add_sources q j src_tree st2.sequence nodes) (
                a.counts q added j
                ∙ ap
                    (λ b.
                      if b then add64 (count q j st.slice) (amount q src) else count q j st.slice)
                    (sym (
                      goes_to_lem src_tree st2.sequence src current dest.0 j at
                        (Extends-number dest.1 st2.sequence current.gnid dest.0 later given))))),
        Extends-trans st.sequence dest.1 st2.sequence kept later,
      )
