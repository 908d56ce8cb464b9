-- ===== src/Webmon/Totals/Vectors.antt =====
-- Webmon/Clear: the loops over the values, in `AddTempToChildren` and at the end of
-- `ClearDirtyNode`, for one node and its node of the slice.
use llprof.Base.{
  ℕ, zero, suc, ◌≡◌, refl, sym, ap, ◌∙◌, Bool, true, false, not, some, List, [], ◌∷◌, length,
  length-map, get_or, get_elem?, get_elem?-map_inv, if◌then◌else◌, add64, arith,
}
use llprof.Webmon.Slices.{Node}
use llprof.Webmon.Merge.{Sized, length-accumulate_values}
use llprof.Webmon.Quantity.{Quantity, of_calls, of_all, of_children, amount, IsAdded}
use llprof.Webmon.Nodes.{RecordMetadata, Ds, RecordNode, get_num_profile_values}
use llprof.Webmon.Clear.{
  add_values, add_values_if_any, is_added, is_inherited, with_children, statics, all_zero,
  flush_if_any, flush_node,
}
use llprof.Webmon.Totals.{Values, Alike}

-- The columns that are selected are summed.
abbrev pub Summed :
    (RecordMetadata → Bool) → List RecordMetadata → List ℕ → List ℕ → List ℕ → Type 0
Summed p mds vs ws r =
    (i : ℕ) (md : RecordMetadata)
    → get_elem? mds i ≡ some md
    → p md ≡ true
    → get_or r i 0 ≡ add64 (get_or vs i 0) (get_or ws i 0)

Summed-cons :
    (p : RecordMetadata → Bool) (md : RecordMetadata) (mds : List RecordMetadata) (v w : ℕ)
    (vs ws r : List ℕ)
    → Summed p mds vs ws r
    → Summed p (md ∷ mds) (v ∷ vs) (w ∷ ws) ((if p md then add64 v w else v) ∷ r)
Summed-cons p md mds v w vs ws r sums zero other at chosen =
    let same : md ≡ other = cc in let here : p md ≡ true = ap p same ∙ chosen in rw here refl
Summed-cons p md mds v w vs ws r sums (suc i) other at chosen = sums i other at chosen

pub length-add_values :
    (p : RecordMetadata → Bool) (mds : List RecordMetadata) (vs ws : List ℕ)
    → length vs ≡ length mds
    → length ws ≡ length mds
    → (r : List ℕ) × (add_values p mds vs ws ≡ some r)
      × (length r ≡ length mds)
      × Summed p mds vs ws r
unfolding add_values
length-add_values p [] vs ws h k = (vs, refl, h, λ i md at. absurd (cc))
length-add_values p (md ∷ mds) [] ws h k = absurd (omega (arith, h))
length-add_values p (md ∷ mds) (v ∷ vs) [] h k = absurd (omega (arith, k))
length-add_values p (md ∷ mds) (v ∷ vs) (w ∷ ws) h k =
    let (r, e, len, sums) = length-add_values p mds vs ws (omega (arith, h)) (omega (arith, k)) in
    (
      (if p md then add64 v w else v) ∷ r,
      rw (e, add_values) refl,
      ap suc len,
      Summed-cons p md mds v w vs ws r sums,
    )

length-add_values_if_any :
    (mds : List RecordMetadata) (vs ws : List ℕ)
    → length vs ≡ length mds
    → length ws ≡ length mds
    → (r : List ℕ) × (add_values_if_any mds vs ws ≡ some r)
      × (length r ≡ length mds)
      × Summed is_added mds vs ws r
unfolding add_values_if_any
length-add_values_if_any [] [] ws h k = ([], refl, h, λ i md at. absurd (cc))
length-add_values_if_any (md ∷ mds) [] ws h k = absurd (omega (arith, h))
length-add_values_if_any mds (v ∷ vs) ws h k = length-add_values is_added mds (v ∷ vs) ws h k

-- The sums of the columns that are not static.
abbrev pub Sums : List Bool → List ℕ → List ℕ → List ℕ → Type 0
Sums static vs ws r =
    (i : ℕ) → get_elem? static i ≡ some false → get_or r i 0 ≡ add64 (get_or vs i 0) (get_or ws i 0)

pub Summed-Sums :
    (ds : Ds) (vs ws r : List ℕ)
    → Summed is_added ds.record_metadata vs ws r
    → Sums (statics ds) vs ws r
Summed-Sums ds vs ws r sums i e =
    let (md, at, flag) = get_elem?-map_inv (λ md. md.static_value_flag) ds.record_metadata i e in
    sums i md at (ap not (sym flag))

-- A node and its slice node keep their distance `x` when both grow by the same.
children_total :
    (q : Quantity) (static : List Bool) (node tss : Node) (ws r r' : List ℕ) (x : ℕ)
    → IsAdded static q
    → Sums static node.children_values ws r
    → Sums static tss.children_values ws r'
    → amount q node ≡ add64 x (amount q tss)
    → amount q (record node { children_values = r })
      ≡ add64 x (amount q (record tss { children_values = r' }))
children_total (of_calls) static node tss ws r r' x added sums sums' before = before
children_total (of_all i) static node tss ws r r' x added sums sums' before = before
children_total (of_children i) static node tss ws r r' x added sums sums' before =
    let e = sums i added in let e' = sums' i added in omega (arith, before, e, e')

flushed_total :
    (q : Quantity) (static : List Bool) (node tss : Node) (ws r r' : List ℕ) (x calls : ℕ)
    → IsAdded static q
    → Sums static node.all_values ws r
    → Sums static tss.all_values ws r'
    → tss.call_count ≡ 0
    → amount q node ≡ add64 x (amount q tss)
    → amount q (record node { all_values = r; call_count = add64 calls node.call_count })
      ≡ add64 x (amount q (record tss { all_values = r'; call_count = calls }))
flushed_total (of_calls) static node tss ws r r' x calls added sums sums' zero_calls before =
    omega (arith, before, zero_calls)
flushed_total (of_all i) static node tss ws r r' x calls added sums sums' zero_calls before =
    let e = sums i added in let e' = sums' i added in omega (arith, before, e, e')
flushed_total (of_children i) static node tss ws r r' x calls added sums sums' zero_calls before =
    before

module _ (ds : Ds) where
  pub with_children-total :
      (dest src : RecordNode) (tss : Node)
      → Values ds 0 dest
      → Sized (get_num_profile_values ds) tss
      → length src.temp_values ≡ get_num_profile_values ds
      → (dest' : RecordNode) × (tss' : Node) × (with_children ds dest tss src ≡ some (dest', tss'))
        × Alike dest dest'
        × Values ds 0 dest'
        × (dest'.dirty ≡ dest.dirty)
        × Sized (get_num_profile_values ds) tss'
        × (tss'.call_count ≡ tss.call_count)
        × (tss'.all_values ≡ tss.all_values)
        × ((q : Quantity)
            → IsAdded (statics ds) q
            → (x : ℕ) → amount q dest.basic ≡ add64 x (amount q tss)
            → amount q dest'.basic ≡ add64 x (amount q tss'))
  unfolding with_children
  with_children-total dest src tss ((all, cld), temps, small) (tss_all, tss_cld) src_temps =
      let mds = ds.record_metadata in
      let ws = src.temp_values in
      let (r, e, len, sums) =
        length-add_values_if_any mds dest.basic.children_values ws cld src_temps in
      let (r', e', len', sums') =
        length-add_values is_added mds tss.children_values ws tss_cld src_temps in
      let (r'', e'', len'', _) =
        length-add_values is_inherited mds dest.temp_values ws temps src_temps in
      (
        record dest { basic = record dest.basic { children_values = r }; temp_values = r'' },
        record tss { children_values = r' },
        rw (e, e', e'') refl,
        (refl, refl, refl, refl),
        ((all, len), len'', small),
        refl,
        (tss_all, len'),
        refl,
        refl,
        λ q added x before.
            children_total q (statics ds) dest.basic tss ws r r' x added
              (Summed-Sums ds dest.basic.children_values ws r sums)
              (Summed-Sums ds tss.children_values ws r' sums') before,
      )

  flush_if_any-total :
      (static : List Bool) (vs ws : List ℕ)
      → length vs ≡ length static
      → length ws ≡ length static
      → (r : List ℕ) × (flush_if_any static vs ws ≡ some r)
        × (length r ≡ length static)
        × Sums static vs ws r
  unfolding flush_if_any
  flush_if_any-total [] [] ws h k = ([], refl, h, λ i e. absurd (cc))
  flush_if_any-total (b ∷ static) [] ws h k = absurd (omega (arith, h))
  flush_if_any-total static (v ∷ vs) ws h k = length-accumulate_values static (v ∷ vs) ws h k

  pub flush_node-total :
      (node : RecordNode) (tss : Node)
      → Values ds 0 node
      → Sized (get_num_profile_values ds) tss
      → all_zero tss.all_values ≡ true
      → (node' : RecordNode) × (tss' : Node) × (flush_node ds node tss ≡ some (node', tss'))
        × Alike node node'
        × Values ds 0 node'
        × (node'.dirty ≡ false)
        × Sized (get_num_profile_values ds) tss'
        × ((q : Quantity)
            → IsAdded (statics ds) q
            → (x : ℕ) → tss.call_count ≡ 0
            → amount q node.basic ≡ add64 x (amount q tss)
            → amount q node'.basic ≡ add64 x (amount q tss'))
  unfolding flush_node
  flush_node-total node tss ((all, cld), temps, small) (tss_all, tss_cld) zero_values =
      let flags = length-map (λ md. md.static_value_flag) ds.record_metadata in
      let ws = node.temp_values in
      let (r, e, len, sums) =
        flush_if_any-total (statics ds) node.basic.all_values ws (all ∙ sym flags)
          (temps ∙ sym flags) in
      let (r', e', len', sums') =
        length-accumulate_values (statics ds) tss.all_values ws (tss_all ∙ sym flags)
          (temps ∙ sym flags) in
      (
        record node {
          basic = record node.basic {
            all_values = r;
            call_count = add64 node.temp_call_count node.basic.call_count;
          };
          dirty = false;
        },
        record tss { all_values = r'; call_count = node.temp_call_count },
        rw (zero_values, e, e') refl,
        (refl, refl, refl, refl),
        ((len ∙ flags, cld), temps, omega arith),
        refl,
        (len' ∙ flags, tss_cld),
        λ q added x zero_calls before.
            flushed_total q (statics ds) node.basic tss ws r r' x node.temp_call_count added sums
              sums' zero_calls before,
      )
