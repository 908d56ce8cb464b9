-- ===== src/Webmon/Polls/Records.antt =====
-- Webmon/Store: the messages of one poll, read and stored into `current_tree_`.
use llprof.Base.{
  ℕ, zero, suc, ◌≡◌, refl, sym, ap, ◌∙◌, inl, inr, true, false, none, some, List, [], ◌∷◌, Map,
  Bool-cases, Option-cases, ◌>>=◌, bind_inv,
}
use llprof.CallTree.{SerializedInfo}
use llprof.Webmon.MessageBuf.{MessageBuf, get_current, seek, is_eof}
use llprof.Webmon.Samples.{Offsets, read_sample, read_samples}
use llprof.Webmon.Nodes.{Ds, RecordNode, get_num_profile_values}
use llprof.Webmon.Current.{ThreadStore, store_sample}
use llprof.Webmon.Store.{store_records, store_samples}
use llprof.Webmon.Totals.{Has, AllSound}
use llprof.Webmon.Totals.Growth.{Kept-Has, Tended-refl, Tended-trans}
use llprof.Webmon.Totals.Marking.{OnTree}
use llprof.Webmon.Totals.Storing.{store_sample-Tended}
use llprof.Webmon.Polls.{IsPlain, Seen, Reached, AllFit}

module _ (ds : Ds) (o : Offsets) where
  store_end :
      (f : ℕ) (buf : MessageBuf) (ts : ThreadStore)
      → is_eof buf ≡ true
      → (store_records (suc f) ds o buf ts ≡ some ts)
        × (read_samples (suc f) o (get_num_profile_values ds) buf ≡ some [])
  unfolding store_records read_samples
  store_end f buf ts eof = (rw (eof, store_records) refl, rw (eof, read_samples) refl)

  store_fails :
      (f : ℕ) (buf : MessageBuf) (ts : ThreadStore) (s : SerializedInfo)
      → is_eof buf ≡ false
      → read_sample o (get_num_profile_values ds) (get_current buf) ≡ some s
      → store_sample ds s ts ≡ none
      → store_records (suc f) ds o buf ts ≡ none
  unfolding store_records
  store_fails f buf ts s more read failed = rw (more, read, failed, store_records) refl

  store_goes_on :
      (f : ℕ) (buf buf' : MessageBuf) (ts ts' : ThreadStore) (s : SerializedInfo)
      → is_eof buf ≡ false
      → read_sample o (get_num_profile_values ds) (get_current buf) ≡ some s
      → store_sample ds s ts ≡ some ts'
      → seek buf o.record_size ≡ some buf'
      → store_records (suc f) ds o buf ts ≡ store_records f ds o buf' ts'
  unfolding store_records
  store_goes_on f buf buf' ts ts' s more read stored next =
      rw (more, read, stored, next, store_records) refl

  read_inv :
      (f : ℕ) (buf : MessageBuf) (samples : List SerializedInfo)
      → is_eof buf ≡ false
      → read_samples (suc f) o (get_num_profile_values ds) buf ≡ some samples
      → (s : SerializedInfo) × (buf' : MessageBuf) × (rest : List SerializedInfo) × (read_sample o
            (get_num_profile_values ds)
            (get_current buf)
          ≡ some s)
        × (seek buf o.record_size ≡ some buf')
        × (read_samples f o (get_num_profile_values ds) buf' ≡ some rest)
        × (s ∷ rest ≡ samples)
  unfolding read_samples
  read_inv f buf samples more e =
      let n = get_num_profile_values ds in
      let (s, read, e1) =
        bind_inv (read_sample o n (get_current buf)) _ samples (rw (more, read_samples) at e) in
      let (buf', next, e2) = bind_inv (seek buf o.record_size) _ samples e1 in
      let (rest, later, e3) = bind_inv (read_samples f o n buf') _ samples e2 in
      (s, buf', rest, read, next, later, cc)

  -- Reading and storing in turns is reading first, then storing.
  pub store_records-samples :
      (f : ℕ) (buf : MessageBuf) (ts : ThreadStore) (samples : List SerializedInfo)
      → read_samples f o (get_num_profile_values ds) buf ≡ some samples
      → store_records f ds o buf ts ≡ store_samples ds samples ts
  unfolding read_samples store_records store_samples
  store_records-samples zero buf ts samples e = absurd (cc)
  store_records-samples (suc f) buf ts samples e = elim (Bool-cases (is_eof buf)) [
    | inl eof ↦
        let (done, read) = store_end f buf ts eof in let nil : [] ≡ samples = cc in rw (← nil) done
    | inr more ↦
        let (s, buf', rest, read, next, later, same) = read_inv f buf samples more e in
        rw (← same) (elim (Option-cases (store_sample ds s ts)) [
          | inl failed ↦
              store_fails f buf ts s more read failed
              ∙ sym (ap (λ o. o >>= store_samples ds rest) failed)
          | inr (ts', stored) ↦
              store_goes_on f buf buf' ts ts' s more read stored next
              ∙ store_records-samples f buf' ts' rest later
              ∙ sym (ap (λ o. o >>= store_samples ds rest) stored)
        ])
  ]

-- What is reached stays reached.
Reached-Has :
    (tree tree' : Map RecordNode) (seen : List ℕ)
    → ((j : ℕ) → Has j tree → Has j tree')
    → ((j : ℕ) → Seen j seen → Has j tree')
    → (id : ℕ) → Reached tree seen id
    → Has id tree'
Reached-Has tree tree' seen keep all id (inl has) = keep id has
Reached-Has tree tree' seen keep all id (inr was) = all id was

module _ (ds : Ds) (top : ℕ) (plain : IsPlain ds) where
  samples_step :
      (s : SerializedInfo) (samples : List SerializedInfo) (ts ts' : ThreadStore)
      → store_sample ds s ts ≡ some ts'
      → store_samples ds (s ∷ samples) ts ≡ store_samples ds samples ts'
  unfolding store_samples
  samples_step s samples ts ts' e = rw e refl

  pub store_samples-Tended :
      (samples : List SerializedInfo) (tree : Map RecordNode) (seen : List ℕ) (ts : ThreadStore)
      → AllSound ds top ts.current_tree
      → ((j : ℕ) → Has j tree → Has j ts.current_tree)
      → ((j : ℕ) → Seen j seen → Has j ts.current_tree)
      → AllFit ds top tree seen samples
      → OnTree ds top plain.0 plain.1 ts (store_samples ds samples ts)
  unfolding store_samples
  store_samples-Tended [] tree seen ts sound keep all fit =
      (ts.current_tree, refl, Tended-refl ds top ts.current_tree sound)
  store_samples-Tended (s ∷ samples) tree seen ts sound keep all (width, place, fit) =
      let here = Reached-Has tree ts.current_tree seen keep all in
      let (tree1, stored, one, has) = store_sample-Tended ds top plain.0 plain.1 s ts sound (
        width,
        elim place [
          | inl old ↦ inl (here s.call_node_id old)
          | inr (below, above, parent) ↦ inr (below, above, here s.parent_node_id parent)
        ],
      ) in
      let still = Kept-Has ts.current_tree tree1 one.1 in
      let (tree2, done, two) =
        store_samples-Tended samples tree (s.call_node_id ∷ seen)
          (record ts { current_tree = tree1 }) one.0 (λ j h. still j (keep j h))
          (λ j was. elim was [ inl same ↦ rw same has | inr older ↦ still j (all j older) ]) fit in
      (
        tree2,
        samples_step s samples ts (record ts { current_tree = tree1 }) stored ∙ done,
        Tended-trans ds top ts.current_tree tree1 tree2 one two,
      )
