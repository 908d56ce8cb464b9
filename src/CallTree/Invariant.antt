-- ===== src/CallTree/Invariant.antt =====
-- What holds of a thread's call tree between two handlers: its nodes form a tree, and a node of the
-- current generation points to its own record.
use llprof.Base.{
  ℕ, ◌+◌, ◌≤◌, ◌≡◌, inl, inr, some, List, [], ◌∷◌, ◌++◌, length, get_elem?, modify, arith,
  get_elem?-append_some, get_elem?-append_last, get_elem?-modify_inv, get_elem?-modify-some,
  get_elem?-append_inv, length-replicate,
}
use llprof.Registry.{Registry}
use llprof.CallTree.{NodeInfo, SerializedInfo, fresh_node, fresh_record, point_to}
use llprof.CallTree.Links.{link}

-- A record carries its node's number, name and parent.
abbrev pub Describes : ℕ → NodeInfo → SerializedInfo → Type 0
Describes i n s =
    (s.call_node_id ≡ i) × (s.nameid ≡ n.nameid) × (s.parent_node_id ≡ n.parent_node_id)

pub record IsCached (width generation : ℕ) (nodes : List NodeInfo) (records : List SerializedInfo)
    : Type 0 where
  pub positive : 1 ≤ generation
  pub older : (i : ℕ) (n : NodeInfo) → get_elem? nodes i ≡ some n → n.generation_number ≤ generation
  pub cached :
      (i : ℕ) (n : NodeInfo)
      → get_elem? nodes i ≡ some n
      → n.generation_number ≡ generation
      → (s : SerializedInfo) × (get_elem? records n.serialized_node_index ≡ some s)
        × Describes i n s
  pub widths :
      (j : ℕ) (s : SerializedInfo) → get_elem? records j ≡ some s → length s.profile_value ≡ width

-- What a cached record depends on in its node.
abbrev pub SameKey : NodeInfo → NodeInfo → Type 0
SameKey n m =
    (n.generation_number ≡ m.generation_number)
    × (n.serialized_node_index ≡ m.serialized_node_index)
    × (link n ≡ link m)

module _ (width generation : ℕ) (nodes : List NodeInfo) (records : List SerializedInfo)
    (c : IsCached width generation nodes records) where
  pub IsCached-modify :
      (i : ℕ) (f : NodeInfo → NodeInfo)
      → ((n : NodeInfo) → SameKey (f n) n)
      → IsCached width generation (modify nodes i f) records
  IsCached-modify i f same = record {
    positive = c.positive;
    older = λ j n e.
        let (m, at, was) = get_elem?-modify_inv nodes i j f e in
        ground (arith, c.older j m at, same m, was);
    cached = λ j n e g.
        let (m, at, was) = get_elem?-modify_inv nodes i j f e in
        let (s, there, d) = c.cached j m at (ground (arith, same m, was)) in
        (s, ground (arith, there, same m, was), ground (arith, d, same m, was));
    widths = c.widths;
  }

  pub IsCached-append :
      (parent name : ℕ) → IsCached width generation (nodes ++ fresh_node parent name ∷ []) records
  IsCached-append parent name = record {
    positive = c.positive;
    older = λ j n e. elim (get_elem?-append_inv nodes (fresh_node parent name) j e) [
      | inl old ↦ c.older j n old
      | inr last ↦ ground (arith, last)
    ];
    cached = λ j n e g. elim (get_elem?-append_inv nodes (fresh_node parent name) j e) [
      | inl old ↦ c.cached j n old g
      | inr last ↦ absurd (ground (arith, last, c.positive))
    ];
    widths = c.widths;
  }

  -- The counters of a record change.
  pub IsCached-count :
      (k : ℕ) (f : SerializedInfo → SerializedInfo)
      → ((s : SerializedInfo)
          → get_elem? records k ≡ some s
          → (length (f s).profile_value ≡ length s.profile_value)
            × ((f s).call_node_id ≡ s.call_node_id)
            × ((f s).nameid ≡ s.nameid)
            × ((f s).parent_node_id ≡ s.parent_node_id))
      → IsCached width generation nodes (modify records k f)
  IsCached-count k f same = record {
    positive = c.positive;
    older = c.older;
    cached = λ j n e g.
        let (s, there, d) = c.cached j n e g in
        let (r, at, is) = get_elem?-modify-some records k n.serialized_node_index f there in
        (
          r,
          at,
          elim is [
            | inl p ↦ ground (arith, d, p, same s (rw p.0 there))
            | inr p ↦ ground (arith, d, p)
          ],
        );
    widths = λ j s e.
        let (r, at, was) = get_elem?-modify_inv records k j f e in
        elim was [
          | inl p ↦ ground (arith, c.widths j r at, p, same r (rw p.0 at))
          | inr p ↦ ground (arith, c.widths j r at, p)
        ];
  }

  -- A new generation starts with no records.
  pub IsCached-swap : IsCached width (generation + 1) nodes []
  IsCached-swap = record {
    positive = omega arith;
    older = λ i n e. omega (arith, c.older i n e);
    cached = λ i n e g. absurd (omega (arith, c.older i n e));
    widths = λ j s e. absurd (cc);
  }

  -- `AddActualRecord`
  pub IsCached-record :
      (g : Registry) (i : ℕ) (n : NodeInfo)
      → width ≡ length g.active
      → get_elem? nodes i ≡ some n
      → IsCached width generation
          (modify nodes i (point_to (length records) generation))
          (records ++ fresh_record g i n ∷ [])
  IsCached-record g i n w at_i = record {
    positive = c.positive;
    older = λ j m e.
        let (o, at, was) = get_elem?-modify_inv nodes i j _ e in
        ground (arith, c.older j o at, was);
    cached = λ j m e gen.
        let (o, at, was) = get_elem?-modify_inv nodes i j _ e in
        elim was [
          | inl p ↦ (
            fresh_record g i n,
            ground (arith, p, get_elem?-append_last records (fresh_record g i n)),
            ground (arith, p, at, at_i),
          )
          | inr p ↦
              let (s, there, d) = c.cached j o at (ground (arith, p)) in
              (
                s,
                ground (
                  arith,
                  p,
                  get_elem?-append_some records (fresh_record g i n ∷ []) o.serialized_node_index
                      there,
                ),
                ground (arith, p, d),
              )
        ];
    widths = λ j s e. elim (get_elem?-append_inv records (fresh_record g i n) j e) [
      | inl old ↦ c.widths j s old
      | inr last ↦ ground (arith, last, length-replicate {A = ℕ} (length g.active) 0)
    ];
  }
