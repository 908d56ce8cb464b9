-- ===== src/CallTree/Links.antt =====
-- The shape of a call tree: each node's name and parent, and the stack of names that a node stands
-- for.
use llprof.Base.{
  ℕ, zero, suc, ◌<◌, ◌≤◌, ◌≡◌, refl, sym, ap, ◌∙◌, ◌≢◌, ◌⊎◌, inl, inr, true, false, none, some,
  List, [], ◌∷◌, ◌++◌, map, length, get_elem?, modify, leb, arith, ◌==◌, find, insert, find-insert,
  map-modify, map-append_one, length-map, get_elem?-append_some, get_elem?-append_last,
  lt_of_get_elem?, get_elem?-of_lt, get_elem?-modify_inv, get_elem?-append_inv, Bool-cases,
}
use llprof.CallTree.{NodeInfo, add_child, fresh_node}

-- The name and the parent of a node.
abbrev pub Link : Type 0
Link = ℕ × ℕ

abbrev pub link : NodeInfo → Link
link n = (n.nameid, n.parent_node_id)

abbrev pub links : List NodeInfo → List Link
links = map link

-- The names from a node up to the root, which has none. The fuel is the node's number: parents have
-- smaller ones.
unfoldable pub stack_from : ℕ → List Link → ℕ → List ℕ
stack_from zero ls id = []
stack_from (suc f) ls id = elim (leb id 1) [
  | true ↦ []
  | false ↦ elim (get_elem? ls id) [ none ↦ [] | some (k, p) ↦ k ∷ stack_from f ls p ]
]

abbrev pub stack_at : List Link → ℕ → List ℕ
stack_at ls id = stack_from id ls id

-- A node below the root comes after its parent.
abbrev pub Ordered : List Link → Type 0
Ordered ls = (i k p : ℕ) → get_elem? ls i ≡ some (k, p) → 2 ≤ i → (1 ≤ p) × (p < i)

-- More fuel than needed changes nothing, nor do nodes that are added later.
stack_from-grown :
    (f f' id : ℕ) (ls ms : List Link)
    → Ordered ls
    → ((i : ℕ) (l : Link) → get_elem? ls i ≡ some l → get_elem? ms i ≡ some l)
    → id < length ls
    → id ≤ f
    → id ≤ f'
    → stack_from f ls id ≡ stack_from f' ms id
unfolding stack_from
stack_from-grown zero zero id ls ms o g b h h' = refl
stack_from-grown zero (suc f') id ls ms o g b h h' = ground arith
stack_from-grown (suc f) zero id ls ms o g b h h' = ground arith
stack_from-grown (suc f) (suc f') id ls ms o g b h h' = elim (Bool-cases (leb id 1)) [
  | inl e ↦ ground (arith, e)
  | inr e ↦
      let (l, at) = get_elem?-of_lt ls id b in
      let below = o id l.0 l.1 at (ground arith) in
      ground (
        arith,
        e,
        at,
        g id l at,
        stack_from-grown f f' l.1 ls ms o g (omega arith) (omega arith) (omega arith),
      )
]

pub stack_at-append :
    (ls : List Link) (l : Link) (id : ℕ)
    → Ordered ls
    → id < length ls
    → stack_at (ls ++ l ∷ []) id ≡ stack_at ls id
stack_at-append ls l id o b = sym (
    stack_from-grown id id id ls (ls ++ l ∷ []) o (λ i m e. get_elem?-append_some ls (l ∷ []) i e) b
      (omega arith) (omega arith))

-- A node's stack is its name on its parent's.
pub stack_at-node :
    (ls : List Link) (id k p : ℕ)
    → Ordered ls
    → get_elem? ls id ≡ some (k, p)
    → 2 ≤ id
    → stack_at ls id ≡ k ∷ stack_at ls p
unfolding stack_from
stack_at-node ls zero k p o e h = absurd (omega arith)
stack_at-node ls (suc id) k p o e h =
    let below = o (suc id) k p e h in
    ground (
      arith,
      e,
      lt_of_get_elem? ls (suc id) e,
      stack_from-grown id p p ls ls o (λ i m at. at) (omega (arith, lt_of_get_elem? ls (suc id) e))
          (omega arith) (omega arith),
    )

pub stack_at-root : (ls : List Link) → stack_at ls 1 ≡ []
unfolding stack_from
stack_at-root ls = refl

-- The children maps agree with the links.
pub record IsTree (nodes : List NodeInfo) : Type 0 where
  pub ordered : Ordered (links nodes)
  pub children :
      (i : ℕ) (n : NodeInfo) (k c : ℕ)
      → get_elem? nodes i ≡ some n
      → find k n.children ≡ some c
      → (2 ≤ c) × (get_elem? (links nodes) c ≡ some (k, i))

-- Changes that leave names, parents and children alone keep the tree.
pub IsTree-modify :
    (nodes : List NodeInfo) (i : ℕ) (f : NodeInfo → NodeInfo)
    → ((n : NodeInfo) → link (f n) ≡ link n)
    → ((n : NodeInfo) → (f n).children ≡ n.children)
    → IsTree nodes
    → IsTree (modify nodes i f)
IsTree-modify nodes i f same kept t = record {
  ordered = rw same_links t.ordered;
  children = λ j n k c e h.
      let (m, at, was) = get_elem?-modify_inv nodes i j f e in
      rw same_links (
        t.children j m k c at (elim was [
          | inl p ↦ sym (ap (find k) (ap (λ (x : NodeInfo). x.children) p.1 ∙ kept m)) ∙ h
          | inr p ↦ sym (ap (λ (x : NodeInfo). find k x.children) p.1) ∙ h
        ]));
}
  where
    same_links : links (modify nodes i f) ≡ links nodes
    same_links = map-modify link f nodes i same

-- The nodes after `AddCallNode` below the node `p`.
abbrev pub grown : List NodeInfo → ℕ → ℕ → List NodeInfo
grown nodes p k = modify (nodes ++ fresh_node p k ∷ []) p (add_child k (length nodes))

module _ (nodes : List NodeInfo) (p k : ℕ) (parent : NodeInfo) (t : IsTree nodes) (low : 1 ≤ p)
    (at_p : get_elem? nodes p ≡ some parent) (new : find k parent.children ≡ none) where
  in_range : p < length nodes
  in_range = lt_of_get_elem? nodes p at_p

  pub links-grown : links (grown nodes p k) ≡ links nodes ++ (k, p) ∷ []
  links-grown =
      map-modify link (add_child k (length nodes)) (nodes ++ fresh_node p k ∷ []) p (λ n. refl)
      ∙ map-append_one link nodes (fresh_node p k)

  last_link : get_elem? (links nodes ++ (k, p) ∷ []) (length nodes) ≡ some (k, p)
  last_link = rw (← length-map link nodes) (get_elem?-append_last (links nodes) (k, p))

  pub get_elem?-links-grown : get_elem? (links (grown nodes p k)) (length nodes) ≡ some (k, p)
  get_elem?-links-grown = rw links-grown last_link

  grown-Ordered : Ordered (links nodes ++ (k, p) ∷ [])
  grown-Ordered i k' p' e h = elim (get_elem?-append_inv (links nodes) (k, p) i e) [
    | inl old ↦ t.ordered i k' p' old h
    | inr last ↦ ground (arith, last, length-map link nodes, in_range)
  ]

  child_of_old :
      (m n : NodeInfo) (j k' c : ℕ)
      → get_elem? nodes j ≡ some m
      → (((p ≡ j) × (n ≡ add_child k (length nodes) m)) ⊎ ((p ≢ j) × (n ≡ m)))
      → find k' n.children ≡ some c
      → (2 ≤ c) × (get_elem? (links nodes ++ (k, p) ∷ []) c ≡ some (k', j))
  child_of_old m n j k' c at (inr (ne, e)) h =
      let (two, l) = t.children j m k' c at (ground arith) in
      (two, get_elem?-append_some (links nodes) ((k, p) ∷ []) c l)
  child_of_old m n j k' c at (inl (eq, e)) h =
      let kids : find k' (insert k (length nodes) m.children) ≡ some c =
        sym (ap (λ (x : NodeInfo). find k' x.children) e) ∙ h in
      let miss : find k m.children ≡ none = cc in
      let found = find-insert k k' (length nodes) m.children miss in
      elim (Bool-cases (k == k')) [
        | inl same ↦ ground (arith, same, found, kids, last_link, in_range)
        | inr other ↦
            let (two, l) = t.children j m k' c at (ground (arith, other, found, kids)) in
            (two, get_elem?-append_some (links nodes) ((k, p) ∷ []) c l)
      ]

  no_child_of_new :
      (m n : NodeInfo) (j k' c : ℕ)
      → j ≡ length nodes
      → m ≡ fresh_node p k
      → (((p ≡ j) × (n ≡ add_child k (length nodes) m)) ⊎ ((p ≢ j) × (n ≡ m)))
      → find k' n.children ≡ some c
      → ⊥
  unfolding find
  no_child_of_new m n j k' c last new_m was h = ground (arith, in_range)

  pub IsTree-grown : IsTree (grown nodes p k)
  IsTree-grown = record {
    ordered = rw links-grown grown-Ordered;
    children = λ j n k' c e h.
        let (m, at, was) =
          get_elem?-modify_inv (nodes ++ fresh_node p k ∷ []) p j (add_child k (length nodes)) e in
        rw links-grown (elim (get_elem?-append_inv nodes (fresh_node p k) j at) [
          | inl old ↦ child_of_old m n j k' c old was h
          | inr last ↦ absurd (no_child_of_new m n j k' c last.0 last.1 was h)
        ]);
  }
