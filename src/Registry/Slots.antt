-- ===== src/Registry/Slots.antt =====
-- The counter loops of call_tree.cpp, `llprof_rtype_start_node` and `llprof_rtype_end_node`, over the
-- slots of the active record types. What the counter read at loop index `i` returns is `read i`;
-- `none` is an access out of bounds.
use llprof.Base.{
  ℕ, zero, suc, ◌+◌, ◌≡◌, Bool, true, false, Option, none, some, List, [], ◌∷◌, length, get_elem?,
  modify, ltb, add64, sub64, ◌>>=◌, if◌then◌else◌, arith,
}
use llprof.Registry.{PvType, Registry}

-- `g_records[g_active_records[i]].counter_func != NULL`
unfoldable pub counter_at : Registry → ℕ → Option Bool
counter_at g i = do a ← get_elem? g.active i; r ← get_elem? g.records a; some r.is_counter

-- `value[i] = v`
unfoldable pub store : List ℕ → ℕ → ℕ → Option (List ℕ)
store value i v = elim (get_elem? value i) [ none ↦ none | some _ ↦ some (modify value i (λ _. v)) ]

-- (*g_records[g_active_records[i]].counter_func)(): a call through NULL is `none` too.
unfoldable pub call_counter : Registry → (ℕ → ℕ) → ℕ → Option ℕ
unfolding counter_at
call_counter g read i = do is_counter ← counter_at g i; if is_counter then some (read i) else none

-- Each round of the loop takes two or three steps of `i`, so the number of slots is fuel enough.
unfoldable pub start_loop : ℕ → Registry → (ℕ → ℕ) → ℕ → List ℕ → Option (List ℕ)
unfolding counter_at call_counter store
start_loop zero g read i value = some value
start_loop (suc f) g read i value = elim (ltb i (length g.active)) [
  | false ↦ some value
  | true ↦ do
    is_counter ← counter_at g i
    elim is_counter [
      | true ↦ do
        v ← call_counter g read (i + 1)
        value' ← store value (i + 1) v
        start_loop f g read (i + 3) value'
      | false ↦ start_loop f g read (i + 2) value
    ]
]

unfoldable pub start_node : Registry → (ℕ → ℕ) → List ℕ → Option (List ℕ)
unfolding start_loop
start_node g read value = start_loop (length g.active) g read 0 value

-- value[0] += counter() - start_value[i + 1]
unfoldable pub end_loop : ℕ → Registry → (ℕ → ℕ) → List ℕ → ℕ → List ℕ → Option (List ℕ)
unfolding counter_at call_counter store
end_loop zero g read start i value = some value
end_loop (suc f) g read start i value = elim (ltb i (length g.active)) [
  | false ↦ some value
  | true ↦ do
    is_counter ← counter_at g i
    elim is_counter [
      | true ↦ do
        v ← call_counter g read i
        s ← get_elem? start (i + 1)
        t ← get_elem? value 0
        value' ← store value 0 (add64 t (sub64 v s))
        end_loop f g read start (i + 3) value'
      | false ↦ end_loop f g read start (i + 2) value
    ]
]

unfoldable pub end_node : Registry → (ℕ → ℕ) → List ℕ → List ℕ → Option (List ℕ)
unfolding end_loop
end_node g read start value = end_loop (length g.active) g read start 0 value

-- The configurations of the shipped bindings: no active record, or one counter.
pub data Layout (g : Registry) : Type 0 where
  nothing : g.active ≡ [] → Layout g
  one_counter :
      (r : ℕ) (p : PvType)
      → g.active ≡ r ∷ r ∷ []
      → get_elem? g.records r ≡ some p
      → p.is_counter ≡ true
      → Layout g

pub start_node_counter :
    (g : Registry) (r : ℕ) (p : PvType) (read : ℕ → ℕ) (x y : ℕ)
    → g.active ≡ r ∷ r ∷ []
    → get_elem? g.records r ≡ some p
    → p.is_counter ≡ true
    → start_node g read (x ∷ y ∷ []) ≡ some (x ∷ read 1 ∷ [])
unfolding start_node
start_node_counter g r p read x y a e c = ground arith

pub end_node_counter :
    (g : Registry) (r : ℕ) (p : PvType) (read : ℕ → ℕ) (b s x y : ℕ)
    → g.active ≡ r ∷ r ∷ []
    → get_elem? g.records r ≡ some p
    → p.is_counter ≡ true
    → end_node g read (b ∷ s ∷ []) (x ∷ y ∷ []) ≡ some (add64 x (sub64 (read 0) s) ∷ y ∷ [])
unfolding end_node
end_node_counter g r p read b s x y a e c = ground arith

-- With two counters active the loop misses the second one's slot and goes on to read and write
-- beyond the end: whatever the values and the readings, it leaves the bounds.
pub start_node_two_counters :
    (g : Registry) (r q : ℕ) (p o : PvType) (read : ℕ → ℕ) (value : List ℕ)
    → g.active ≡ r ∷ r ∷ q ∷ q ∷ []
    → get_elem? g.records r ≡ some p
    → p.is_counter ≡ true
    → get_elem? g.records q ≡ some o
    → o.is_counter ≡ true
    → start_node g read value ≡ none
unfolding start_node
start_node_two_counters g r q p o read value a e c e' c' = ground arith

-- In such a configuration the loops stay in bounds and keep the number of values.
pub start_node-total :
    (g : Registry) (read : ℕ → ℕ) (value : List ℕ)
    → Layout g
    → length value ≡ length g.active
    → (v : List ℕ) × (start_node g read value ≡ some v) × (length v ≡ length g.active)
unfolding start_node
start_node-total g read value (nothing a) w = (value, ground arith, w)
start_node-total g read [] (one_counter r p a e c) w = absurd (ground arith)
start_node-total g read (x ∷ []) (one_counter r p a e c) w = absurd (ground arith)
start_node-total g read (x ∷ y ∷ []) (one_counter r p a e c) w =
    (x ∷ read 1 ∷ [], ground arith, ground arith)
start_node-total g read (x ∷ y ∷ z ∷ vs) (one_counter r p a e c) w = absurd (ground arith)

pub end_node-total :
    (g : Registry) (read : ℕ → ℕ) (start value : List ℕ)
    → Layout g
    → length start ≡ length g.active
    → length value ≡ length g.active
    → (v : List ℕ) × (end_node g read start value ≡ some v) × (length v ≡ length g.active)
unfolding end_node
end_node-total g read start value (nothing a) h w = (value, ground arith, w)
end_node-total g read (b ∷ s ∷ []) (x ∷ y ∷ []) (one_counter r p a e c) h w =
    (add64 x (sub64 (read 0) s) ∷ y ∷ [], ground arith, ground arith)
end_node-total g read start value (one_counter r p a e c) h w = absurd (ground arith)
