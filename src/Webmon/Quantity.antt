-- ===== src/Webmon/Quantity.antt =====
-- What a node of webmon/data_store.cpp adds up: its calls, and its values of a column that is not
-- static.
use llprof.Base.{ℕ, ◌%◌, ◌^◌, ◌≡◌, ap, Bool, false, some, List, get_elem?, get_or}
use llprof.Webmon.Slices.{Node}

pub data Quantity : Type 0 where
  of_calls : Quantity
  of_all : ℕ → Quantity
  of_children : ℕ → Quantity

abbrev pub amount : Quantity → Node → ℕ
amount (of_calls) node = node.call_count
amount (of_all i) node = get_or node.all_values i 0 % 2 ^ 64
amount (of_children i) node = get_or node.children_values i 0 % 2 ^ 64

abbrev pub IsAdded : List Bool → Quantity → Type 0
IsAdded static (of_calls) = Unit {0}
IsAdded static (of_all i) = get_elem? static i ≡ some false
IsAdded static (of_children i) = get_elem? static i ≡ some false

-- Two nodes with the same calls and values.
abbrev pub SameValues : Node → Node → Type 0
SameValues a b =
    (a.call_count ≡ b.call_count)
    × (a.all_values ≡ b.all_values)
    × (a.children_values ≡ b.children_values)

pub amount_same : (q : Quantity) (a b : Node) → SameValues a b → amount q a ≡ amount q b
amount_same (of_calls) a b same = same.0
amount_same (of_all i) a b same = ap (λ vs. get_or vs i 0 % 2 ^ 64) same.1
amount_same (of_children i) a b same = ap (λ vs. get_or vs i 0 % 2 ^ 64) same.2
