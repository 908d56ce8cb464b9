-- ===== src/Webmon/Global/Fresh.antt =====
-- Webmon/Global: the numbers of the stores.
use llprof.Base.{
  ltb, ◌^◌, ℕ, zero, suc, ◌+◌, ◌≤◌, ◌≡◌, refl, sym, ap, ◌∙◌, Option, some, List, [], ◌∷◌, Map, find,
  put, Text, ◌==◌, bind_inv, Every, Every-bind, arith, Bool-cases, inl, inr, subst, Option-cases,
}
use mathlib.Core.List.{tail}
use llprof.Webmon.DataStore.{Globals, DataStore}
use llprof.Webmon.Integrate.{integrate}
use llprof.Webmon.Connections.{Connection, new_data_store, receive_loop}
use llprof.Webmon.Global.{
  Monitor, GlobalDataStore, new_store, with_stores, integrate_known, global_integrate, receive_all,
  global_ds, stores_of, find_columns, set_columns, integrated, integrate_global, receive_round,
}

-- The keys, in their order.
abbrev pub ids {ℓ} : {V : Type ℓ} → Map V → List ℕ
ids [] = []
ids ((id, v) ∷ m) = id ∷ ids m

-- `n` numbers from `a` on.
abbrev pub numbers : ℕ → ℕ → List ℕ
numbers a zero = []
numbers a (suc n) = a ∷ numbers (suc a) n

module _ {ℓ} {V : Type ℓ} where
  found-ge : (k a n : ℕ) (w : V) (m : Map V) → ids m ≡ numbers a n → find k m ≡ some w → a ≤ k
  unfolding find
  found-ge k a n w [] e at = absurd (cc)
  found-ge k a zero w ((j, v) ∷ m) e at = absurd (cc)
  found-ge k a (suc n) w ((j, v) ∷ m) e at =
      let rest : ids m ≡ numbers (suc a) n = ap tail e in
      let first : j ≡ a = cc in ground (arith, first, rest, found-ge k (suc a) n w m rest)

  -- A key that is there keeps the keys.
  pub ids-put :
      (k a n : ℕ) (v w : V) (m : Map V)
      → ids m ≡ numbers a n
      → find k m ≡ some w
      → ids (put k v m) ≡ numbers a n
  unfolding find put
  ids-put k a n v w [] e at = absurd (cc)
  ids-put k a zero v w ((j, u) ∷ m) e at = absurd (cc)
  ids-put k a (suc n) v w ((j, u) ∷ m) e at =
      let rest : ids m ≡ numbers (suc a) n = ap tail e in
      let first : j ≡ a = cc in
      ground (arith, first, found-ge k (suc a) n w m rest, ids-put k (suc a) n v w m rest)

  -- The next number comes last.
  pub ids-put_next :
      (k a n : ℕ) (v : V) (m : Map V)
      → ids m ≡ numbers a n
      → k ≡ a + n
      → ids (put k v m) ≡ numbers a (suc n)
  unfolding put
  ids-put_next k a zero v [] e next = ap (λ (k : ℕ). k ∷ []) (omega (arith, next))
  ids-put_next k a (suc n) v [] e next = absurd (cc)
  ids-put_next k a zero v ((j, u) ∷ m) e next = absurd (cc)
  ids-put_next k a (suc n) v ((j, u) ∷ m) e next =
      let rest : ids m ≡ numbers (suc a) n = ap tail e in
      let first : j ≡ a = cc in ground (arith, first, next, ids-put_next k (suc a) n v m rest)

with_stores-ids : (m : Map Connection) (stores : Map DataStore) → ids (with_stores m stores) ≡ ids m
with_stores-ids [] [] = refl
with_stores-ids [] ((id, store) ∷ stores) = refl
with_stores-ids ((id, c) ∷ m) [] = refl
with_stores-ids ((id, c) ∷ m) ((_, store) ∷ stores) = ap (λ l. id ∷ l) (with_stores-ids m stores)

receive_all-ids :
    (f : ℕ) (g : Globals) (socket_connect_to : Text → Text → Option (List Text))
    (m m' : Map Connection)
    → receive_all f g socket_connect_to m ≡ some m'
    → ids m' ≡ ids m
unfolding receive_all
receive_all-ids f g socket_connect_to [] m' e = cc
receive_all-ids f g socket_connect_to ((id, c) ∷ m) m' e =
    let (r, one, e1) = bind_inv (receive_loop f g socket_connect_to c) _ m' e in
    let (rest, more, e2) = bind_inv (receive_all f g socket_connect_to m) _ m' e1 in
    let whole : m' ≡ (id, r.1) ∷ rest = cc in
    ap ids whole ∙ ap (λ l. id ∷ l) (receive_all-ids f g socket_connect_to m rest more)

integrate_known-ids :
    (g : Globals) (stores : Map Connection) (global : GlobalDataStore)
    → Every (λ r. ids r.0 ≡ ids stores) (integrate_known g stores global)
unfolding integrate_known
integrate_known-ids g stores global = elim (Bool-cases (global.num_records == 0)) [
  | inl e ↦ rw (e, Every) refl
  | inr e ↦
      rw (e, Every)
        (Every-bind (λ r. ids r.0 ≡ ids stores) global.thread _
          λ thread at.
            Every-bind (λ r. ids r.0 ≡ ids stores)
              (integrate
                (global_ds g
                  (record global { current_time_number = suc global.current_time_number })
                  thread.names)
                (stores_of stores) thread)
              _ λ r done. with_stores-ids stores r.0)
]

global_integrate-ids :
    (g : Globals) (stores : Map Connection) (global : GlobalDataStore)
    → Every (λ r. ids r.0 ≡ ids stores) (global_integrate g stores global)
unfolding global_integrate
global_integrate-ids g stores global = elim (Bool-cases (global.num_records == 0)) [
  | inl e ↦
      rw (e, Every)
        (Every-bind (λ r. ids r.0 ≡ ids stores) (find_columns stores) _
          λ columns at. integrate_known-ids g stores (set_columns g global columns))
  | inr e ↦ rw (e, Every) (integrate_known-ids g stores global)
]

-- The keys of the stores are the numbers from 1 to `n`, the last id that was given, in their order.
abbrev pub IsNumbered : ℕ → Monitor → Type 0
IsNumbered n m = (ids m.stores ≡ numbers 1 n) × (m.id_seq ≡ n)

pub new_store-IsNumbered :
    (set_up : Connection → Connection) (n : ℕ) (m : Monitor)
    → IsNumbered n m
    → Every (IsNumbered (suc n)) (new_store set_up m)
unfolding new_store
new_store-IsNumbered set_up n m (keys, last) = elim (Bool-cases (ltb (suc m.id_seq) (2 ^ 31))) [
  | inl e ↦
      rw (e, Every)
        (
          ids-put_next (suc m.id_seq) 1 n (set_up (new_data_store (suc m.id_seq))) m.stores keys
              (omega (arith, last)),
          ap suc last,
        )
  | inr e ↦ rw (e, Every) tt
]

integrated-IsNumbered :
    (g : Globals) (n : ℕ) (m : Monitor) (global : GlobalDataStore)
    → IsNumbered n m
    → Every (IsNumbered n) (integrated g m (some global))
unfolding integrated
integrated-IsNumbered g n m global numbered =
    let kept = global_integrate-ids g m.stores global in
    Every-bind (IsNumbered n) (global_integrate g m.stores global) _
      λ r done. (subst (Every (λ r. ids r.0 ≡ ids m.stores)) done kept ∙ numbered.0, numbered.1)

integrate_global-IsNumbered :
    (g : Globals) (n : ℕ) (m : Monitor)
    → IsNumbered n m
    → Every (IsNumbered n) (integrate_global g m)
unfolding integrate_global
integrate_global-IsNumbered g n m numbered = elim (Option-cases m.global) [
  | inl e ↦ subst (λ o. Every (IsNumbered n) (integrated g m o)) (sym e) numbered
  | inr (global, e) ↦
      subst (λ o. Every (IsNumbered n) (integrated g m o)) (sym e)
        (integrated-IsNumbered g n m global numbered)
]

pub receive_round-IsNumbered :
    (f : ℕ) (g : Globals) (socket_connect_to : Text → Text → Option (List Text)) (n : ℕ)
    (m : Monitor)
    → IsNumbered n m
    → Every (IsNumbered n) (receive_round f g socket_connect_to m)
unfolding receive_round
receive_round-IsNumbered f g socket_connect_to n m numbered =
    Every-bind (IsNumbered n) (receive_all f g socket_connect_to m.stores) _ λ stores done.
      integrate_global-IsNumbered g n (record m { stores = stores })
        (receive_all-ids f g socket_connect_to m.stores stores done ∙ numbered.0, numbered.1)
