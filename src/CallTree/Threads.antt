-- ===== src/CallTree/Threads.antt =====
-- llprofcommon/call_tree.cpp, `get_current_thread`: the threads of the program, in the order in which
-- they first reach a handler.
use llprof.Base.{
  ℕ, ◌+◌, ◌^◌, ◌<◌, ◌≤◌, ◌≡◌, ◌↔◌, refl, sym, ap, ◌∙◌, inl, inr, Option, none, some, List, [], ◌∷◌,
  ◌++◌, Map, Text, find, put, find-put, length, length-append, get_elem?, get_elem?-append_inv,
  get_elem?-of_lt, add64, Option-cases, arith,
}
use llprof.Registry.{Registry}
use llprof.CallTree.{ThreadInfo, new_thread}

-- The list from `gFirstThread` on, `gThreadMaxID`, the position that each thread of the operating
-- system has under `gCurrentThreadKey`, and the table of names.
pub record Threads : Type 0 where
  pub threads : List ThreadInfo
  pub max_id : ℕ
  pub specific : Map ℕ
  pub names : Map Text

abbrev pub no_threads : Map Text → Threads
no_threads names = record { threads = []; max_id = 0; specific = []; names = names }

-- A thread is appended at its first call; `root_name` is what the name function gives for the root.
unfoldable pub get_current_thread : Registry → Option Text → ℕ → Threads → ℕ × Threads
get_current_thread g root_name key s = elim (find key s.specific) [
  | some position ↦ (position, s)
  | none ↦
      let t = new_thread g s.max_id root_name s.names in
      (
        length s.threads,
        record {
          threads = s.threads ++ t.thread ∷ [];
          max_id = add64 s.max_id 1;
          specific = put key (length s.threads) s.specific;
          names = t.names;
        },
      )
]

-- A call from each of some threads of the operating system, one after the other.
unfoldable pub get_all : Registry → Option Text → List ℕ → Threads → Threads
get_all g root_name [] s = s
get_all g root_name (key ∷ keys) s =
    get_all g root_name keys (get_current_thread g root_name key s).1

abbrev Numbered : List ThreadInfo → Type 0
Numbered threads = (i : ℕ) (ti : ThreadInfo) → get_elem? threads i ≡ some ti → ti.thread_id ≡ i

record IsSound (s : Threads) : Type 0 where
  count : s.max_id ≡ length s.threads
  numbered : Numbered s.threads
  range : (k i : ℕ) → find k s.specific ≡ some i → i < length s.threads
  distinct : (k j i : ℕ) → find k s.specific ≡ some i → find j s.specific ≡ some i → k ≡ j

thread_id-new_thread :
    (g : Registry) (id : ℕ) (root_name : Option Text) (names : Map Text)
    → (new_thread g id root_name names).thread.thread_id ≡ id
unfolding new_thread
thread_id-new_thread g id root_name names = refl

-- What a call leaves.
record Called (key : ℕ) (s : Threads) (r : ℕ × Threads) : Type 0 where
  sound : IsSound r.1
  here : find key r.1.specific ≡ some r.0
  keeps : (k i : ℕ) → find k s.specific ≡ some i → find k r.1.specific ≡ some i
  steps : length r.1.threads ≤ length s.threads + 1

module _ (g : Registry) (root_name : Option Text) where
  get_current_thread-Called :
      (key : ℕ) (s : Threads)
      → IsSound s
      → length s.threads + 1 < 2 ^ 64
      → Called key s (get_current_thread g root_name key s)
  unfolding get_current_thread
  get_current_thread-Called key s v room = elim (Option-cases (find key s.specific)) [
    | inr (i, e) ↦
        rw (e, get_current_thread)
          (record { sound = v; here = e; keeps = λ k j f. f; steps = omega arith })
    | inl e ↦
        let t = new_thread g s.max_id root_name s.names in
        let n = length s.threads in
        let grown = length-append s.threads (t.thread ∷ []) in
        rw (e, get_current_thread)
          (record {
            sound = record {
              count = omega (arith, grown, v.count, room);
              numbered = λ i ti at. elim (get_elem?-append_inv s.threads t.thread i at) [
                | inl old ↦ v.numbered i ti old
                | inr last ↦
                    ap (λ (x : ThreadInfo). x.thread_id) last.1
                    ∙ thread_id-new_thread g s.max_id root_name s.names
                    ∙ v.count
                    ∙ sym last.0
              ];
              range = λ k i f. ground (arith, find-put key k n s.specific, v.range k i, grown);
              distinct = λ k j i f f'. ground (
                arith,
                find-put key k n s.specific,
                find-put key j n s.specific,
                v.range k i,
                v.range j i,
                v.distinct k j i,
              );
            };
            here = ground (arith, find-put key key n s.specific);
            keeps = λ k i f. ground (arith, e, f, find-put key k n s.specific);
            steps = omega (arith, grown);
          })
  ]

  get_all-IsSound :
      (keys : List ℕ) (s : Threads)
      → IsSound s
      → length s.threads + length keys < 2 ^ 64
      → IsSound (get_all g root_name keys s)
        × (length (get_all g root_name keys s).threads ≤ length s.threads + length keys)
  unfolding get_all
  get_all-IsSound [] s v room = (v, omega arith)
  get_all-IsSound (key ∷ keys) s v room =
      let c = get_current_thread-Called key s v (omega arith) in
      let (sound, steps) =
        get_all-IsSound keys (get_current_thread g root_name key s).1 c.sound
          (omega (arith, c.steps)) in
      (sound, omega (arith, steps, c.steps))

no_threads-IsSound : (names : Map Text) → IsSound (no_threads names)
unfolding find
no_threads-IsSound names = record {
  count = refl;
  numbered = λ i ti e. absurd (cc);
  range = λ k i e. absurd (cc);
  distinct = λ k j i e f. absurd (cc);
}

-- After any sequence of fewer than 2^64 - 3 calls from threads of the operating system, two more calls give the same `ThreadInfo` exactly if they come from the same thread, and the one
-- that the second gives is in the list, with its position in the list for its id.
pub get_current_thread-injective :
    (g : Registry) (root_name : Option Text) (names : Map Text) (keys : List ℕ) (key other : ℕ)
    → length keys + 3 < 2 ^ 64
    → let (a, s) =
        get_current_thread g root_name key (get_all g root_name keys (no_threads names)) in
      let (b, s') = get_current_thread g root_name other s in
      ((a ≡ b) ↔ (key ≡ other))
      × ((ti : ThreadInfo) × (get_elem? s'.threads b ≡ some ti) × (ti.thread_id ≡ b))
get_current_thread-injective g root_name names keys key other room =
    let before = get_all g root_name keys (no_threads names) in
    let (sound, steps) =
      get_all-IsSound g root_name keys (no_threads names) (no_threads-IsSound names)
        (omega arith) in
    let one = get_current_thread-Called g root_name key before sound (omega (arith, steps)) in
    let a = (get_current_thread g root_name key before).0 in
    let s = (get_current_thread g root_name key before).1 in
    let two =
      get_current_thread-Called g root_name other s one.sound (omega (arith, steps, one.steps)) in
    let b = (get_current_thread g root_name other s).0 in
    let s' = (get_current_thread g root_name other s).1 in
    let first = two.keeps key a one.here in
    let (ti, at) = get_elem?-of_lt s'.threads b (two.sound.range other b two.here) in
    (
      (
        λ e. two.sound.distinct key other b (first ∙ ap some e) two.here,
        λ e. same_position s' key other a b e first two.here,
      ),
      (ti, at, two.sound.numbered b ti at),
    )
  where
    same_position :
        (s : Threads) (k j a b : ℕ)
        → k ≡ j
        → find k s.specific ≡ some a
        → find j s.specific ≡ some b
        → a ≡ b
    same_position s k j a b e p q = ground (arith, e, p, q)
