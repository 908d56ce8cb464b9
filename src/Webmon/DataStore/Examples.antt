-- ===== src/Webmon/DataStore/Examples.antt =====
-- A store that knows one name and asks a program for two others.
use llprof.Base.{ℕ, ◌≡◌, refl, some, List, [], ◌∷◌, Map, find, Text, codes, if◌then◌else◌, arith}
use llprof.NameTable
use llprof.Protocol.{msg_query_names, msg_names}
use llprof.Network.Transfer.{frame, AllPieces, joined}
use llprof.Server.Queries.{name_lines, msg_handler-names}
use llprof.Server.Examples.{two_threads}
use llprof.Webmon.DataStore.{DataStore, names_query, ask_for_names}
use llprof.Webmon.DataStore.Asking.{has, ask_for_names-msg_handler}

abbrev asking : DataStore
asking = record {
  id = 1;
  current_time_number = 1;
  member_offset_info = [];
  record_metadata = [];
  name_table = (3, codes "known") ∷ (7, codes "<Asking>") ∷ (9, codes "<Asking>") ∷ [];
  threads = [];
}

abbrev names_frame : Text
names_frame = frame msg_names (name_lines two_threads.names (9 ∷ 7 ∷ []))

ask_for_names-msg_handler_example :
    (table : Map Text) × (pieces' : List Text) × (ask_for_names
        (9 ∷ 7 ∷ [])
        asking
        (names_frame ∷ [])
      ≡ some (
        record asking { name_table = table },
        (msg_query_names, names_query (9 ∷ 7 ∷ [])) ∷ [],
        pieces',
      ))
    × ((j : ℕ)
        → find j table ≡ (
            if has j (9 ∷ 7 ∷ [])
            then some (NameTable.named j two_threads.names)
            else find j asking.name_table))
    × AllPieces pieces'
    × (joined pieces' ≡ [])
unfolding find
ask_for_names-msg_handler_example =
    ask_for_names-msg_handler (λ k i. 5) two_threads two_threads
      ((msg_names, name_lines two_threads.names (9 ∷ 7 ∷ [])) ∷ []) 9 (7 ∷ []) asking []
      (names_frame ∷ []) (omega arith, (omega arith, tt)) (omega arith)
      ((refl, (refl, (refl, (refl, tt)))), ((refl, (refl, (refl, (refl, tt)))), tt)) (omega arith)
      (msg_handler-names (λ k i. 5) two_threads (9 ∷ 7 ∷ []) (omega arith, (omega arith, tt))
        (omega arith))
      ((λ e. cc), tt) refl
