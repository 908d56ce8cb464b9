-- ===== src/Webmon/DataStore/Asking.antt =====
-- Webmon/DataStore and llprofcommon/server.cpp: the request for names and its answer.
use llprof.Base.{
  ℕ, ◌≤◌, ◌≡◌, refl, ap, ◌∙◌, inl, inr, Bool, false, ◌||◌, some, List, [], ◌∷◌, ◌++◌, Map, find,
  put, find-put, Text, length, le→leb, if◌then◌else◌, ◌==◌, Bool-cases, arith,
}
use mathlib.Core.List.{append-nil}
use llprof.NameTable
use llprof.Protocol.{msg_query_names, msg_names}
use llprof.Network.Transfer.{frame, AllPieces, joined}
use llprof.Server.{Process, Message}
use llprof.Server.Messages.{name_buf_size, names_message, names, msg_handler}
use llprof.Server.Dispatch.{frames}
use llprof.Server.Queries.{Ids, name_lines, reply, msg_handler-names}
use llprof.Webmon.MessageBuf.{MessageBuf, as_string}
use llprof.Webmon.Receive.{recv_message, message_of, recv_message-frame}
use llprof.Webmon.DataStore.{
  DataStore, get_line, set_names, names_query, names_answer, ask_for_names,
}

abbrev pub OneLine : Text → Type 0
OneLine [] = Unit {0}
OneLine (c ∷ name) = ((c == b'\n') ≡ false) × OneLine name

get_line-OneLine :
    (name rest : Text) → OneLine name → get_line (name ++ b'\n' ∷ rest) ≡ (name, rest)
unfolding get_line
get_line-OneLine [] rest plain = refl
get_line-OneLine (c ∷ name) rest (this, plain) =
    rw (this, get_line-OneLine name rest plain, get_line) refl

-- The names of the ids, in the program's table, are of one line each.
abbrev pub AllOneLine : Map Text → List ℕ → Type 0
AllOneLine table [] = Unit {0}
AllOneLine table (id ∷ ids) = OneLine (NameTable.named id table) × AllOneLine table ids

abbrev pub has : ℕ → List ℕ → Bool
has j [] = false
has j (id ∷ ids) = id == j || has j ids

set_step :
    (id : ℕ) (ids : List ℕ) (text line rest : Text) (table : Map Text)
    → get_line text ≡ (line, rest)
    → set_names (id ∷ ids) text table ≡ set_names ids rest (put id line table)
unfolding set_names
set_step id ids text line rest table e = ap (λ r. set_names ids r.1 (put id r.0 table)) e

found_name :
    (id j : ℕ) (later : Bool) (program table : Map Text)
    → (if later
        then some (NameTable.named j program)
        else find j (put id (NameTable.named id program) table))
      ≡ (if id == j || later then some (NameTable.named j program) else find j table)
found_name id j later program table = elim (Bool-cases (id == j)) [
  | inl same ↦
      let e : id ≡ j = ground (arith, same) in
      ground (
        arith,
        find-put id j (NameTable.named id program) table,
        same,
        ap (λ k. NameTable.named k program) e,
      )
  | inr other ↦ ground (arith, find-put id j (NameTable.named id program) table, other)
]

find-set_names :
    (program : Map Text) (ids : List ℕ) (table : Map Text) (j : ℕ)
    → AllOneLine program ids
    → find j (set_names ids (name_lines program ids) table)
      ≡ (if has j ids then some (NameTable.named j program) else find j table)
unfolding set_names
find-set_names program [] table j plain = refl
find-set_names program (id ∷ ids) table j (this, plain) =
    ap (find j) (
      set_step id ids (name_lines program (id ∷ ids)) (NameTable.named id program)
        (name_lines program ids) table
        (get_line-OneLine (NameTable.named id program) (name_lines program ids) this))
    ∙ find-set_names program ids (put id (NameTable.named id program) table) j plain
    ∙ found_name id j (has j ids) program table

ask_step :
    (id : ℕ) (ids : List ℕ) (store : DataStore) (pieces pieces' : List Text) (m : MessageBuf)
    → recv_message pieces ≡ some (some m, pieces')
    → ask_for_names (id ∷ ids) store pieces
      ≡ some (
        record store { name_table = set_names (id ∷ ids) (as_string m) store.name_table },
        (msg_query_names, names_query (id ∷ ids)) ∷ [],
        pieces',
      )
unfolding ask_for_names names_answer
ask_step id ids store pieces pieces' m e = rw (e, ask_for_names) refl

-- The monitor's request for names and the program's answer to it, however the kernel cuts the bytes
-- of the answer: afterwards each id that was asked for has the program's name in the monitor's table,
-- no other entry has changed, and the bytes behind the answer are left. The ids have 64 bits, there
-- are at most 8190, so that the program's dispatch takes the request, and their names have no newline
-- and fit the program's buffer of 256000 bytes together.
pub ask_for_names-msg_handler :
    (read : ℕ → ℕ → ℕ) (p p' : Process) (answers : List Message) (id : ℕ) (ids : List ℕ)
    (store : DataStore) (rest : Text) (pieces : List Text)
    → Ids (id ∷ ids)
    → length (id ∷ ids) ≤ 8190
    → AllOneLine p.names (id ∷ ids)
    → length (name_lines p.names (id ∷ ids)) ≤ name_buf_size
    → msg_handler read p msg_query_names (names_query (id ∷ ids)) ≡ some (p', answers)
    → AllPieces pieces
    → joined pieces ≡ frames answers ++ rest
    → (table : Map Text) × (pieces' : List Text) × (ask_for_names (id ∷ ids) store pieces
        ≡ some (
          record store { name_table = table },
          (msg_query_names, names_query (id ∷ ids)) ∷ [],
          pieces',
        ))
      × ((j : ℕ)
          → find j table ≡ (
              if has j (id ∷ ids)
              then some (NameTable.named j p.names)
              else find j store.name_table))
      × AllPieces pieces'
      × (joined pieces' ≡ rest)
ask_for_names-msg_handler read p p' answers id ids store rest pieces ok few plain short answered all
      split =
    let lines = name_lines p.names (id ∷ ids) in
    let whole : reply lines ≡ names lines = rw (le→leb (length lines) name_buf_size short) refl in
    let sent =
      msg_handler-names read p (id ∷ ids) ok few ∙ ap (λ r. some (p, names_message r ∷ [])) whole in
    let same : answers ≡ (msg_names, lines) ∷ [] = cc in
    let cut : joined pieces ≡ frame msg_names lines ++ rest =
      split
      ∙ ap (λ m. frames m ++ rest) same
      ∙ ap (λ t. t ++ rest) (append-nil (frame msg_names lines)) in
    let (pieces', got, all', left) =
      recv_message-frame msg_names lines rest pieces all cut (omega (arith, short)) in
    (
      set_names (id ∷ ids) lines store.name_table,
      pieces',
      ask_step id ids store pieces pieces' (message_of (frame msg_names lines)) got,
      λ j. find-set_names p.names (id ∷ ids) store.name_table j plain,
      all',
      left,
    )
