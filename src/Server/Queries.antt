-- ===== src/Server/Queries.antt =====
-- MSG_QUERY_NAMES: the reply for a list of name ids.
use llprof.Base.{
  ℕ, suc, ◌+◌, ◌*◌, ◌/◌, ◌%◌, ◌^◌, ◌<◌, ◌≤◌, ◌≡◌, ◌⊎◌, inl, inr, refl, ap, ◌∙◌, some, List, [], ◌∷◌,
  ◌++◌, Map, Text, length, leb, if◌then◌else◌, le32, le64, word64, word64-le64, length-append,
  le→leb, lt→leb, arith,
}
use mathlib.Core.List.{append_assoc, append-nil}
use mathlib.Core.Option
use llprof.NameTable
use llprof.Protocol.{query_names, msg_query_names}
use llprof.Server.{Process}
use llprof.Server.Messages.{
  NamesReply, names, too_many, end_line, name_buf_size, query_loop, names_message, msg_handler,
}

abbrev pub Ids : List ℕ → Type 0
Ids [] = Unit {0}
Ids (id ∷ ids) = (id < 2 ^ 64) × Ids ids

abbrev pub encode_ids : List ℕ → Text
encode_ids [] = []
encode_ids (id ∷ ids) = le64 id ++ encode_ids ids

-- The body of a request with one section.
abbrev pub names_request : List ℕ → Text
names_request ids = le32 query_names ++ (le32 (length ids) ++ encode_ids ids)

-- The names, one on each line.
abbrev pub name_lines : Map Text → List ℕ → Text
name_lines table [] = []
name_lines table (id ∷ ids) = NameTable.named id table ++ b'\n' ∷ name_lines table ids

-- The lines as the table is read.
abbrev lines_got : Map Text → List ℕ → Text
lines_got table [] = []
lines_got table (id ∷ ids) = NameTable.get id table ++ b'\n' ∷ lines_got table ids

lines_got_lem : (table : Map Text) (ids : List ℕ) → lines_got table ids ≡ name_lines table ids
lines_got_lem table [] = refl
lines_got_lem table (id ∷ ids) =
    ap (λ name. name ++ b'\n' ∷ lines_got table ids) (NameTable.get-named id table)
    ∙ ap (λ lines. NameTable.named id table ++ b'\n' ∷ lines) (lines_got_lem table ids)

-- The reply that the lines make.
abbrev pub reply : Text → NamesReply
reply lines = if leb (length lines) name_buf_size then names lines else too_many

-- One entry of the section, as the test on the buffer goes.
query_loop_fits :
    (table : Map Text) (a b c d e f g h id n : ℕ) (rest out : Text)
    → word64 (a ∷ b ∷ c ∷ d ∷ e ∷ f ∷ g ∷ h ∷ rest) ≡ some id
    → length (NameTable.get id table) + length out < name_buf_size
    → query_loop table (a ∷ b ∷ c ∷ d ∷ e ∷ f ∷ g ∷ h ∷ rest) (suc n) query_names out
      ≡ query_loop table rest n query_names ((out ++ NameTable.get id table) ++ b'\n' ∷ [])
unfolding query_loop end_line
query_loop_fits table a b c d e f g h id n rest out word fits =
    let len = length-append out (NameTable.get id table) in ground (arith, word, len)

query_loop_full :
    (table : Map Text) (a b c d e f g h id n : ℕ) (rest out : Text)
    → word64 (a ∷ b ∷ c ∷ d ∷ e ∷ f ∷ g ∷ h ∷ rest) ≡ some id
    → name_buf_size ≤ length (NameTable.get id table) + length out
    → query_loop table (a ∷ b ∷ c ∷ d ∷ e ∷ f ∷ g ∷ h ∷ rest) (suc n) query_names out
      ≡ some too_many
unfolding query_loop
query_loop_full table a b c d e f g h id n rest out word full = ground (arith, word)

abbrev sum32 : ℕ → ℕ
sum32 n =
    n % 256 + 2 ^ 8 * (n / 2 ^ 8 % 256) + 2 ^ 16 * (n / 2 ^ 16 % 256) + 2 ^ 24 * (n / 2 ^ 24 % 256)

sum32_lem : (n : ℕ) → n < 2 ^ 32 → sum32 n ≡ n
sum32_lem n h = omega arith

query_loop_header :
    (table : Map Text) (kind rem before : ℕ) (rest out : Text)
    → kind < 2 ^ 32
    → rem < 2 ^ 32
    → query_loop table (le32 kind ++ (le32 rem ++ rest)) 0 before out
      ≡ query_loop table rest rem kind out
unfolding query_loop
query_loop_header table kind rem before rest out one two =
    ap (λ r. query_loop table rest r (sum32 kind) out) (sum32_lem rem two)
    ∙ ap (λ k. query_loop table rest rem k out) (sum32_lem kind one)

joined_lem : (a b : Text) (c : ℕ) (d : Text) → ((a ++ b) ++ c ∷ []) ++ d ≡ a ++ (b ++ c ∷ d)
joined_lem a b c d = append_assoc (a ++ b) (c ∷ []) d ∙ append_assoc a b (c ∷ d)

room : (n : ℕ) → (n < name_buf_size) ⊎ (name_buf_size ≤ n)
room n = ground arith

query_section :
    (table : Map Text) (ids : List ℕ) (out : Text)
    → Ids ids
    → length out ≤ name_buf_size
    → query_loop table (encode_ids ids) (length ids) query_names out
      ≡ some (reply (out ++ lines_got table ids))
unfolding query_loop
query_section table [] out ok small =
    rw (append-nil out, le→leb (length out) name_buf_size small) refl
query_section table (id ∷ ids) out (this, ok) small =
    let name = NameTable.get id table in
    let word = word64-le64 id (encode_ids ids) this in
    let more = lines_got table ids in
    let len = length-append out (name ++ b'\n' ∷ more) in
    let len' = length-append name (b'\n' ∷ more) in
    elim (room (length name + length out)) [
      | inl fits ↦
          query_loop_fits table _ _ _ _ _ _ _ _ id (length ids) (encode_ids ids) out word fits
          ∙ query_section table ids ((out ++ name) ++ b'\n' ∷ []) ok
              (omega (arith, length-append (out ++ name) (b'\n' ∷ []), length-append out name))
          ∙ ap (λ l. some (reply l)) (joined_lem out name b'\n' more)
      | inr full ↦
          query_loop_full table _ _ _ _ _ _ _ _ id (length ids) (encode_ids ids) out word full
          ∙ rw
              (lt→leb (length (out ++ (name ++ b'\n' ∷ more))) name_buf_size
                (omega (arith, len, len')))
              refl
    ]

pub msg_handler-names :
    (read : ℕ → ℕ → ℕ) (p : Process) (ids : List ℕ)
    → Ids ids
    → length ids ≤ 8190
    → msg_handler read p msg_query_names (names_request ids)
      ≡ some (p, names_message (reply (name_lines p.names ids)) ∷ [])
unfolding msg_handler
msg_handler-names read p ids ok few =
    let header =
      query_loop_header p.names query_names (length ids) 0 (encode_ids ids) [] (omega arith)
        (omega (arith, few)) in
    ap (Option.map (λ r. (p, names_message r ∷ [])))
      (header ∙ query_section p.names ids [] ok (omega arith))
    ∙ ap (λ lines. some (p, names_message (reply lines) ∷ [])) (lines_got_lem p.names ids)
