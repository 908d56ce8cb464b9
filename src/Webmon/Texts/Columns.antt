-- ===== src/Webmon/Texts/Columns.antt =====
-- Webmon/Texts and llprofcommon/server.cpp: one line of the text of the record types, and read again.
use llprof.Base.{
  ℕ, zero, suc, ◌+◌, ◌≡◌, ◌≢◌, refl, ap, ◌∙◌, inl, inr, Bool, true, false, not, ◌&&◌, Option, some,
  List, [], ◌∷◌, ◌++◌, Text, codes, length, get_elem?, modify, decimal, ltb, if◌then◌else◌,
  Bool-cases, ◌>>=◌, ◌==◌, none, arith,
}
use mathlib.Core.List.{append_assoc}
use llprof.Registry.{Registry, PvType}
use llprof.Server.{is_static, record_line, record_lines}
use llprof.Webmon.Nodes.{RecordMetadata, update_flag}
use llprof.Webmon.Texts.{
  is_blank, skip_blanks, starts_with_digit, read_word, next_word, next_int, no_metadata,
  read_metadata, read_lines,
}
use llprof.Webmon.Texts.RoundTrip.{Solid, read_word-stop, skip_name, skip_space}

abbrev pub column_name : PvType → Bool → Text
column_name r static = if static then r.record_type_name ++ codes "(sv)" else r.record_type_name

abbrev pub column_flags : PvType → Bool → Text
column_flags r static =
    b'f' ∷ (if static then codes "S" else if r.is_counter then codes "A" else [])

-- A column of the monitor for a record type: a second slot of it has the static values, and a counter
-- accumulates in the first one.
abbrev pub column : PvType → Bool → RecordMetadata
column r static = record {
  field_name = column_name r static;
  unit = codes "U";
  flags = column_flags r static;
  accumulated_value_flag = not static && r.is_counter;
  static_value_flag = static;
}

-- A slot of the record type that the slot before has.
abbrev pub repeats : Option ℕ → ℕ → Bool
repeats none a = false
repeats (some b) a = a == b

pub is_static-repeats : (previous : Option ℕ) (a : ℕ) → is_static previous a ≡ repeats previous a
is_static-repeats none a = refl
is_static-repeats (some b) a = ground arith

unfoldable pub columns : Registry → List ℕ → Option ℕ → Option (List RecordMetadata)
columns g [] previous = some []
columns g (a ∷ active) previous = do
  r ← get_elem? g.records a
  rest ← columns g active (some a)
  some (column r (repeats previous a) ∷ rest)

-- The slots are of record types, whose names are not empty and have no blanks.
abbrev pub AllNamed : Registry → List ℕ → Type 0
AllNamed g [] = Unit {0}
AllNamed g (a ∷ active) =
    ((r : PvType) × (get_elem? g.records a ≡ some r)
      × (r.record_type_name ≢ [])
      × Solid r.record_type_name)
    × AllNamed g active

Solid-append : (s t : Text) → Solid s → Solid t → Solid (s ++ t)
Solid-append [] t solid solid' = solid'
Solid-append (c ∷ s) t (this, solid) solid' = (this, Solid-append s t solid solid')

append-ne-nil : (s t : Text) → s ≢ [] → s ++ t ≢ []
append-ne-nil [] t named e = named refl
append-ne-nil (c ∷ s) t named e = cc

column_name-Solid :
    (r : PvType) (static : Bool)
    → r.record_type_name ≢ []
    → Solid r.record_type_name
    → (column_name r static ≢ []) × Solid (column_name r static)
column_name-Solid r true named solid = (
  append-ne-nil r.record_type_name (codes "(sv)") named,
  Solid-append r.record_type_name (codes "(sv)") solid (refl, (refl, (refl, (refl, tt)))),
)
column_name-Solid r false named solid = (named, solid)

column_flags-Solid :
    (r : PvType) (static : Bool) → (column_flags r static ≢ []) × Solid (column_flags r static)
column_flags-Solid r true = (λ e. cc, (refl, (refl, tt)))
column_flags-Solid r false = elim (Bool-cases r.is_counter) [
  | inl e ↦ rw e (λ e. cc, (refl, (refl, tt)))
  | inr e ↦ rw e (λ e. cc, (refl, tt))
]

-- The words of a line, as they are written and as they are read.
unfoldable pub line_words : Text → Text → Text → Text
line_words name flags rest = b' ' ∷ (name ++ b' ' ∷ (b'U' ∷ b' ' ∷ (flags ++ b'\n' ∷ rest)))

unfoldable pub words : PvType → Bool → Text → Text
unfolding line_words
words r static rest = line_words (column_name r static) (column_flags r static) rest

line_static :
    (g : Registry) (i a : ℕ) (previous : Option ℕ) (r : PvType)
    → get_elem? g.records a ≡ some r
    → (line : Text) × (record_line g i a previous ≡ some line)
      × ((rest : Text) → line ++ rest ≡ decimal i ++ words r (is_static previous a) rest)
unfolding record_line words line_words
line_static g i a previous r at =
    let name = column_name r (is_static previous a) in
    let flags =
      if is_static previous a then codes "S" else if r.is_counter then codes "A" else [] in
    (
      _,
      rw at refl,
      λ rest.
          append_assoc (decimal i) (b' ' ∷ (name ++ (codes " U f" ++ (flags ++ b'\n' ∷ [])))) rest
          ∙ ap (λ t. decimal i ++ b' ' ∷ t)
              (append_assoc name (codes " U f" ++ (flags ++ b'\n' ∷ [])) rest
                ∙ ap (λ t. name ++ (codes " U f" ++ t)) (append_assoc flags (b'\n' ∷ []) rest)),
    )

pub line_lem :
    (g : Registry) (i a : ℕ) (previous : Option ℕ) (r : PvType)
    → get_elem? g.records a ≡ some r
    → (line : Text) × (record_line g i a previous ≡ some line)
      × ((rest : Text) → line ++ rest ≡ decimal i ++ words r (repeats previous a) rest)
line_lem g i a previous r at =
    let (line, one, shape) = line_static g i a previous r at in
    (
      line,
      one,
      λ rest.
          shape rest
          ∙ ap (λ static. decimal i ++ words r static rest) (is_static-repeats previous a),
    )

skip_word :
    (word rest : Text) → word ≢ [] → Solid word → skip_blanks (b' ' ∷ (word ++ rest)) ≡ word ++ rest
skip_word word rest named solid = skip_space (word ++ rest) ∙ skip_name word rest named solid

next_word-stop :
    (word rest : Text) (c : ℕ)
    → word ≢ []
    → Solid word
    → is_blank c ≡ true
    → next_word (b' ' ∷ (word ++ c ∷ rest)) ≡ (word, c ∷ rest)
next_word-stop word rest c named solid blank =
    ap read_word (skip_word word (c ∷ rest) named solid) ∙ read_word-stop word rest c solid blank

read_metadata_some :
    (text name r1 unit r2 flags r3 : Text)
    → next_word text ≡ (name, r1)
    → next_word r1 ≡ (unit, r2)
    → next_word r2 ≡ (flags, r3)
    → read_metadata text
      ≡ (update_flag (record no_metadata { field_name = name; unit = unit; flags = flags }), r3)
unfolding read_metadata
read_metadata_some text name r1 unit r2 flags r3 e1 e2 e3 =
    let entry = λ (name unit flags : Text).
      update_flag (record no_metadata { field_name = name; unit = unit; flags = flags }) in
    ap
      (λ (w : Text × Text). (
        entry w.0 (next_word w.1).0 (next_word (next_word w.1).1).0,
        (next_word (next_word w.1).1).1,
      ))
      e1
    ∙ ap (λ (w : Text × Text). (entry name w.0 (next_word w.1).0, (next_word w.1).1)) e2
    ∙ ap (λ (w : Text × Text). (entry name unit w.0, w.1)) e3

column_lem :
    (r : PvType) (static : Bool)
    → update_flag (record no_metadata {
      field_name = column_name r static;
      unit = codes "U";
      flags = column_flags r static;
    })
      ≡ column r static
unfolding update_flag
column_lem r true = refl
column_lem r false = elim (Bool-cases r.is_counter) [ inl e ↦ rw e refl | inr e ↦ rw e refl ]

pub read_metadata-words :
    (r : PvType) (static : Bool) (rest : Text)
    → r.record_type_name ≢ []
    → Solid r.record_type_name
    → read_metadata (words r static rest) ≡ (column r static, b'\n' ∷ rest)
unfolding words line_words
read_metadata-words r static rest named solid =
    let (name_there, name_solid) = column_name-Solid r static named solid in
    let (flags_there, flags_solid) = column_flags-Solid r static in
    let flags_text = column_flags r static ++ b'\n' ∷ rest in
    read_metadata_some (words r static rest) (column_name r static)
      (b' ' ∷ (b'U' ∷ b' ' ∷ flags_text)) (codes "U") (b' ' ∷ flags_text) (column_flags r static)
      (b'\n' ∷ rest)
      (next_word-stop (column_name r static) (b'U' ∷ b' ' ∷ flags_text) b' ' name_there name_solid
        refl)
      (next_word-stop (codes "U") flags_text b' ' (λ e. cc) (refl, tt) refl)
      (next_word-stop (column_flags r static) rest b'\n' flags_there flags_solid refl)
    ∙ ap (λ md. (md, b'\n' ∷ rest)) (column_lem r static)

pub starts_cons :
    (text : Text) → starts_with_digit text ≡ true → (c : ℕ) × (more : Text) × (text ≡ c ∷ more)
starts_cons [] e = absurd (cc)
starts_cons (c ∷ more) e = (c, more, refl)

-- One line, with the columns before it and those that are left.
pub read_line :
    (f i c : ℕ) (text more : Text) (r1 r2 : Text) (mds : List RecordMetadata) (md : RecordMetadata)
    → skip_blanks text ≡ c ∷ more
    → next_int (c ∷ more) ≡ some (i, r1)
    → ltb i (length mds) ≡ true
    → read_metadata r1 ≡ (md, r2)
    → read_lines (suc f) text mds ≡ read_lines f r2 (modify mds i (λ _. md))
unfolding read_lines
read_line f i c text more r1 r2 mds md skip int bound words =
    rw (skip, int, bound, read_lines)
      (ap (λ (w : RecordMetadata × Text). read_lines f w.1 (modify mds i (λ _. w.0))) words)

pub read_end :
    (f : ℕ) (text : Text) (mds : List RecordMetadata)
    → skip_blanks text ≡ []
    → read_lines (suc f) text mds ≡ some mds
unfolding read_lines
read_end f text mds skip = rw (skip, read_lines) refl

pub modify-append_at {ℓ} :
    {A : Type ℓ} (xs ys : List A) (x y : A) (i : ℕ)
    → length xs ≡ i
    → modify (xs ++ x ∷ ys) i (λ _. y) ≡ (xs ++ y ∷ []) ++ ys
modify-append_at [] ys x y zero e = refl
modify-append_at [] ys x y (suc i) e = absurd (omega (arith, e))
modify-append_at (z ∷ xs) ys x y zero e = absurd (omega (arith, e))
modify-append_at (z ∷ xs) ys x y (suc i) e =
    ap (λ l. z ∷ l) (modify-append_at xs ys x y i (omega (arith, e)))

pub record_lines-some :
    (g : Registry) (a i : ℕ) (active : List ℕ) (previous : Option ℕ) (line rest : Text)
    → record_line g i a previous ≡ some line
    → record_lines g active (i + 1) (some a) ≡ some rest
    → record_lines g (a ∷ active) i previous ≡ some (line ++ rest)
unfolding record_lines
record_lines-some g a i active previous line rest one more = rw (one, more, record_lines) refl

pub columns-some :
    (g : Registry) (a : ℕ) (active : List ℕ) (previous : Option ℕ) (r : PvType)
    (rest : List RecordMetadata)
    → get_elem? g.records a ≡ some r
    → columns g active (some a) ≡ some rest
    → columns g (a ∷ active) previous ≡ some (column r (repeats previous a) ∷ rest)
unfolding columns
columns-some g a active previous r rest at more = rw (at, more, columns) refl
