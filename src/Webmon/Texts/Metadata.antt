-- ===== src/Webmon/Texts/Metadata.antt =====
-- Webmon/Texts and llprofcommon/server.cpp: the record types as a text, and read again.
use llprof.Base.{
  ℕ, zero, suc, ◌+◌, ◌^◌, ◌≤◌, ◌<◌, ◌≡◌, ◌≢◌, refl, sym, ap, ◌∙◌, Option, none, some, List, [], ◌∷◌,
  ◌++◌, Text, length, length-append, get_elem?, replicate, decimal, lt→ltb, arith,
}
use mathlib.Core.List.{append_assoc}
use llprof.Registry.{Registry, PvType}
use llprof.Server.{record_lines, get_record_info}
use llprof.Webmon.Nodes.{RecordMetadata}
use llprof.Webmon.Texts.{skip_blanks, next_int, no_metadata, read_lines, metadata_of}
use llprof.Webmon.Texts.RoundTrip.{Solid, skip_newline, skip_digit, decimal-start, next_int-skipped}
use llprof.Webmon.Texts.Columns.{
  column, columns, repeats, AllNamed, words, line_words, line_lem, read_metadata-words, starts_cons,
  read_line, read_end, modify-append_at, record_lines-some, columns-some,
}

-- What the lines are, and what they are read as behind the columns that were read already.
record Lines (g : Registry) (active : List ℕ) (previous : Option ℕ) (i : ℕ) : Type 0 where
  lines : Text
  mds : List RecordMetadata
  written : record_lines g active i previous ≡ some lines
  described : columns g active previous ≡ some mds
  long : length active ≤ length lines
  as_read :
      (f : ℕ) (text : Text) (before : List RecordMetadata)
      → length before ≡ i
      → length active < f
      → skip_blanks text ≡ skip_blanks lines
      → read_lines f text (before ++ replicate (length active) no_metadata) ≡ some (before ++ mds)

no-Lines : (g : Registry) (previous : Option ℕ) (i : ℕ) → Lines g [] previous i
unfolding record_lines columns skip_blanks
no-Lines g previous i = record {
  lines = [];
  mds = [];
  written = refl;
  described = refl;
  long = omega arith;
  as_read = no_lines_read;
}
  where
    no_lines_read :
        (f : ℕ) (text : Text) (before : List RecordMetadata)
        → length before ≡ i
        → 0 < f
        → skip_blanks text ≡ []
        → read_lines f text (before ++ []) ≡ some (before ++ [])
    no_lines_read zero text before e lt skip = absurd (omega (arith, lt))
    no_lines_read (suc f) text before e lt skip = read_end f text (before ++ []) skip

module _ (g : Registry) (a : ℕ) (active : List ℕ) (previous : Option ℕ) (i : ℕ) (r : PvType)
    (named : r.record_type_name ≢ []) (solid : Solid r.record_type_name)
    (at : get_elem? g.records a ≡ some r) (small : i < 2 ^ 31)
    (l : Lines g active (some a) (i + 1)) where
  -- One line and the lines behind it.
  first_read :
      (line : Text) (f : ℕ) (text : Text) (before : List RecordMetadata)
      → line ++ l.lines ≡ decimal i ++ words r (repeats previous a) l.lines
      → length before ≡ i
      → suc (length active) < f
      → skip_blanks text ≡ skip_blanks (line ++ l.lines)
      → read_lines f text (before ++ no_metadata ∷ replicate (length active) no_metadata)
        ≡ some (before ++ column r (repeats previous a) ∷ l.mds)
  unfolding words line_words
  first_read line zero text before shape e fuel skip = absurd (omega (arith, fuel))
  first_read line (suc f) text before shape e fuel skip =
      let md = column r (repeats previous a) in
      let w = words r (repeats previous a) l.lines in
      let start = decimal-start i w in
      let (c, more, whole) = starts_cons (decimal i ++ w) start in
      let left = replicate (length active) no_metadata in
      let wide : i < length (before ++ no_metadata ∷ left) =
        omega (arith, e, length-append before (no_metadata ∷ left)) in
      read_line f i c text more w (b'\n' ∷ l.lines) (before ++ no_metadata ∷ left) md
        (skip ∙ ap skip_blanks shape ∙ skip_digit (decimal i ++ w) start ∙ whole)
        (next_int-skipped i b' ' (c ∷ more) _ small refl (ap skip_blanks (sym whole)))
        (lt→ltb i (length (before ++ no_metadata ∷ left)) wide)
        (read_metadata-words r (repeats previous a) l.lines named solid)
      ∙ ap (read_lines f (b'\n' ∷ l.lines)) (modify-append_at before left no_metadata md i e)
      ∙ l.as_read f (b'\n' ∷ l.lines) (before ++ md ∷ [])
          (omega (arith, e, length-append before (md ∷ []))) (omega (arith, fuel))
          (skip_newline l.lines)
      ∙ ap some (append_assoc before (md ∷ []) l.mds)

  line_length :
      (line : Text)
      → ((rest : Text) → line ++ rest ≡ decimal i ++ words r (repeats previous a) rest)
      → suc (length active) ≤ length (line ++ l.lines)
  unfolding words
  line_length line shape =
      let e = ap length (shape []) in
      omega (
        arith,
        e,
        l.long,
        length-append line [],
        length-append line l.lines,
        length-append (decimal i) (words r (repeats previous a) []),
      )

  more-Lines : Lines g (a ∷ active) previous i
  more-Lines =
      let (line, one, shape) = line_lem g i a previous r at in
      record {
        lines = line ++ l.lines;
        mds = column r (repeats previous a) ∷ l.mds;
        written = record_lines-some g a i active previous line l.lines one l.written;
        described = columns-some g a active previous r l.mds at l.described;
        long = line_length line shape;
        as_read =
            λ f text before e fuel skip. first_read line f text before (shape l.lines) e fuel skip;
      }

all-Lines :
    (g : Registry) (active : List ℕ) (previous : Option ℕ) (i : ℕ)
    → AllNamed g active
    → i + length active < 2 ^ 31
    → Lines g active previous i
all-Lines g [] previous i named few = no-Lines g previous i
all-Lines g (a ∷ active) previous i ((r, at, there, solid), named) few =
    more-Lines g a active previous i r there solid at (omega (arith, few))
      (all-Lines g active (some a) (i + 1) named (omega (arith, few)))

get_record_info-some :
    (g : Registry) (lines : Text)
    → record_lines g g.active 0 none ≡ some lines
    → get_record_info g ≡ some (decimal (length g.active) ++ b'\n' ∷ lines)
unfolding get_record_info
get_record_info-some g lines e = rw (e, get_record_info) refl

metadata_of-some :
    (text rest : Text) (n : ℕ) (r : Option (List RecordMetadata))
    → next_int text ≡ some (n, rest)
    → read_lines (suc (length rest)) rest (replicate n no_metadata) ≡ r
    → metadata_of text ≡ r
unfolding metadata_of
metadata_of-some text rest n r int lines = rw (int, metadata_of) lines

-- The text of the record types is written, and read again it gives the columns of the monitor: one for
-- each slot of a record, in their order, with the name of the type, marked where the slot before is of
-- the same type, and with the flags of static and of accumulated values. The names are not empty and have
-- no blanks, and there are fewer than 2^31 slots.
pub metadata_of-get_record_info :
    (g : Registry)
    → AllNamed g g.active
    → length g.active < 2 ^ 31
    → (text : Text) × (mds : List RecordMetadata) × (get_record_info g ≡ some text)
      × (columns g g.active none ≡ some mds)
      × (metadata_of text ≡ some mds)
metadata_of-get_record_info g named few =
    let l = all-Lines g g.active none 0 named (omega (arith, few)) in
    let text = decimal (length g.active) ++ b'\n' ∷ l.lines in
    (
      text,
      l.mds,
      get_record_info-some g l.lines l.written,
      l.described,
      metadata_of-some text (b'\n' ∷ l.lines) (length g.active) (some l.mds)
          (next_int-skipped (length g.active) b'\n' text l.lines few refl refl)
          (l.as_read (suc (length (b'\n' ∷ l.lines))) (b'\n' ∷ l.lines) [] refl
            (omega (arith, l.long)) (skip_newline l.lines)),
    )
