-- ===== src/Webmon/Texts.antt =====
-- webmon/data_store.cpp, the texts that `DataStore::ReceiveLoop` reads at the start of a connection,
-- with `>>`. `none` is a number that is missing, which stops the stream before its end so that the
-- loop never ends, or an access out of bounds. Numbers with a sign are not modelled.
mod RoundTrip
mod Columns
mod Metadata
mod Examples
use llprof.Base.{
  ℕ, zero, suc, ◌+◌, ◌-◌, ◌*◌, ◌^◌, Bool, true, false, ◌&&◌, ◌||◌, Option, none, some, List, [],
  ◌∷◌, ◌++◌, Text, length, get_elem?, modify, replicate, ltb, leb, if◌then◌else◌, ◌==◌, ◌>>=◌, ◌>>◌,
  assert,
}
use llprof.Protocol.{Slide}
use llprof.Webmon.Nodes.{RecordMetadata, update_flag}

-- `isspace` in the C locale.
abbrev pub is_blank : ℕ → Bool
is_blank c = c == b' ' || leb 9 c && leb c 13

abbrev pub is_digit : ℕ → Bool
is_digit c = leb b'0' c && leb c b'9'

-- `ws(strm)`
unfoldable pub skip_blanks : Text → Text
skip_blanks [] = []
skip_blanks (c ∷ text) = if is_blank c then skip_blanks text else c ∷ text

-- The characters up to the next blank.
unfoldable pub read_word : Text → Text × Text
read_word [] = ([], [])
read_word (c ∷ text) = elim (is_blank c) [
  | true ↦ ([], c ∷ text)
  | false ↦ let (word, rest) = read_word text in (c ∷ word, rest)
]

-- strm >> word
abbrev pub next_word : Text → Text × Text
next_word text = read_word (skip_blanks text)

unfoldable pub read_digits : ℕ → Text → ℕ × Text
read_digits n [] = (n, [])
read_digits n (c ∷ text) = elim (is_digit c) [
  | true ↦ read_digits (n * 10 + (c - b'0')) text
  | false ↦ (n, c ∷ text)
]

abbrev pub starts_with_digit : Text → Bool
starts_with_digit [] = false
starts_with_digit (c ∷ text) = is_digit c

abbrev pub fits_int : ℕ × Text → Option (ℕ × Text)
fits_int (n, rest) = if ltb n (2 ^ 31) then some (n, rest) else none

-- strm >> number
unfoldable pub next_int : Text → Option (ℕ × Text)
unfolding skip_blanks read_digits
next_int text =
    let text' = skip_blanks text in
    if starts_with_digit text' then fits_int (read_digits 0 text') else none

unfoldable pub read_entry : Text → Option (Slide × Text)
unfolding read_word skip_blanks next_int
read_entry text =
    let (name, rest) = next_word text in
    do (slide, rest') ← next_int rest; some (record { field_name = name; slide = slide }, rest')

-- The loop over the answer to INFO_DATA_SLIDE. An entry has two characters at least.
unfoldable pub read_slides : ℕ → Text → Option (List Slide)
unfolding skip_blanks read_entry
read_slides zero text = none
read_slides (suc f) text = elim (skip_blanks text) [
  | [] ↦ some []
  | c ∷ rest ↦ do
    (entry, rest') ← read_entry (c ∷ rest)
    slides ← read_slides f rest'
    some (entry ∷ slides)
]

abbrev pub slides_of : Text → Option (List Slide)
slides_of text = read_slides (suc (length text)) text

-- The elements that `record_metadata_.resize` makes, whose flags are set with the first entry.
abbrev pub no_metadata : RecordMetadata
no_metadata = record {
  field_name = [];
  unit = [];
  flags = [];
  accumulated_value_flag = false;
  static_value_flag = false;
}

-- The three words of an entry, and `UpdateFlag`.
unfoldable pub read_metadata : Text → RecordMetadata × Text
unfolding read_word skip_blanks update_flag
read_metadata text =
    let (name, rest) = next_word text in
    let (unit, rest') = next_word rest in
    let (flags, rest'') = next_word rest' in
    (update_flag (record no_metadata { field_name = name; unit = unit; flags = flags }), rest'')

-- The loop over the lines of the answer to INFO_RECORD_METAINFO.
unfoldable pub read_lines : ℕ → Text → List RecordMetadata → Option (List RecordMetadata)
unfolding skip_blanks next_int read_metadata
read_lines zero text mds = none
read_lines (suc f) text mds = elim (skip_blanks text) [
  | [] ↦ some mds
  | c ∷ rest ↦ do
    (idx, rest') ← next_int (c ∷ rest)
    assert (ltb idx (length mds))
    let (md, rest'') = read_metadata rest'
    read_lines f rest'' (modify mds idx (λ _. md))
]

unfoldable pub metadata_of : Text → Option (List RecordMetadata)
unfolding next_int read_lines
metadata_of text = do
  (n, rest) ← next_int text
  read_lines (suc (length rest)) rest (replicate n no_metadata)
