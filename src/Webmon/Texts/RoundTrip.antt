-- ===== src/Webmon/Texts/RoundTrip.antt =====
-- Webmon/Texts and llprofcommon/server.cpp: the offsets as a text, and read again.
use llprof.Base.{
  ℕ, zero, suc, ◌+◌, ◌-◌, ◌*◌, ◌/◌, ◌%◌, ◌^◌, ◌≤◌, ◌<◌, ◌≡◌, ◌≢◌, refl, sym, ap, ◌∙◌, inl, inr,
  true, false, some, List, [], ◌∷◌, ◌++◌, Text, length, length-append, digits, decimal, ltb,
  ltb_cases, ltb→lt, lt→ltb, ◌>>=◌, arith,
}
use mathlib.Core.List.{append_assoc}
use llprof.Protocol.{Slide}
use llprof.Server.{slide_info_to_str}
use llprof.Webmon.Texts.{
  is_blank, is_digit, skip_blanks, read_word, read_digits, starts_with_digit, fits_int, next_int,
  read_entry, read_slides, slides_of,
}

-- A text without blanks.
abbrev pub Solid : Text → Type 0
Solid [] = Unit {0}
Solid (c ∷ text) = (is_blank c ≡ false) × Solid text

pub read_word-stop :
    (word rest : Text) (c : ℕ)
    → Solid word
    → is_blank c ≡ true
    → read_word (word ++ c ∷ rest) ≡ (word, c ∷ rest)
unfolding read_word
read_word-stop [] rest c solid blank = rw (blank, read_word) refl
read_word-stop (d ∷ word) rest c (this, solid) blank =
    rw (this, read_word-stop word rest c solid blank, read_word) refl

read_digits-step :
    (n c : ℕ) (text : Text)
    → is_digit c ≡ true
    → read_digits n (c ∷ text) ≡ read_digits (n * 10 + (c - b'0')) text
unfolding read_digits
read_digits-step n c text e = rw (e, read_digits) refl

read_digits-stop :
    (n c : ℕ) (rest : Text) → is_digit c ≡ false → read_digits n (c ∷ rest) ≡ (n, c ∷ rest)
unfolding read_digits
read_digits-stop n c rest e = rw (e, read_digits) refl

digit_lem : (n : ℕ) → n < 10 → is_digit (n + b'0') ≡ true
digit_lem n lt = ground arith

digits-low : (f n : ℕ) (acc : Text) → ltb n 10 ≡ true → digits (suc f) n acc ≡ (n + b'0') ∷ acc
unfolding digits
digits-low f n acc e = rw (e, digits) refl

digits-high :
    (f n : ℕ) (acc : Text)
    → ltb n 10 ≡ false
    → digits (suc f) n acc ≡ digits f (n / 10) ((n % 10 + b'0') ∷ acc)
unfolding digits
digits-high f n acc e = rw (e, digits) refl

-- What `digits` puts in front is read as the number.
read_digits-digits :
    (f n : ℕ) (acc rest : Text)
    → n < f
    → (read_digits 0 (digits f n acc ++ rest) ≡ read_digits n (acc ++ rest))
      × (starts_with_digit (digits f n acc ++ rest) ≡ true)
unfolding digits read_digits
read_digits-digits zero n acc rest lt = absurd (omega (arith, lt))
read_digits-digits (suc f) n acc rest lt = elim (ltb_cases n 10) [
  | inl low ↦
      let small = ltb→lt n 10 low in
      let e : 0 * 10 + ((n + b'0') - b'0') ≡ n = omega arith in
      rw (digits-low f n acc low) (
        read_digits-step 0 (n + b'0') (acc ++ rest) (digit_lem n small)
            ∙ ap (λ m. read_digits m (acc ++ rest)) e,
        digit_lem n small,
      )
  | inr high ↦
      let large : 10 ≤ n = ground (arith, high) in
      let (read, start) =
        read_digits-digits f (n / 10) ((n % 10 + b'0') ∷ acc) rest (omega (arith, lt, large)) in
      let e : n / 10 * 10 + ((n % 10 + b'0') - b'0') ≡ n = omega arith in
      rw (digits-high f n acc high) (
        read
            ∙ read_digits-step (n / 10) (n % 10 + b'0') (acc ++ rest)
                (digit_lem (n % 10) (omega arith))
            ∙ ap (λ m. read_digits m (acc ++ rest)) e,
        start,
      )
]

pub skip_digit : (text : Text) → starts_with_digit text ≡ true → skip_blanks text ≡ text
unfolding skip_blanks
skip_digit [] e = refl
skip_digit (c ∷ text) e = ground (arith, e)

next_int_lem :
    (text : Text)
    → starts_with_digit (skip_blanks text) ≡ true
    → next_int text ≡ fits_int (read_digits 0 (skip_blanks text))
unfolding next_int
next_int_lem text e = rw (e, next_int) refl

fits_lem : (n : ℕ) (rest : Text) → n < 2 ^ 31 → fits_int (n, rest) ≡ some (n, rest)
fits_lem n rest lt = rw (lt→ltb n (2 ^ 31) lt) refl

pub decimal-start : (n : ℕ) (rest : Text) → starts_with_digit (decimal n ++ rest) ≡ true
decimal-start n rest = (read_digits-digits (suc n) n [] rest (omega arith)).1

-- A number that ends at a character that is no digit, behind blanks.
pub next_int-skipped :
    (n c : ℕ) (text rest : Text)
    → n < 2 ^ 31
    → is_digit c ≡ false
    → skip_blanks text ≡ skip_blanks (decimal n ++ c ∷ rest)
    → next_int text ≡ some (n, c ∷ rest)
unfolding read_digits
next_int-skipped n c text rest small end skip =
    let (read, start) = read_digits-digits (suc n) n [] (c ∷ rest) (omega arith) in
    let whole = skip ∙ skip_digit (decimal n ++ c ∷ rest) start in
    next_int_lem text (ap starts_with_digit whole ∙ start)
    ∙ ap (λ t. fits_int (read_digits 0 t)) whole
    ∙ ap fits_int read
    ∙ ap fits_int (read_digits-stop n c rest end)
    ∙ fits_lem n (c ∷ rest) small

-- The names are not empty and have no blanks, and the offsets are in the range of an int.
abbrev pub Readable : List Slide → Type 0
Readable [] = Unit {0}
Readable (s ∷ slides) =
    (s.field_name ≢ []) × Solid s.field_name × (s.slide < 2 ^ 31) × Readable slides

entry_text : Slide → Text → Text
entry_text s rest = s.field_name ++ b' ' ∷ (decimal s.slide ++ b'\n' ∷ rest)

entry_lem :
    (s : Slide) (slides : List Slide)
    → slide_info_to_str (s ∷ slides) ≡ entry_text s (slide_info_to_str slides)
unfolding slide_info_to_str entry_text
entry_lem s slides =
    append_assoc s.field_name (b' ' ∷ decimal s.slide) (b'\n' ∷ slide_info_to_str slides)

entry_text_lem :
    (s : Slide) (rest : Text)
    → entry_text s rest ≡ s.field_name ++ b' ' ∷ (decimal s.slide ++ b'\n' ∷ rest)
unfolding entry_text
entry_text_lem s rest = refl

no_slides : slide_info_to_str [] ≡ []
unfolding slide_info_to_str
no_slides = refl

pub skip_newline : (rest : Text) → skip_blanks (b'\n' ∷ rest) ≡ skip_blanks rest
unfolding skip_blanks
skip_newline rest = refl

pub skip_space : (rest : Text) → skip_blanks (b' ' ∷ rest) ≡ skip_blanks rest
unfolding skip_blanks
skip_space rest = refl

pub skip_name :
    (name rest : Text) → name ≢ [] → Solid name → skip_blanks (name ++ rest) ≡ name ++ rest
unfolding skip_blanks
skip_name [] rest some_name solid = absurd (some_name refl)
skip_name (c ∷ name) rest some_name (this, solid) = rw this refl

entry_read :
    (text name rest rest' : Text) (n : ℕ)
    → read_word (skip_blanks text) ≡ (name, rest)
    → next_int rest ≡ some (n, rest')
    → read_entry text ≡ some (record { field_name = name; slide = n }, rest')
unfolding read_entry
entry_read text name rest rest' n word int =
    ap (λ r. next_int r.1 >>= λ v. some (record { field_name = r.0; slide = v.0 }, v.1)) word
    ∙ rw int refl

read_entry-entry :
    (s : Slide) (rest : Text)
    → s.field_name ≢ []
    → Solid s.field_name
    → s.slide < 2 ^ 31
    → read_entry (entry_text s rest) ≡ some (s, b'\n' ∷ rest)
unfolding entry_text
read_entry-entry s rest named solid small =
    let more = decimal s.slide ++ b'\n' ∷ rest in
    entry_read (entry_text s rest) s.field_name (b' ' ∷ more) (b'\n' ∷ rest) s.slide
      (ap read_word (skip_name s.field_name (b' ' ∷ more) named solid)
        ∙ read_word-stop s.field_name more b' ' solid refl)
      (next_int-skipped s.slide b'\n' (b' ' ∷ more) rest small refl (skip_space more))

cons_of : (name rest : Text) → name ≢ [] → (c : ℕ) × (more : Text) × (name ++ rest ≡ c ∷ more)
cons_of [] rest named = absurd (named refl)
cons_of (c ∷ name) rest named = (c, name ++ rest, refl)

skip_slides :
    (slides : List Slide)
    → Readable slides
    → skip_blanks (slide_info_to_str slides) ≡ slide_info_to_str slides
unfolding skip_blanks slide_info_to_str entry_text
skip_slides [] readable = refl
skip_slides (s ∷ slides) (named, solid, _, _) = rw (entry_lem s slides) (
    skip_name s.field_name (b' ' ∷ (decimal s.slide ++ b'\n' ∷ slide_info_to_str slides)) named
      solid)

read_none : (f : ℕ) (text : Text) → skip_blanks text ≡ [] → read_slides (suc f) text ≡ some []
unfolding read_slides
read_none f text e = rw (e, read_slides) refl

read_one :
    (f c : ℕ) (text more rest : Text) (s : Slide) (slides : List Slide)
    → skip_blanks text ≡ c ∷ more
    → read_entry (c ∷ more) ≡ some (s, rest)
    → read_slides f rest ≡ some slides
    → read_slides (suc f) text ≡ some (s ∷ slides)
unfolding read_slides
read_one f c text more rest s slides skip entry later = rw (skip, entry, later, read_slides) refl

read_slides-str :
    (slides : List Slide) (f : ℕ) (text : Text)
    → Readable slides
    → skip_blanks text ≡ slide_info_to_str slides
    → length slides < f
    → read_slides f text ≡ some slides
read_slides-str slides zero text readable skip fuel = absurd (omega (arith, fuel))
read_slides-str [] (suc f) text readable skip fuel = read_none f text (skip ∙ no_slides)
read_slides-str (s ∷ slides) (suc f) text (named, solid, small, readable) skip fuel =
    let rest = slide_info_to_str slides in
    let (c, more, e) = cons_of s.field_name (b' ' ∷ (decimal s.slide ++ b'\n' ∷ rest)) named in
    let whole : entry_text s rest ≡ c ∷ more = entry_text_lem s rest ∙ e in
    read_one f c text more (b'\n' ∷ rest) s slides (skip ∙ entry_lem s slides ∙ whole)
      (ap read_entry (sym whole) ∙ read_entry-entry s rest named solid small)
      (read_slides-str slides f (b'\n' ∷ rest) readable
        (skip_newline rest ∙ skip_slides slides readable) (omega (arith, fuel)))

length-slides : (slides : List Slide) → length slides ≤ length (slide_info_to_str slides)
length-slides [] = omega arith
length-slides (s ∷ slides) =
    let text = s.field_name ++ b' ' ∷ (decimal s.slide ++ b'\n' ∷ slide_info_to_str slides) in
    let e : slide_info_to_str (s ∷ slides) ≡ text = entry_lem s slides ∙ entry_text_lem s _ in
    let len : length (slide_info_to_str (s ∷ slides)) ≡ length text = ap length e in
    omega (
      arith,
      len,
      length-append s.field_name (b' ' ∷ (decimal s.slide ++ b'\n' ∷ slide_info_to_str slides)),
      length-append (decimal s.slide) (b'\n' ∷ slide_info_to_str slides),
      length-slides slides,
    )

-- The program's text of its offsets, as the monitor reads it, gives these offsets, in their order. The
-- names are not empty and have no blanks, and the offsets are below 2^31.
pub slides_of-slide_info_to_str :
    (slides : List Slide) → Readable slides → slides_of (slide_info_to_str slides) ≡ some slides
slides_of-slide_info_to_str slides readable =
    let len = length-slides slides in
    read_slides-str slides (suc (length (slide_info_to_str slides))) (slide_info_to_str slides)
      readable (skip_slides slides readable) (omega (arith, len))
