-- ===== src/Webmon/Texts/Examples.antt =====
-- Webmon/Texts: a program with two offsets, and one with a clock.
use llprof.Base.{◌≡◌, refl, List, [], ◌∷◌, some, none, arith, codes, Text}
use llprof.CallTree.Examples.{one_clock, real_time}
use llprof.Protocol.{Slide}
use llprof.Server.{slide_info_to_str, get_record_info}
use llprof.Webmon.Nodes.{RecordMetadata}
use llprof.Webmon.Texts.{slides_of, metadata_of}
use llprof.Webmon.Texts.Columns.{columns, AllNamed}
use llprof.Webmon.Texts.Metadata.{metadata_of-get_record_info}
use llprof.Webmon.Texts.RoundTrip.{Readable, Solid, slides_of-slide_info_to_str}

abbrev two_slides : List Slide
two_slides =
    record { field_name = codes "pdata.nameid"; slide = 0 }
    ∷ record { field_name = codes "pdata.record_size"; slide = 32 }
    ∷ []

two_slides-Readable : Readable two_slides
two_slides-Readable = (
  (λ e. cc),
  (
    refl,
    (refl, (refl, (refl, (refl, (refl, (refl, (refl, (refl, (refl, (refl, (refl, tt))))))))))),
  ),
  omega arith,
  (
    (λ e. cc),
    (
      refl,
      (
        refl,
        (
          refl,
          (
            refl,
            (
              refl,
              (
                refl,
                (
                  refl,
                  (
                    refl,
                    (refl, (refl, (refl, (refl, (refl, (refl, (refl, (refl, (refl, tt))))))))),
                  ),
                ),
              ),
            ),
          ),
        ),
      ),
    ),
    omega arith,
    tt,
  ),
)

slides_of-slide_info_to_str_example : slides_of (slide_info_to_str two_slides) ≡ some two_slides
slides_of-slide_info_to_str_example = slides_of-slide_info_to_str two_slides two_slides-Readable

-- The name is real-time.
clock_named : AllNamed one_clock (0 ∷ 0 ∷ [])
clock_named =
    let solid : Solid (codes "real-time") =
      (refl, (refl, (refl, (refl, (refl, (refl, (refl, (refl, (refl, tt))))))))) in
    ((real_time, refl, (λ e. cc), solid), ((real_time, refl, (λ e. cc), solid), tt))

metadata_of-get_record_info_example :
    (text : Text) × (mds : List RecordMetadata) × (get_record_info one_clock ≡ some text)
    × (columns one_clock (0 ∷ 0 ∷ []) none ≡ some mds)
    × (metadata_of text ≡ some mds)
metadata_of-get_record_info_example =
    metadata_of-get_record_info one_clock clock_named (omega arith)
