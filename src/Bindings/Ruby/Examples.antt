-- ===== src/Bindings/Ruby/Examples.antt =====
-- Bindings/Ruby: two methods that have one number, and a name that is cut.
use llprof.Base.{◌≡◌, refl, some, codes, length, replicate}
use llprof.Bindings.Ruby.{rrprof_name_func, nameinfo_to_nameid}

one_number :
    nameinfo_to_nameid (record { klass = 40; id = 6 })
    ≡ nameinfo_to_nameid (record { klass = 24; id = 10 })
unfolding nameinfo_to_nameid
one_number = refl

cut_name :
    length (
      rrprof_name_func
        (λ klass. codes "Klass")
        (λ id. replicate 80 b'm')
        240
        (some (record { klass = 40; id = 6 })))
    ≡ 63
unfolding rrprof_name_func
cut_name = refl
