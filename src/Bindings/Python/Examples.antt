-- ===== src/Bindings/Python/Examples.antt =====
-- Bindings/Python: a program that profiles one call, and returns from a function outside the profile.
use llprof.Base.{ℕ, ◌≡◌, refl, some, List, [], ◌∷◌, codes, none, arith}
use llprof.CallTree.Examples.{one_clock, one_clock-Layout}
use llprof.Bindings.Python.{What, PyEvent, begins, ends, traces, collects, py_run, python_name_func}
use llprof.Bindings.Python.Refinement.{Agree, profile_run, start_thread, py_run-Refines}

abbrev code_name : ℕ → List ℕ
code_name code = codes "work"

abbrev one_profile : List PyEvent
one_profile =
    traces What.return 32 (λ i. 5)
    ∷ begins (codes "Root") (λ i. 10)
    ∷ traces What.call 64 (λ i. 20)
    ∷ collects
    ∷ traces What.return 64 (λ i. 30)
    ∷ ends (λ i. 40)
    ∷ traces What.call 32 (λ i. 50)
    ∷ []

py_run-Refines_example :
    Agree one_clock
      (py_run one_clock code_name one_profile (start_thread one_clock 1 (some (codes "root")) []))
      (profile_run one_profile (record { open_profiles = 0; names = []; calls = 0 }))
py_run-Refines_example =
    py_run-Refines one_clock code_name 1 (some (codes "root")) [] one_profile 128 one_clock-Layout
      (omega arith) (omega arith)

profile_of_one :
    profile_run one_profile (record { open_profiles = 0; names = []; calls = 0 })
    ≡ some (record { open_profiles = 0; names = []; calls = 2 })
unfolding profile_run llprof.Network.hash_str
profile_of_one = refl

latin_name : python_name_func (λ code. codes "é") 64 none ≡ 233 ∷ []
unfolding python_name_func
latin_name = refl
