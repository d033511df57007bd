-- ===== src/Env/Tests.antt =====
-- A variable set in an empty environment.
use racoon.Base.{ℕ, ◌+◌, ◌≡◌, refl, arith, Option, some, none, ok, tabulate, ◌==◌, if◌then◌else◌}
use racoon.Text.{Buffer}
use racoon.Env.{EnvironInfo, Environment, smk_ok, set_environment, get_environment, table_of}
use racoon.Env.Entries.{Keeps}
use racoon.Env.Read.{get_environment-set_environment}

abbrev blank : EnvironInfo
blank = record { name = λ _. 0; size = 0; bytes = λ _. 0 }

abbrev kmalloc : ℕ → Option Buffer
kmalloc n = some (λ _. 7)

abbrev krealloc : Option (ℕ → EnvironInfo) → ℕ → Option (ℕ → EnvironInfo)
krealloc none n = some (λ _. blank)
krealloc (some old) n = some old

krealloc-Keeps : Keeps krealloc
krealloc-Keeps old new n e i h = ground (arith, e)

abbrev empty_environment : Environment
empty_environment = record { environment = none; environment_count = 0 }

-- The name "P", and three bytes.
abbrev path_name : Buffer
path_name i = if i == 0 then 80 else 0

abbrev three_bytes : Buffer
three_bytes i = 65 + i

empty_table : table_of empty_environment ≡ ok (λ _. blank)
unfolding table_of
empty_table = refl

get_environment_example :
    (env' : Environment) × (set_environment kmalloc krealloc empty_environment
        (some path_name)
        (some three_bytes)
        3
      ≡ ok (smk_ok, env'))
    × (buffer' : Buffer) × (get_environment env' path_name (λ _. 0) 8 ≡ ok (smk_ok, buffer', 3))
    × (tabulate 3 buffer' ≡ tabulate 3 three_bytes)
get_environment_example =
    get_environment-set_environment kmalloc krealloc empty_environment (λ _. blank) (λ _. blank)
      path_name three_bytes (λ _. 7) 3 (omega arith) empty_table
      (record { named = λ i h. absurd (omega arith) }) (λ i h. ground arith) refl krealloc-Keeps
      refl (λ _. 0) 8 (omega arith)
