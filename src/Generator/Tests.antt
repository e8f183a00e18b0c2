-- ===== src/Generator/Tests.antt =====
-- imsi_generator/main.cpp: a run.
use pgw.Base.{ℕ, ◌%◌, ◌≡◌, refl, codes}
use pgw.Generator.{generate_random_imsi, fill_up}
use pgw.Cdr.{to_string}

abbrev draws : ℕ → ℕ
draws i = i % 10

generate_random_imsi_run : generate_random_imsi draws ≡ codes "001010123456789"
unfolding generate_random_imsi fill_up to_string
generate_random_imsi_run = refl
