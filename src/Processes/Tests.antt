-- ===== src/Processes/Tests.antt =====
-- A root process with one process behind it.
use racoon.Base.{ℕ, ◌≡◌, refl, some, [], ◌==◌, ◌+◌, if◌then◌else◌}
use racoon.Text.{Buffer, compare_names}
use racoon.Ds.Links.{Links, next_linear}
use racoon.Processes.{
  Process, Processes, no_pid, find_process, process_foreach, find_from, foreach_from,
}

-- The name of one letter.
abbrev letter : ℕ → Buffer
letter c = λ i. if i == 0 then c else 0

abbrev process : ℕ → Process
process p =
    if p == 4 then record { name = letter 65; pid = 1 } else record { name = letter 66; pid = 7 }

abbrev links : ℕ → Links
links p =
    if p == 4
    then record { object = 4; prev = 0; next = 8 }
    else record { object = 8; prev = 4; next = 0 }

abbrev two : Processes
two = record {
  process_table = record { total = 0; size = 1; percent = 75; table = [] };
  root_process = 4;
  last_pid = 8;
  process_at = process;
  family_tree =
      λ p. record { object = p; parent = 0; child = 0; sibling_prev = 0; sibling_next = 0 };
  list = links;
}

found : find_process 3 (letter 66) two ≡ some 7
unfolding find_process find_from next_linear compare_names
found = refl

not_found : find_process 3 (letter 67) two ≡ some no_pid
unfolding find_process find_from next_linear compare_names
not_found = refl

-- The sum of the addresses.
visited : process_foreach 3 (λ p sum. (0, sum + p)) two 0 ≡ some (0, 12)
unfolding process_foreach foreach_from next_linear
visited = refl

stopped : process_foreach 3 (λ p sum. (1, sum + p)) two 0 ≡ some (1, 4)
unfolding process_foreach foreach_from next_linear
stopped = refl
