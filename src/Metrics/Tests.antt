-- ===== src/Metrics/Tests.antt =====
-- Runs of the parser of processor times.
use silent_devops.Prelude.{
  ℕ, ◌+◌, String, ◌≡◌, refl, Option, none, some, List, [], ◌∷◌, str_eq, ltb, if◌then◌else◌, ok,
}
use silent_devops.Metrics.{
  uint64, counter_overflow, index_panic, cpu, parse_values, add_all, cpu_values, cpu_fields, sum,
  cpu_values_exact,
}
use silent_devops.Metrics.Parse.{
  mem_line, mem_lines, parse_meminfo, include_filesystem, mounts_from, parse_mounts,
  usage_from_blocks, collect_filesystems,
}
use silent_devops.Metrics.Buffer.{
  Buffer, Metric, bound, new_buffer, drain, push_all, drain-push_all,
}

abbrev digit : String → Option ℕ
digit s = if str_eq s "3" then some 3 else none

four_values : cpu_fields digit ("cpu" ∷ "3" ∷ "3" ∷ "3" ∷ "3" ∷ []) ≡ index_panic
unfolding cpu_fields parse_values cpu_values add_all
four_values = refl

cpu_values_exact_example :
    (cpu_values (1 ∷ 2 ∷ 3 ∷ 4 ∷ 5 ∷ []) ≡ (
      if ltb (sum (1 ∷ 2 ∷ 3 ∷ 4 ∷ 5 ∷ [])) uint64
      then cpu (sum (1 ∷ 2 ∷ 3 ∷ 4 ∷ 5 ∷ [])) (4 + 5)
      else counter_overflow))
    × (cpu_values (1 ∷ 2 ∷ 3 ∷ 4 ∷ [])
        ≡ (if ltb (sum (1 ∷ 2 ∷ 3 ∷ 4 ∷ [])) uint64 then index_panic else counter_overflow))
cpu_values_exact_example = cpu_values_exact 1 2 3 4 5 []

abbrev kilobytes : String → Option ℕ
kilobytes s = if str_eq s "4" then some 4 else if str_eq s "1" then some 1 else none

abbrev without_colon : String → String
without_colon s =
    if str_eq s "MemTotal:"
    then "MemTotal"
    else if str_eq s "MemAvailable:"
    then "MemAvailable"
    else s

three_used :
    parse_meminfo kilobytes without_colon
      (("MemTotal:" ∷ "4" ∷ "kB" ∷ []) ∷ [] ∷ ("MemAvailable:" ∷ "1" ∷ "kB" ∷ []) ∷ [])
    ≡ ok (record { total = 4096; available = 1024; used = 3072 })
unfolding parse_meminfo mem_lines mem_line
three_used = refl

one_mount :
    parse_mounts
      (λ p. p)
      1
      (("proc" ∷ "/proc" ∷ "proc" ∷ [])
        ∷ ("/dev/sda" ∷ "/" ∷ "ext4" ∷ [])
        ∷ ("/dev/sdb" ∷ "/b" ∷ "ext4" ∷ [])
        ∷ [])
    ≡ ok (record { path = "/"; kind = "ext4" } ∷ [])
unfolding parse_mounts mounts_from include_filesystem
one_mount = refl

one_usage :
    collect_filesystems
      (λ p. if str_eq p "/" then some (10, 4, 512) else none)
      2
      (record { path = "/gone"; kind = "ext4" } ∷ record { path = "/"; kind = "ext4" } ∷ [])
    ≡ record { path = "/"; kind = "ext4"; total = 5120; used = 3072 } ∷ []
unfolding collect_filesystems usage_from_blocks
one_usage = refl

abbrev metric : String → List (String × String) → Metric ℕ
metric name labels = record { name = name; value = 3; labels = labels }

bounded :
    bound 1 1 (metric "load_1" (("a", "b") ∷ ("c", "d") ∷ []) ∷ metric "load_5" [] ∷ [])
    ≡ metric "load_1" (("a", "b") ∷ []) ∷ []
unfolding bound
bounded = refl

abbrev samples : List ℕ
samples = 1 ∷ 2 ∷ 3 ∷ []

abbrev last_two : List ℕ
last_two = 2 ∷ 3 ∷ []

drain-push_all_example :
    let b : Buffer ℕ = new_buffer 2 in
    ((drain (push_all b samples)).0 ≡ last_two) × ((drain (push_all b samples)).1.items ≡ [])
drain-push_all_example = drain-push_all 2 samples
