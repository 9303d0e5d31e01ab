-- ===== src/Metrics/Parse.antt =====
-- The other readers of numbers in internal/metrics: `ParseMeminfo` of metrics.go, and `ParseMounts`,
-- `UsageFromBlocks` and `CollectFilesystems` of filesystem.go. Each line is given by its fields; the
-- parser strconv.ParseUint, strings.TrimSuffix, the replacer of `decodeMount` and the call of statfs
-- are arguments.
use silent_devops.Prelude.{
  ℕ, zero, suc, ◌+◌, ◌-◌, ◌*◌, ◌/◌, ◌%◌, String, Bool, not, ◌&&◌, ◌||◌, Option, none, some, List,
  [], ◌∷◌, str_eq, ltb, ◌==◌, if◌then◌else◌, exists, Result, ok, ◌>>=◌, ◌>>◌, fail_if, or_fail,
}
use silent_devops.Metrics.{uint64}

pub record Memory : Type 0 where
  pub total : ℕ
  pub available : ℕ
  pub used : ℕ

pub data ReadError : Type 0 where
  bad_field memory_overflow invalid_meminfo limit_missing : ReadError

-- The switch on the name of a line.
abbrev pub put_memory : Memory → String → ℕ → Memory
put_memory m name v =
    if str_eq name "MemTotal"
    then record m { total = v * 1024 }
    else if str_eq name "MemAvailable"
    then record m { available = v * 1024 }
    else m

unfoldable pub mem_line :
    (String → Option ℕ) → (String → String) → Memory → List String → Result ReadError Memory
mem_line parse trim m (name ∷ value ∷ more) = do
  v ← or_fail (parse value) bad_field
  fail_if (ltb ((uint64 - 1) / 1024) v) memory_overflow
  ok (put_memory m (trim name) v)
mem_line parse trim m _ = ok m

unfoldable pub mem_lines :
    (String → Option ℕ) → (String → String) → Memory → List (List String) → Result ReadError Memory
mem_lines parse trim m [] = ok m
mem_lines parse trim m (f ∷ fs) = mem_line parse trim m f >>= λ next. mem_lines parse trim next fs

unfoldable pub parse_meminfo :
    (String → Option ℕ) → (String → String) → List (List String) → Result ReadError Memory
parse_meminfo parse trim lines = do
  m ← mem_lines parse trim (record { total = 0; available = 0; used = 0 }) lines
  fail_if (m.total == 0 || ltb m.total m.available) invalid_meminfo
  ok (record m { used = m.total - m.available })

-- `pseudo` and `IncludeFilesystem`
abbrev pub pseudo : List String
pseudo =
    "proc" ∷ "sysfs" ∷ "tmpfs" ∷ "devtmpfs" ∷ "devpts" ∷ "cgroup" ∷ "cgroup2" ∷ "overlay"
    ∷ "squashfs" ∷ "securityfs" ∷ "debugfs" ∷ "tracefs" ∷ "pstore" ∷ "configfs" ∷ "fusectl"
    ∷ "mqueue" ∷ "hugetlbfs" ∷ "rpc_pipefs" ∷ "autofs" ∷ "binfmt_misc" ∷ []

unfoldable pub include_filesystem : String → Bool
include_filesystem kind = not (exists (λ (name : String). str_eq name kind) pseudo)

pub record Mount : Type 0 where
  pub path : String
  pub kind : String

abbrev pub mount_of : (String → String) → List String → Option Mount
mount_of decode (device ∷ path ∷ kind ∷ more) =
    if include_filesystem kind then some (record { path = decode path; kind = kind }) else none
mount_of decode _ = none

-- The loop, with what is left of the limit; it is not entered with 0.
unfoldable pub mounts_from : (String → String) → ℕ → List (List String) → List Mount
mounts_from decode zero lines = []
mounts_from decode (suc left) [] = []
mounts_from decode (suc left) (f ∷ fs) = elim (mount_of decode f) [
  | none ↦ mounts_from decode (suc left) fs
  | some m ↦ m ∷ mounts_from decode left fs
]

unfoldable pub parse_mounts :
    (String → String) → ℕ → List (List String) → Result ReadError (List Mount)
parse_mounts decode limit lines = do
  fail_if (limit == 0) limit_missing
  ok (mounts_from decode limit lines)

pub record FilesystemUsage : Type 0 where
  pub path : String
  pub kind : String
  pub total : ℕ
  pub used : ℕ

-- `UsageFromBlocks`: the total and the used bytes.
unfoldable pub usage_from_blocks : ℕ → ℕ → ℕ → Option (ℕ × ℕ)
usage_from_blocks blocks available size =
    if ltb blocks available || (not (size == 0) && ltb ((uint64 - 1) / size) blocks)
    then none
    else some (
      (blocks * size) % uint64,
      ((blocks * size) % uint64 + uint64 - (available * size) % uint64) % uint64,
    )

abbrev pub usage_of : (String → Option (ℕ × ℕ × ℕ)) → Mount → Option FilesystemUsage
usage_of statfs m = elim (statfs m.path) [
  | none ↦ none
  | some (blocks, available, size) ↦ elim (usage_from_blocks blocks available size) [
    | none ↦ none
    | some (total, used) ↦
        some (record { path = m.path; kind = m.kind; total = total; used = used })
  ]
]

unfoldable pub collect_filesystems :
    (String → Option (ℕ × ℕ × ℕ)) → ℕ → List Mount → List FilesystemUsage
collect_filesystems statfs zero mounts = []
collect_filesystems statfs (suc left) [] = []
collect_filesystems statfs (suc left) (m ∷ ms) = elim (usage_of statfs m) [
  | none ↦ collect_filesystems statfs (suc left) ms
  | some u ↦ u ∷ collect_filesystems statfs left ms
]
