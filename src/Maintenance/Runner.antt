-- ===== src/Maintenance/Runner.antt =====
-- `Runner.Run` and `limitedBuffer` of internal/maintenance/maintenance.go. The process is what it
-- writes and how it ends: os/exec and the kernel are not modelled.
use Prim.Native.Nat.{min}
use silent_devops.Prelude.{
  ℕ, zero, suc, ◌+◌, ◌-◌, ◌^◌, ◌≤◌, ◌<◌, ◌≡◌, refl, sym, ap, ◌∙◌, inl, inr, Bool, true, false, ◌||◌,
  Option, none, some, List, [], ◌∷◌, ◌++◌, arith, ltb, leb, ◌==◌, if◌then◌else◌, Bool-cases, length,
  take, append_assoc, length-append, length-take,
}
use silent_devops.Protocol.{failed}

pub data RunError : Type 0 where
  limit_required start_failed exit_failed cancelled_run deadline_exceeded : RunError

pub record RunResult : Type 0 where
  pub output : List ℕ
  pub exit_code : ℕ
  pub truncated : Bool
  pub error : Option RunError

pub record LimitedBuffer : Type 0 where
  pub bytes : List ℕ
  pub most : ℕ
  pub truncated : Bool

-- `Write`
abbrev pub write : LimitedBuffer → List ℕ → LimitedBuffer
write b p =
    if leb b.most (length b.bytes)
    then record b { truncated = true }
    else if ltb (b.most - length b.bytes) (length p)
    then record b { truncated = true; bytes = b.bytes ++ take (b.most - length b.bytes) p }
    else record b { bytes = b.bytes ++ p }

unfoldable pub write_all : LimitedBuffer → List (List ℕ) → LimitedBuffer
write_all b [] = b
write_all b (p ∷ more) = write_all (write b p) more

-- How a process goes: it does not start, it ends with a code (and an error where that is not 0), or
-- the context ends first, and it is killed. The writes are those up to its end. Exit code -1 of a
-- killed process is 2^32 - 1 here, as the int32 of a job result.
pub data Process : Type 0 where
  unstarted : Process
  ended : List (List ℕ) → ℕ → Bool → Process
  killed : List (List ℕ) → RunError → Process

unfoldable pub collected : ℕ → List (List ℕ) → LimitedBuffer
unfolding write_all
collected most writes = write_all (record { bytes = []; most = most; truncated = false }) writes

unfoldable pub run_process : ℕ → Process → RunResult
unfolding collected
run_process most p =
    if most == 0
    then record { output = []; exit_code = 0; truncated = false; error = some limit_required }
    else elim p [
      | unstarted ↦ record {
        output = [];
        exit_code = 0;
        truncated = false;
        error = some start_failed;
      }
      | ended writes code failed ↦ record {
        output = (collected most writes).bytes;
        exit_code = code;
        truncated = (collected most writes).truncated;
        error = if failed then some exit_failed else none;
      }
      | killed writes why ↦ record {
        output = (collected most writes).bytes;
        exit_code = 2 ^ 32 - 1;
        truncated = (collected most writes).truncated;
        error = some why;
      }
    ]

abbrev pub concat : List (List ℕ) → List ℕ
concat [] = []
concat (p ∷ more) = p ++ concat more

take-all : (n : ℕ) (xs : List ℕ) → length xs ≤ n → take n xs ≡ xs
take-all zero [] h = refl
take-all (suc n) [] h = refl
take-all zero (x ∷ xs) h = absurd (omega arith)
take-all (suc n) (x ∷ xs) h = ap (λ ys. x ∷ ys) (take-all n xs (omega arith))

take-append :
    (n : ℕ) (xs ys : List ℕ) → length xs ≤ n → take n (xs ++ ys) ≡ xs ++ take (n - length xs) ys
take-append n [] ys h = let same : n ≡ n - 0 = omega arith in ap (λ k. take k ys) same
take-append zero (x ∷ xs) ys h = absurd (omega arith)
take-append (suc n) (x ∷ xs) ys h =
    let same : n - length xs ≡ suc n - suc (length xs) = omega arith in
    ap (λ t. x ∷ t) (take-append n xs ys (omega arith) ∙ ap (λ k. xs ++ take k ys) same)

append-nil : (xs : List ℕ) → xs ++ [] ≡ xs
append-nil [] = refl
append-nil (x ∷ xs) = ap (λ ys. x ∷ ys) (append-nil xs)

take-take : (n : ℕ) (xs ys : List ℕ) → take n (take n xs ++ ys) ≡ take n (xs ++ ys)
take-take zero xs ys = refl
take-take (suc n) [] ys = refl
take-take (suc n) (x ∷ xs) ys = ap (λ t. x ∷ t) (take-take n xs ys)

write-most : (b : LimitedBuffer) (p : List ℕ) → (write b p).most ≡ b.most
write-most b p = ground arith

write-bytes :
    (b : LimitedBuffer) (p : List ℕ)
    → length b.bytes ≤ b.most
    → (write b p).bytes ≡ take b.most (b.bytes ++ p)
write-bytes b p fits = elim (Bool-cases (leb b.most (length b.bytes))) [
  | inl full ↦
      let none_left : 0 ≡ b.most - length b.bytes = ground arith in
      rw full (
        sym (
          take-append b.most b.bytes p fits
          ∙ ap (λ k. b.bytes ++ take k p) (sym none_left)
          ∙ append-nil b.bytes))
  | inr room ↦ elim (Bool-cases (ltb (b.most - length b.bytes) (length p))) [
    | inl cut ↦ rw (room, cut) (sym (take-append b.most b.bytes p fits))
    | inr whole ↦
        let short : length (b.bytes ++ p) ≤ b.most = ground (arith, length-append b.bytes p) in
        rw (room, whole) (sym (take-all b.most (b.bytes ++ p) short))
  ]
]

write-flag :
    (b : LimitedBuffer) (p : List ℕ)
    → length b.bytes ≤ b.most
    → 0 < length p
    → (write b p).truncated ≡ (b.truncated || ltb b.most (length b.bytes + length p))
write-flag b p fits bytes = ground arith

write-length :
    (b : LimitedBuffer) (p : List ℕ)
    → length b.bytes ≤ b.most
    → length (write b p).bytes ≡ length (take b.most (b.bytes ++ p))
write-length b p fits = ap (λ (xs : List ℕ). length xs) (write-bytes b p fits)

write_all-bytes :
    (b : LimitedBuffer) (writes : List (List ℕ))
    → length b.bytes ≤ b.most
    → (write_all b writes).bytes ≡ take b.most (b.bytes ++ concat writes)
unfolding write_all
write_all-bytes b [] fits =
    sym (ap (λ xs. take b.most xs) (append-nil b.bytes) ∙ take-all b.most b.bytes fits)
write_all-bytes b (p ∷ more) fits =
    let len = write-length b p fits in
    let cut = length-take b.most (b.bytes ++ p) in
    let most = write-most b p in
    let still : length (write b p).bytes ≤ (write b p).most = ground arith in
    write_all-bytes (write b p) more still
    ∙ ap (λ n. take n ((write b p).bytes ++ concat more)) most
    ∙ ap (λ xs. take b.most (xs ++ concat more)) (write-bytes b p fits)
    ∙ take-take b.most (b.bytes ++ p) (concat more)
    ∙ ap (λ xs. take b.most xs) (append_assoc b.bytes p (concat more))

abbrev pub Nonempty : List (List ℕ) → Type 0
Nonempty [] = Unit
Nonempty (p ∷ more) = (0 < length p) × Nonempty more

flag_joined :
    (t : Bool) (m l p c cut : ℕ)
    → cut ≡ min m (l + p)
    → ((t || ltb m (l + p)) || ltb m (cut + c)) ≡ (t || ltb m (l + (p + c)))
flag_joined true m l p c cut h = refl
flag_joined false m l p c cut h = ground arith

write_all-flag :
    (b : LimitedBuffer) (writes : List (List ℕ))
    → length b.bytes ≤ b.most
    → Nonempty writes
    → (write_all b writes).truncated
      ≡ (b.truncated || ltb b.most (length b.bytes + length (concat writes)))
unfolding write_all
write_all-flag b [] fits n = ground arith
write_all-flag b (p ∷ more) fits (n, ns) =
    let len = write-length b p fits in
    let cut = length-take b.most (b.bytes ++ p) in
    let sum = length-append b.bytes p in
    let cut_is : length (write b p).bytes ≡ min b.most (length b.bytes + length p) = omega arith in
    let whole = length-append p (concat more) in
    let most = write-most b p in
    let still : length (write b p).bytes ≤ (write b p).most = ground arith in
    let flag = write-flag b p fits n in
    let rest = write_all-flag (write b p) more still ns in
    rest
    ∙ rw (flag, most) refl
    ∙ flag_joined b.truncated b.most (length b.bytes) (length p) (length (concat more)) _ cut_is
    ∙ ap (λ k. b.truncated || ltb b.most (length b.bytes + k)) (sym whole)

-- Whatever a process writes, in whatever pieces (none of them empty), a run that has an output limit
-- and does start reports the first bytes of it up to the limit, and says that it is truncated exactly
-- when there was more.
pub run_process_output :
    (most : ℕ) (writes : List (List ℕ)) (code : ℕ) (failed : Bool) (why : RunError)
    → 0 < most
    → Nonempty writes
    → ((run_process most (ended writes code failed)).output ≡ take most (concat writes))
      × ((run_process most (ended writes code failed)).truncated
          ≡ ltb most (length (concat writes)))
      × ((run_process most (killed writes why)).output ≡ take most (concat writes))
      × ((run_process most (killed writes why)).truncated ≡ ltb most (length (concat writes)))
unfolding run_process collected
run_process_output most writes code failed why limit pieces =
    let b : LimitedBuffer = record { bytes = []; most = most; truncated = false } in
    let bytes = write_all-bytes b writes (omega arith) in
    let flag = write_all-flag b writes (omega arith) pieces in
    let on : (most == 0) ≡ false = ground arith in
    let size : 0 + length (concat writes) ≡ length (concat writes) = omega arith in
    let known = flag ∙ ap (λ n. ltb most n) size in
    (rw on bytes, rw on known, rw on bytes, rw on known)
