-- ===== src/Jobs/Output.antt =====
-- The loop of `StreamJobOutput` in internal/server/output.go, on a stream that takes each chunk.
use silent_devops.Prelude.{
  ℕ, zero, suc, ◌+◌, ◌-◌, ◌*◌, ◌%◌, ◌^◌, ◌≤◌, ◌<◌, String, ◌≡◌, refl, sym, ap, ◌∙◌, inl, inr, Bool,
  true, false, none, some, List, [], ◌∷◌, ◌++◌, arith, ltb, ◌==◌, if◌then◌else◌, Bool-cases, length,
  take, drop, length-take, Result, ok, err,
}
use silent_devops.Protocol.{Code}
use silent_devops.Jobs.{Tables}
use silent_devops.Jobs.Close.{find_row, is_active}

pub record OutputChunk : Type 0 where
  pub job_id : String
  pub sequence : ℕ
  pub bytes : List ℕ
  pub final : Bool

abbrev pub chunk : ℕ
chunk = 32 * 1024

abbrev pub end_of : ℕ → ℕ → ℕ
end_of start size = let end = start + chunk in if ltb size end then size else end

make_chunk : String → List ℕ → ℕ → ℕ → OutputChunk
make_chunk id output sequence start = record {
  job_id = id;
  sequence = sequence;
  bytes = take (end_of start (length output) - start) (drop start output);
  final = end_of start (length output) == length output;
}

-- The loop; `fuel` bounds its rounds, and the length of the output is enough.
chunks_from : ℕ → String → List ℕ → ℕ → ℕ → List OutputChunk
unfolding make_chunk
chunks_from zero id output sequence start = []
chunks_from (suc fuel) id output sequence start =
    let rest = chunks_from fuel id output ((sequence + 1) % 2 ^ 32) (start + chunk) in
    if ltb start (length output) then make_chunk id output sequence start ∷ rest else []

pub output_chunks : String → List ℕ → List OutputChunk
unfolding chunks_from
output_chunks id output =
    if length output == 0
    then record { job_id = id; sequence = 0; bytes = []; final = true } ∷ []
    else chunks_from (length output) id output 0 0

pub stream_output : Tables → Bool → String → Result Code (List OutputChunk)
unfolding output_chunks
stream_output t fails id = if fails then err Code.not_found else elim (find_row t.jobs id) [
  | none ↦ err Code.not_found
  | some row ↦
      if is_active row.state then err Code.failed_precondition else ok (output_chunks id row.output)
]

-- The bytes of chunks in their order.
abbrev pub joined : List OutputChunk → List ℕ
joined [] = []
joined (c ∷ cs) = c.bytes ++ joined cs

-- Only the last chunk is final, no chunk is longer than 32 KiB, and sequences count from `n`.
pub data WellEnded : ℕ → List OutputChunk → Type 0 where
  last :
      (n : ℕ) (c : OutputChunk)
      → c.sequence ≡ n
      → c.final ≡ true
      → length c.bytes ≤ chunk
      → WellEnded n (c ∷ [])
  more :
      (n : ℕ) (c : OutputChunk) (cs : List OutputChunk)
      → c.sequence ≡ n
      → c.final ≡ false
      → length c.bytes ≤ chunk
      → WellEnded ((n + 1) % 2 ^ 32) cs
      → WellEnded n (c ∷ cs)

take-drop_append : (k : ℕ) (xs : List ℕ) → take k xs ++ drop k xs ≡ xs
take-drop_append zero xs = refl
take-drop_append (suc k) [] = refl
take-drop_append (suc k) (x ∷ xs) = ap (λ ys. x ∷ ys) (take-drop_append k xs)

drop_all : (n : ℕ) (xs : List ℕ) → length xs ≤ n → drop n xs ≡ []
drop_all zero [] h = refl
drop_all (suc n) [] h = refl
drop_all zero (x ∷ xs) h = absurd (omega arith)
drop_all (suc n) (x ∷ xs) h = drop_all n xs (omega arith)

drop-drop : (s k : ℕ) (xs : List ℕ) → drop k (drop s xs) ≡ drop (s + k) xs
drop-drop zero k xs = let same : k ≡ 0 + k = omega arith in ap (λ n. drop n xs) same
drop-drop (suc s) k [] = drop_all k [] (omega arith) ∙ sym (drop_all (suc s + k) [] (omega arith))
drop-drop (suc s) k (x ∷ xs) =
    let same : suc (s + k) ≡ suc s + k = omega arith in
    drop-drop s k xs ∙ ap (λ n. drop n (x ∷ xs)) same

module _ (id : String) (output : List ℕ) where
  chunks_past :
      (fuel sequence start : ℕ)
      → length output ≤ start
      → chunks_from fuel id output sequence start ≡ []
  unfolding chunks_from
  chunks_past zero sequence start past = refl
  chunks_past (suc fuel) sequence start past = ground arith

  drop_end : (start : ℕ) → drop (end_of start (length output)) output ≡ drop (start + chunk) output
  drop_end start = elim (Bool-cases (ltb (length output) (start + chunk))) [
    | inl over ↦
        rw (over, drop_all (length output) output (omega arith))
          (sym (drop_all (start + chunk) output (ground arith)))
    | inr within ↦ rw within refl
  ]

  end_after :
      (start : ℕ)
      → start ≤ length output
      → start + (end_of start (length output) - start) ≡ end_of start (length output)
  end_after start h = ground arith

  one_chunk :
      (start : ℕ)
      → start ≤ length output
      → take (end_of start (length output) - start) (drop start output)
          ++ drop (start + chunk) output
        ≡ drop start output
  one_chunk start h =
      let k = end_of start (length output) - start in
      ap (λ ys. take k (drop start output) ++ ys)
        (sym (drop_end start)
          ∙ ap (λ n. drop n output) (sym (end_after start h))
          ∙ sym (drop-drop start k output))
      ∙ take-drop_append k (drop start output)

  chunks-joined :
      (fuel sequence start : ℕ)
      → length output ≤ start + fuel
      → joined (chunks_from fuel id output sequence start) ≡ drop start output
  unfolding chunks_from make_chunk
  chunks-joined zero sequence start enough = sym (drop_all start output (omega arith))
  chunks-joined (suc fuel) sequence start enough = elim (Bool-cases (ltb start (length output))) [
    | inl inside ↦
        let rest = chunks-joined fuel ((sequence + 1) % 2 ^ 32) (start + chunk) (omega arith) in
        rw (inside, rest) (one_chunk start (ground arith))
    | inr past ↦ rw past (sym (drop_all start output (ground arith)))
  ]

  size-take :
      (start : ℕ) → length (take (end_of start (length output) - start) (drop start output)) ≤ chunk
  size-take start =
      let short : end_of start (length output) - start ≤ chunk = ground arith in
      rw (length-take (end_of start (length output) - start) (drop start output)) (omega arith)

  chunks-WellEnded :
      (fuel sequence start : ℕ)
      → start < length output
      → length output ≤ start + fuel
      → WellEnded sequence (chunks_from fuel id output sequence start)
  unfolding chunks_from make_chunk
  chunks-WellEnded zero sequence start inside enough = absurd (omega arith)
  chunks-WellEnded (suc fuel) sequence start inside enough =
      let inside_too : ltb start (length output) ≡ true = ground arith in
      elim (Bool-cases (end_of start (length output) == length output)) [
        | inl final ↦
            let past = chunks_past fuel ((sequence + 1) % 2 ^ 32) (start + chunk) (ground arith) in
            rw (inside_too, past)
              (last sequence (make_chunk id output sequence start) refl final (size-take start))
        | inr going ↦
            let rest =
              chunks-WellEnded fuel ((sequence + 1) % 2 ^ 32) (start + chunk) (ground arith)
                (omega arith) in
            rw inside_too (
              more sequence (make_chunk id output sequence start) _ refl going (size-take start)
                rest)
      ]

  -- The chunks of an output carry its bytes in their order, none is longer than 32 KiB, they are
  -- numbered from 0 (modulo 2^32), and the last one, and only the last one, is final. An empty output
  -- has one chunk, which is empty.
  pub output_chunks_whole :
      (joined (output_chunks id output) ≡ output) × WellEnded 0 (output_chunks id output)
  unfolding output_chunks
  output_chunks_whole = elim (Bool-cases (length output == 0)) [
    | inl empty ↦ rw empty (
      sym (drop_all 0 output (ground arith)),
      last 0 (record { job_id = id; sequence = 0; bytes = []; final = true }) refl refl
          (omega arith),
    )
    | inr some_bytes ↦ rw some_bytes (
      chunks-joined (length output) 0 0 (omega arith),
      chunks-WellEnded (length output) 0 0 (ground arith) (omega arith),
    )
  ]
