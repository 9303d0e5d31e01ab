-- ===== src/Jobs/Results.antt =====
-- Which job results the validator takes.
use silent_devops.Prelude.{
  String, ◌≡◌, refl, ◌⊎◌, inl, inr, Bool, true, false, none, some, List, [], ◌∷◌, arith, str_eq,
  str_eq_iff, Bool-cases, Option-cases, affected, update, exists, Result, ok, err,
}
use silent_devops.Protocol.{dispatched, running, JobResult}
use silent_devops.Jobs.{Row, Tables, clashes}
use silent_devops.Jobs.Close.{
  find_row, ResultError, unknown_or_stale, result_matches, finish, job_result,
}
use silent_devops.Jobs.Invariant.{unique, Valid}

module _ (p : Row → Bool) (f : Row → Row) (id : String)
    (of_id : (row : Row) → p row ≡ true → str_eq row.id id ≡ true)
    (keeps : (row : Row) → (f row).id ≡ row.id) where
  no_row :
      (rows : List Row) → find_row rows id ≡ none → (affected p rows ≡ 0) × (update p f rows ≡ rows)
  no_row [] h = (refl, refl)
  no_row (x ∷ rows) h = elim (Bool-cases (str_eq x.id id)) [
    | inl hit ↦ absurd (ground arith)
    | inr miss ↦
        let (none_hit, same) = no_row rows (ground arith) in
        let passed : p x ≡ false = ground (arith, of_id x) in
        (rw (passed, none_hit) refl, rw (passed, same) refl)
  ]

  apart :
      (x : Row) (rows : List Row)
      → str_eq x.id id ≡ true
      → exists (clashes x) rows ≡ false
      → find_row rows id ≡ none
  apart x [] own h = refl
  apart x (y ∷ rows) own h =
      let rest = apart x rows own (ground arith) in
      let other : str_eq y.id id ≡ false =
        ground (arith, str_eq_iff x.id id, str_eq_iff y.id x.id, str_eq_iff y.id id) in
      rw (other) rest

  hit_row :
      (rows : List Row) (row : Row)
      → unique rows ≡ true
      → find_row rows id ≡ some row
      → p row ≡ true
      → (affected p rows ≡ 1) × (find_row (update p f rows) id ≡ some (f row))
  hit_row [] row u h good = absurd (ground arith)
  hit_row (x ∷ rows) row u h good = elim (Bool-cases (str_eq x.id id)) [
    | inl hit ↦
        let same : x ≡ row = ground arith in
        let chosen : p x ≡ true = rw same good in
        let (none_hit, stays) = no_row rows (apart x rows hit (ground arith)) in
        let moved : str_eq (f x).id id ≡ true = rw (keeps x) hit in
        (rw (chosen, none_hit) refl, rw (chosen, moved, same) refl)
    | inr miss ↦
        let passed : p x ≡ false = ground (arith, of_id x) in
        let (one, found) = hit_row rows row (ground arith) (ground arith) good in
        (rw (passed, one) refl, rw (passed, miss) found)
  ]

  miss_row :
      (rows : List Row) (row : Row)
      → unique rows ≡ true
      → find_row rows id ≡ some row
      → p row ≡ false
      → (affected p rows ≡ 0) × (update p f rows ≡ rows)
  miss_row [] row u h bad = absurd (ground arith)
  miss_row (x ∷ rows) row u h bad = elim (Bool-cases (str_eq x.id id)) [
    | inl hit ↦
        let same : x ≡ row = ground arith in
        let passed : p x ≡ false = rw same bad in
        let (none_hit, stays) = no_row rows (apart x rows hit (ground arith)) in
        (rw (passed, none_hit) refl, rw (passed, stays) refl)
    | inr miss ↦
        let passed : p x ≡ false = ground (arith, of_id x) in
        let (zero_hit, stays) = miss_row rows row (ground arith) (ground arith) bad in
        (rw (passed, zero_hit) refl, rw (passed, stays) refl)
  ]

  other_row :
      (rows : List Row) (other : String)
      → str_eq id other ≡ false
      → find_row (update p f rows) other ≡ find_row rows other
  other_row [] other apart = refl
  other_row (x ∷ rows) other apart = elim (Bool-cases (p x)) [
    | inl chosen ↦
        let away : str_eq x.id other ≡ false =
          ground (arith, of_id x, str_eq_iff x.id id, str_eq_iff x.id other, str_eq_iff id other) in
        rw (chosen, keeps x, away) (other_row rows other apart)
    | inr passed ↦ rw (passed, other_row rows other apart) refl
  ]

-- A result that an agent may report of a job, and what the row of the job is then.
pub record Reportable (agent : String) (result : JobResult) (row : Row) : Type 0 where
  pub sender : row.agent_id ≡ agent
  pub dispatch_id : row.dispatch_id ≡ result.dispatch_id
  pub attempt : row.attempt ≡ result.attempt
  pub active : (row.state ≡ dispatched) ⊎ (row.state ≡ running)

-- What becomes of a job result from an agent.
pub data Taken (t : Tables) (agent : String) (result : JobResult)
    (o : Result ResultError (Unit {0}) × Tables) : Type 0 where
  accepted :
      (row : Row)
      → find_row t.jobs result.job_id ≡ some row
      → Reportable agent result row
      → o.0 ≡ ok tt
      → find_row o.1.jobs result.job_id
        ≡ some (record row {
          state = result.state;
          output = result.output;
          output_truncated = result.output_truncated;
        })
      → Taken t agent result o
  stale :
      ((row : Row) → find_row t.jobs result.job_id ≡ some row → ¬ (Reportable agent result row))
      → o ≡ (err unknown_or_stale, t)
      → Taken t agent result o

matches-Reportable :
    (agent : String) (result : JobResult) (row : Row)
    → result_matches agent result row ≡ true
    → Reportable agent result row
matches-Reportable agent result row h = record {
  sender = ground (arith, str_eq_iff row.agent_id agent);
  dispatch_id = ground (arith, str_eq_iff row.dispatch_id result.dispatch_id);
  attempt = ground arith;
  active = ground arith;
}

Reportable-matches :
    (agent : String) (result : JobResult) (row : Row)
    → str_eq row.id result.job_id ≡ true
    → Reportable agent result row
    → result_matches agent result row ≡ true
Reportable-matches agent result row own good = ground (
  arith,
  own,
  good.sender,
  good.dispatch_id,
  good.attempt,
  good.active,
  str_eq_iff row.agent_id agent,
  str_eq_iff row.dispatch_id result.dispatch_id,
)

find_row-own :
    (rows : List Row) (id : String) (row : Row)
    → find_row rows id ≡ some row
    → str_eq row.id id ≡ true
find_row-own [] id row h = absurd (ground arith)
find_row-own (x ∷ rows) id row h = elim (Bool-cases (str_eq x.id id)) [
  | inl hit ↦ ground arith
  | inr miss ↦ find_row-own rows id row (ground arith)
]

-- In valid tables, a result that the storage takes is accepted exactly when the row of its job is
-- that agent's, has its dispatch identifier and its attempt, and is dispatched or running; the row
-- then carries its state and output, and is else as it was. Any other result is refused as unknown or
-- stale, and changes nothing. The rows of other jobs stay as they are.
pub job_result_exact :
    (t : Tables) (agent : String) (result : JobResult)
    → Valid t
    → Taken t agent result (job_result t false agent result)
      × ((other : String)
          → str_eq result.job_id other ≡ false
          → find_row (job_result t false agent result).1.jobs other ≡ find_row t.jobs other)
unfolding job_result
job_result_exact t agent result v =
    let p = result_matches agent result in
    let f = finish result in
    let of_id : (row : Row) → p row ≡ true → str_eq row.id result.job_id ≡ true =
      λ row h. ground arith in
    (
      elim (Option-cases (find_row t.jobs result.job_id)) [
        | inl missing ↦
            let (zero_hit, stays) = no_row p f result.job_id of_id (λ row. refl) t.jobs missing in
            stale (λ row h. absurd (ground arith)) (rw (zero_hit, stays) refl)
        | inr (row, found) ↦ elim (Bool-cases (p row)) [
          | inl good ↦
              let (one, moved) =
                hit_row p f result.job_id of_id (λ row. refl) t.jobs row v.distinct found good in
              accepted row found (matches-Reportable agent result row good) (rw one refl) moved
          | inr bad ↦
              let (zero_hit, stays) =
                miss_row p f result.job_id of_id (λ row. refl) t.jobs row v.distinct found bad in
              stale
                (λ other h fits.
                  let same : row ≡ other = ground arith in
                  let own = find_row-own t.jobs result.job_id other h in
                  let hit : p row ≡ true =
                    rw same (Reportable-matches agent result other own fits) in
                  ground arith)
                (rw (zero_hit, stays) refl)
        ]
      ],
      λ other away. other_row p f result.job_id of_id (λ row. refl) t.jobs other away,
    )
