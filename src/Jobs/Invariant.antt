-- ===== src/Jobs/Invariant.antt =====
-- What holds of the tables of jobs over any order of requests.
use silent_devops.Prelude.{
  String, ◌≡◌, refl, sym, ap, ◌∙◌, inl, inr, Bool, true, false, not, ◌&&◌, some, List, [], ◌∷◌,
  arith, str_eq, str_eq_iff, Bool-cases, exists-update, exists-same, update, exists,
}
use silent_devops.Protocol.{Job}
use silent_devops.Registry.{new}
use silent_devops.Jobs.{Row, Event, Tables, Server, clashes, job_row}
use silent_devops.Jobs.Close.{find_row, is_active}
use silent_devops.Jobs.Change.{
  Request, after, serve, Change, unchanged, recorded, doubted, stopped, reported, after-Change,
}
use silent_devops.Jobs.Recorded.{Recorded}

-- No two rows share an identifier, a dispatch identifier, or an agent with an idempotency key.
abbrev pub unique : List Row → Bool
unique [] = true
unique (row ∷ rows) = not (exists (clashes row) rows) && unique rows

-- Each job has an audit event that names it.
pub record Valid (t : Tables) : Type 0 where
  pub distinct : unique t.jobs ≡ true
  pub audited :
      (id : String)
      → exists (λ (row : Row). str_eq row.id id) t.jobs ≡ true
      → exists (λ (event : Event). str_eq event.job_id id) t.audit ≡ true

-- An update that keeps the keys of each row keeps the tables valid.
record KeepsKeys (f : Row → Row) : Type 0 where
  pub id : (row : Row) → (f row).id ≡ row.id
  pub old : (row other : Row) → clashes other (f row) ≡ clashes other row
  pub new : (row other : Row) → clashes (f row) other ≡ clashes row other

unique-update :
    (p : Row → Bool) (f : Row → Row) (rows : List Row)
    → KeepsKeys f
    → unique (update p f rows) ≡ unique rows
unique-update p f [] k = refl
unique-update p f (row ∷ rows) k =
    let same = unique-update p f rows k in
    let others = λ (new : Row). exists-update (clashes new) p f rows (λ x. k.old x new) in
    elim (Bool-cases (p row)) [
      | inl hit ↦
          rw (hit, same, others (f row))
            (rw (exists-same (clashes (f row)) (clashes row) rows (λ x. k.new row x)) refl)
      | inr miss ↦ rw (miss, same, others row) refl
    ]

update-Valid :
    (t : Tables) (p : Row → Bool) (f : Row → Row)
    → KeepsKeys f
    → Valid t
    → Valid (record t { jobs = update p f t.jobs })
update-Valid t p f k v = record {
  distinct = unique-update p f t.jobs k ∙ v.distinct;
  audited = λ id there. v.audited id (
      sym (
        exists-update (λ (row : Row). str_eq row.id id) p f t.jobs
          (λ x. ap (λ (i : String). str_eq i id) (k.id x)))
      ∙ there);
}

Recorded-Valid :
    (t t' : Tables) (j : Job) (kind audit : String)
    → Recorded t t' j kind audit
    → Valid t
    → Valid t'
Recorded-Valid t t' j kind audit rec v = record {
  distinct = rw rec.jobs (ground (arith, rec.unique, v.distinct));
  audited = λ id there.
      let here : exists (λ (row : Row). str_eq row.id id) (job_row j kind ∷ t.jobs) ≡ true =
        ap (exists (λ (row : Row). str_eq row.id id)) (sym rec.jobs) ∙ there in
      rw rec.audited (elim (Bool-cases (str_eq j.id id)) [
        | inl hit ↦ ground arith
        | inr miss ↦ ground (arith, v.audited id)
      ]);
}

Change-Valid : (t t' : Tables) → Change t t' → Valid t → Valid t'
Change-Valid t t' (unchanged same) v = rw same v
Change-Valid t t' (recorded j kind audit rec) v = Recorded-Valid t t' j kind audit rec v
Change-Valid t t' (doubted j kind audit t1 rec same) v = rw same (
    update-Valid t1 _ _
      (record { id = λ row. refl; old = λ row other. refl; new = λ row other. refl })
      (Recorded-Valid t t1 j kind audit rec v))
Change-Valid t t' (stopped id same) v = rw same (
    update-Valid t _ _
      (record { id = λ row. refl; old = λ row other. refl; new = λ row other. refl }) v)
Change-Valid t t' (reported agent result same) v = rw same (
    update-Valid t _ _
      (record { id = λ row. refl; old = λ row other. refl; new = λ row other. refl }) v)

-- Whatever the requests, their order, and the statements that fail: no two jobs come to share an
-- identifier, a dispatch identifier, or an agent with an idempotency key, and each job has an audit
-- event that names it, when this holds at the start.
pub serve-Valid :
    (s : Server) (requests : List Request) → Valid s.tables → Valid (serve s requests).tables
unfolding serve
serve-Valid s [] v = v
serve-Valid s (q ∷ more) v =
    serve-Valid (after s q) more (Change-Valid s.tables (after s q).tables (after-Change s q) v)

-- A row keeps its place and its values under a change, once its job is no longer active.
find_row-id :
    (rows : List Row) (id : String) (row : Row) → find_row rows id ≡ some row → row.id ≡ id
find_row-id [] id row h = absurd (ground arith)
find_row-id (x ∷ rows) id row h = elim (Bool-cases (str_eq x.id id)) [
  | inl hit ↦ ground (arith, str_eq_iff x.id id)
  | inr miss ↦ find_row-id rows id row (ground arith)
]

find_row-update :
    (p : Row → Bool) (f : Row → Row) (rows : List Row) (id : String) (row : Row)
    → ((x : Row) → (f x).id ≡ x.id)
    → p row ≡ false
    → find_row rows id ≡ some row
    → find_row (update p f rows) id ≡ some row
find_row-update p f [] id row keeps out h = h
find_row-update p f (x ∷ rows) id row keeps out h = elim (Bool-cases (str_eq x.id id)) [
  | inl hit ↦
      let same : x ≡ row = ground arith in
      let missed : p x ≡ false = rw same out in rw (missed, hit, same) refl
  | inr miss ↦
      let rest = find_row-update p f rows id row keeps out (ground arith) in
      elim (Bool-cases (p x)) [
        | inl chosen ↦ rw (chosen, keeps x, miss) rest
        | inr passed ↦ rw (passed, miss) rest
      ]
]

new_id :
    (new : Row) (rows : List Row) (id : String) (row : Row)
    → exists (clashes new) rows ≡ false
    → find_row rows id ≡ some row
    → str_eq new.id id ≡ false
new_id new [] id row apart h = absurd (ground arith)
new_id new (x ∷ rows) id row apart h = elim (Bool-cases (str_eq x.id id)) [
  | inl hit ↦ ground (arith, str_eq_iff x.id id, str_eq_iff x.id new.id, str_eq_iff new.id id)
  | inr miss ↦ new_id new rows id row (ground arith) (ground arith)
]

Recorded-keeps :
    (t t' : Tables) (j : Job) (kind audit id : String) (row : Row)
    → Recorded t t' j kind audit
    → find_row t.jobs id ≡ some row
    → (find_row t'.jobs id ≡ some row) × (str_eq j.id id ≡ false)
Recorded-keeps t t' j kind audit id row rec h =
    let other = new_id (job_row j kind) t.jobs id row rec.unique h in
    (rw (rec.jobs, other) h, other)

Change-keeps :
    (t t' : Tables) (id : String) (row : Row)
    → Change t t'
    → is_active row.state ≡ false
    → find_row t.jobs id ≡ some row
    → find_row t'.jobs id ≡ some row
Change-keeps t t' id row (unchanged same) over h = rw same h
Change-keeps t t' id row (recorded j kind audit rec) over h =
    (Recorded-keeps t t' j kind audit id row rec h).0
Change-keeps t t' id row (doubted j kind audit t1 rec same) over h =
    let (stays, other) = Recorded-keeps t t1 j kind audit id row rec h in
    let own = find_row-id t.jobs id row h in
    rw same (
      find_row-update _ _ t1.jobs id row (λ x. refl)
        (ground (arith, str_eq_iff row.id j.id, str_eq_iff j.id id)) stays)
Change-keeps t t' id row (stopped stop same) over h =
    rw same (find_row-update _ _ t.jobs id row (λ x. refl) (ground arith) h)
Change-keeps t t' id row (reported agent result same) over h =
    rw same (find_row-update _ _ t.jobs id row (λ x. refl) (ground arith) h)

-- Once a job is in a state other than dispatched and running, its row stays as it is (its state, its
-- output, all of it) whatever requests follow.
pub serve-keeps :
    (s : Server) (requests : List Request) (id : String) (row : Row)
    → is_active row.state ≡ false
    → find_row s.tables.jobs id ≡ some row
    → find_row (serve s requests).tables.jobs id ≡ some row
unfolding serve
serve-keeps s [] id row over h = h
serve-keeps s (q ∷ more) id row over h =
    serve-keeps (after s q) more id row over
      (Change-keeps s.tables (after s q).tables id row (after-Change s q) over h)
