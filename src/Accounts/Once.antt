-- ===== src/Accounts/Once.antt =====
-- An invitation is redeemed once.
use silent_devops.Prelude.{
  ℕ, String, ◌≡◌, refl, sym, ap, ◌∙◌, inl, inr, Bool, true, false, not, ◌&&◌, ◌||◌, Option, none,
  some, List, [], ◌∷◌, arith, str_eq_iff, ◌==◌, if◌then◌else◌, Bool-cases, Result-cases,
  or_fail-eq-ok, ok-injective, pairwise, exists-update, exists-update-false, affected, update,
  exists, bytes_eq, bytes_eq_sound, Result, ok, err, map_err-eq-ok, fail_if, or_fail, map_err,
  is_ok, >>=-eq-ok,
}
use silent_devops.Auth.Token.{Bytes}
use silent_devops.Jobs.{to_ms}
use silent_devops.Enrollment.{knows}
use silent_devops.Accounts.{
  UserRow, InvitationRow, AccountError, invitation_invalid, drawing_failed, invitation_exists,
  store_unavailable, secret_invalid, password_invalid, user_exists, same_user, same_invitation,
  user_ids, insert_user, new_user, InvitationRequest, asked_well, is_open_invitation, can_redeem,
  find_row, is_unconsumed, consume_row, can_withdraw, withdraw_row, revoke_invitation,
  set_user_role, Trials, Accounts, hash_password, create_user, creator_value, new_invitation,
  create_invitation, secret_hash_of, redeem,
}

-- The calls that change the users or the invitations.
pub data AccountCall : Type 0 where
  invites : Trials → Option Bytes → String → InvitationRequest → ℕ → AccountCall
  withdraws_invitation : Bool → String → ℕ → AccountCall
  redeems : Trials → String → String → Option Bytes → ℕ → AccountCall
  creates : Trials → Option Bytes → String → String → ℕ → ℕ → AccountCall
  changes_role : Bool → Bool → String → ℕ → AccountCall

-- The secret was issued, and every row of it is closed.
abbrev pub is_spent : Bytes → List InvitationRow → Bool
is_spent hash rows =
    exists (λ (row : InvitationRow). bytes_eq row.secret_hash hash) rows
    && not (
        exists (λ (row : InvitationRow). bytes_eq row.secret_hash hash && is_open_invitation row)
          rows)

abbrev has_hash : Bytes → InvitationRow → Bool
has_hash hash row = bytes_eq row.secret_hash hash

abbrev still_open : Bytes → InvitationRow → Bool
still_open hash row = has_hash hash row && is_open_invitation row

update-spent :
    (hash : Bytes) (p : InvitationRow → Bool) (f : InvitationRow → InvitationRow)
    (rows : List InvitationRow)
    → ((row : InvitationRow) → (f row).secret_hash ≡ row.secret_hash)
    → ((row : InvitationRow) → is_open_invitation (f row) ≡ false)
    → is_spent hash rows ≡ true
    → is_spent hash (update p f rows) ≡ true
update-spent hash p f rows keeps closes h =
    let held = exists-update (has_hash hash) p f rows (λ x. ap (λ s. bytes_eq s hash) (keeps x)) in
    let closed =
      exists-update-false (still_open hash) p f rows (λ x shut. ground (arith, closes x))
        (ground arith) in
    ground (arith, held, closed)

withdrawn_closed :
    (now : ℕ) (row : InvitationRow) → is_open_invitation (withdraw_row now row) ≡ false
withdrawn_closed now row = ground arith

pub find-exists {ℓ} :
    {A : Type ℓ} (p q : A → Bool) (xs : List A) (x : A)
    → ((y : A) → p y ≡ true → q y ≡ true)
    → find_row p xs ≡ some x
    → (exists q xs ≡ true) × (p x ≡ true)
find-exists p q [] x weaker h = absurd cc
find-exists p q (y ∷ ys) x weaker h = elim (Bool-cases (p y)) [
  | inl hit ↦
      let first : some y ≡ some x = sym (ap (λ b. if b then some y else find_row p ys) hit) ∙ h in
      let same : y ≡ x = cc in (rw (weaker y hit) refl, ap p (sym same) ∙ hit)
  | inr miss ↦
      let (rest, good) =
        find-exists p q ys x weaker
          (sym (ap (λ b. if b then some y else find_row p ys) miss) ∙ h) in
      (ground arith, good)
]

-- Rows of another secret are not touched by the question.
alone :
    (hash : Bytes) (x : InvitationRow) (rows : List InvitationRow)
    → has_hash hash x ≡ true
    → exists (same_invitation x) rows ≡ false
    → exists (has_hash hash) rows ≡ false
alone hash x [] own none_same = refl
alone hash x (y ∷ rows) own none_same =
    let same : x.secret_hash ≡ hash = bytes_eq_sound x.secret_hash hash own in
    let other : bytes_eq y.secret_hash x.secret_hash ≡ false = ground arith in
    let apart : has_hash hash y ≡ false = ap (bytes_eq y.secret_hash) (sym same) ∙ other in
    rw apart (alone hash x rows own (ground arith))

shut :
    (hash : Bytes) (rows : List InvitationRow)
    → exists (has_hash hash) rows ≡ false
    → exists (still_open hash) rows ≡ false
shut hash [] h = refl
shut hash (x ∷ rows) h = let rest = shut hash rows (ground arith) in ground arith

redeem-spent :
    (hash : Bytes) (now : ℕ) (rows : List InvitationRow) (row : InvitationRow)
    → pairwise same_invitation rows ≡ true
    → find_row (can_redeem hash now) rows ≡ some row
    → is_spent hash (update (is_unconsumed row.id) (consume_row now) rows) ≡ true
redeem-spent hash now [] row d found = absurd cc
redeem-spent hash now (x ∷ rows) row d found = elim (Bool-cases (can_redeem hash now x)) [
  | inl hit ↦
      let first : some x ≡ some row =
        sym (ap (λ b. if b then some x else find_row (can_redeem hash now) rows) hit) ∙ found in
      let same : x ≡ row = cc in
      let others =
        exists-update (has_hash hash) (is_unconsumed x.id) (consume_row now) rows (λ y. refl)
        ∙ alone hash x rows (ground arith) (ground arith) in
      let closed = shut hash (update (is_unconsumed x.id) (consume_row now) rows) others in
      let own : has_hash hash x ≡ true = ground arith in
      let taken : is_unconsumed x.id x ≡ true = ground (arith, str_eq_iff x.id x.id) in
      let here : is_spent hash (update (is_unconsumed x.id) (consume_row now) (x ∷ rows)) ≡ true =
        rw (taken, own, closed) refl in
      ap
        (λ (r : InvitationRow).
          is_spent hash (update (is_unconsumed r.id) (consume_row now) (x ∷ rows)))
        (sym same)
      ∙ here
  | inr miss ↦
      let later =
        sym (ap (λ b. if b then some x else find_row (can_redeem hash now) rows) miss) ∙ found in
      let rest = redeem-spent hash now rows row (ground arith) later in
      let (held, good) =
        find-exists (can_redeem hash now) (has_hash hash) rows row (λ y ready. ground arith)
          later in
      let foreign : has_hash hash x ≡ false = elim (Bool-cases (has_hash hash x)) [
        | inr other ↦ other
        | inl own ↦ absurd (ground (arith, alone hash x rows own (ground arith)))
      ] in
      elim (Bool-cases (is_unconsumed row.id x)) [
        | inl changed ↦ rw (changed, foreign) rest
        | inr kept ↦ rw (kept, foreign) rest
      ]
]

-- No open row, no redemption.
spent-refused :
    (hash : Bytes) (now : ℕ) (rows : List InvitationRow)
    → exists (still_open hash) rows ≡ false
    → find_row (can_redeem hash now) rows ≡ none
spent-refused hash now [] h = refl
spent-refused hash now (x ∷ rows) h =
    let not_x : can_redeem hash now x ≡ false = ground arith in
    rw not_x (spent-refused hash now rows (ground arith))

insert-spent :
    (hash : Bytes) (row : InvitationRow) (rows : List InvitationRow)
    → exists (same_invitation row) rows ≡ false
    → is_spent hash rows ≡ true
    → is_spent hash (row ∷ rows) ≡ true
insert-spent hash row rows fresh h = elim (Bool-cases (has_hash hash row)) [
  | inl own ↦ absurd (ground (arith, alone hash row rows own fresh))
  | inr other ↦ rw other h
]

module _ (argon2 : String → Bytes → ℕ → Bytes) (write_hash : Bytes → Bytes → String)
    (read_hash : String → Option (Bytes × Bytes)) (password_size : String → ℕ)
    (sha256 : Bytes → Bytes) (decode : String → Option Bytes) (is_local : String → Bool) where
  abbrev pub keep_invitations : Accounts → Result AccountError (List InvitationRow) → Accounts
  keep_invitations a (err why) = a
  keep_invitations a (ok rows) = record a { invitations = rows }

  abbrev pub keep_users : Accounts → Result AccountError (List UserRow) → Accounts
  keep_users a (err why) = a
  keep_users a (ok users) = record a { users = users }

  abbrev pub keep_redeemed : Accounts → Result AccountError (UserRow × Accounts) → Accounts
  keep_redeemed a (err why) = a
  keep_redeemed a (ok (user, a')) = a'

  -- The tables after a call
  unfoldable pub step_account : Accounts → AccountCall → Accounts
  step_account a (invites t drawn subject r now) = keep_invitations a (
      create_invitation argon2 write_hash read_hash password_size sha256 decode is_local a t drawn
        subject r now)
  step_account a (withdraws_invitation fails id now) = record a {
    invitations = (revoke_invitation a.invitations fails id now).1;
  }
  step_account a (redeems t secret password salt now) =
      keep_redeemed a (
        redeem argon2 write_hash read_hash password_size sha256 decode a t secret password salt now)
  step_account a (creates t salt username password role now) = keep_users a (
      create_user argon2 write_hash read_hash password_size sha256 decode a.users t salt username
        password role now)
  step_account a (changes_role fails unread id role) = record a {
    users = (set_user_role a.users fails unread id role).1;
  }

  unfoldable pub run_accounts : Accounts → List AccountCall → Accounts
  run_accounts a [] = a
  run_accounts a (call ∷ calls) = run_accounts (step_account a call) calls

  -- What a redemption that succeeds has done.
  pub redeemed :
      (a : Accounts) (t : Trials) (secret password : String) (salt : Option Bytes) (now : ℕ)
      (o : UserRow × Accounts)
      → redeem argon2 write_hash read_hash password_size sha256 decode a t secret password salt now
        ≡ ok o
      → (hash : Bytes) × (row : InvitationRow) × (id encoded : String) × (secret_hash_of argon2
            write_hash read_hash password_size sha256 decode secret
          ≡ some hash)
        × (find_row (can_redeem hash (to_ms now)) a.invitations ≡ some row)
        × (o.1.invitations ≡ update (is_unconsumed row.id) (consume_row (to_ms now)) a.invitations)
        × (hash_password argon2 write_hash read_hash password_size sha256 decode password salt
            ≡ ok encoded)
        × (o.0 ≡ new_user id row.username encoded row.role (to_ms now))
        × (o.1.users ≡ o.0 ∷ a.users)
  unfolding redeem insert_user
  redeemed a t secret password salt now o done =
      let (hash, known, a1) =
        >>=-eq-ok
          (or_fail (secret_hash_of argon2 write_hash read_hash password_size sha256 decode secret)
            secret_invalid)
          _ done in
      let (encoded, hashed, a2) =
        >>=-eq-ok
          (map_err
            (hash_password argon2 write_hash read_hash password_size sha256 decode password salt)
            (λ why. password_invalid))
          _ a1 in
      let (_, _, a3) = >>=-eq-ok (fail_if t.begin_fails store_unavailable) _ a2 in
      let (row, found, a4) =
        >>=-eq-ok (or_fail (find_row (can_redeem hash (to_ms now)) a.invitations) secret_invalid) _
          a3 in
      let (id, _, a5) = >>=-eq-ok (or_fail t.drawn_id drawing_failed) _ a4 in
      let user = new_user id row.username encoded row.role (to_ms now) in
      let (users, inserted, a6) = >>=-eq-ok (insert_user a.users t.insert_fails user) _ a5 in
      let (_, _, listed) =
        >>=-eq-ok (fail_if (t.insert_fails || exists (same_user user) a.users) user_exists) _
          inserted in
      let (_, _, a7) = >>=-eq-ok (fail_if t.update_fails store_unavailable) _ a6 in
      let (_, _, a8) =
        >>=-eq-ok
          (fail_if (not (affected (is_unconsumed row.id) a.invitations == 1)) secret_invalid) _
          a7 in
      let (_, _, a9) = >>=-eq-ok (fail_if t.commit_fails store_unavailable) _ a8 in
      let done' : Accounts = record {
        users = users;
        invitations = update (is_unconsumed row.id) (consume_row (to_ms now)) a.invitations;
      } in
      let same : (user, done') ≡ o = ok-injective a9 in
      (
        hash,
        row,
        id,
        encoded,
        or_fail-eq-ok _ secret_invalid known,
        or_fail-eq-ok _ secret_invalid found,
        sym (ap (λ (r : UserRow × Accounts). r.1.invitations) same),
        map_err-eq-ok _ _ hashed,
        sym (ap (λ (r : UserRow × Accounts). r.0) same),
        sym (ap (λ (r : UserRow × Accounts). r.1.users) same)
            ∙ sym (ok-injective listed)
            ∙ ap (λ (r : UserRow × Accounts). r.0 ∷ a.users) same,
      )

  invited :
      (a : Accounts) (t : Trials) (drawn : Option Bytes) (subject : String) (r : InvitationRequest)
      (now : ℕ) (rows : List InvitationRow)
      → create_invitation argon2 write_hash read_hash password_size sha256 decode is_local a t drawn
          subject r now
        ≡ ok rows
      → (row : InvitationRow) × (exists (same_invitation row) a.invitations ≡ false)
        × (rows ≡ row ∷ a.invitations)
  unfolding create_invitation
  invited a t drawn subject r now rows done =
      let (_, _, a1) = >>=-eq-ok (fail_if (not (asked_well r)) invitation_invalid) _ done in
      let (secret, _, a2) = >>=-eq-ok (or_fail drawn drawing_failed) _ a1 in
      let (id, _, a3) = >>=-eq-ok (or_fail t.drawn_id drawing_failed) _ a2 in
      let creator =
        creator_value argon2 write_hash read_hash password_size sha256 decode is_local subject in
      let row =
        new_invitation argon2 write_hash read_hash password_size sha256 decode r id secret creator
          now in
      let (_, fine, a4) =
        >>=-eq-ok
          (fail_if
            (t.insert_fails
              || (exists (same_invitation row) a.invitations
                  || not (knows (user_ids a.users) creator)))
            invitation_exists)
          _ a3 in
      (row, ground arith, sym (ok-injective a4))

  -- A call keeps a spent secret spent.
  step-spent :
      (hash : Bytes) (a : Accounts) (call : AccountCall)
      → is_spent hash a.invitations ≡ true
      → is_spent hash (step_account a call).invitations ≡ true
  unfolding step_account revoke_invitation
  step-spent hash a (invites t drawn subject r now) h =
      elim (Result-cases (
        create_invitation argon2 write_hash read_hash password_size sha256 decode is_local a t drawn
          subject r now)) [
            | inl (why, e) ↦ rw e h
            | inr (rows, e) ↦
                let (row, fresh, left) = invited a t drawn subject r now rows e in
                rw e (ap (is_spent hash) left ∙ insert-spent hash row a.invitations fresh h)
          ]
  step-spent hash a (withdraws_invitation true id now) h = h
  step-spent hash a (withdraws_invitation false id now) h =
      update-spent hash (can_withdraw id) (withdraw_row now) a.invitations (λ x. refl)
        (withdrawn_closed now) h
  step-spent hash a (creates t salt username password role now) h =
      elim (Result-cases (
        create_user argon2 write_hash read_hash password_size sha256 decode a.users t salt username
          password role now)) [ inl (why, e) ↦ rw e h | inr (users, e) ↦ rw e h ]
  step-spent hash a (changes_role fails unread id role) h = h
  step-spent hash a (redeems t secret password salt now) h =
      elim (Result-cases (
        redeem argon2 write_hash read_hash password_size sha256 decode a t secret password salt
          now)) [
            | inl (why, e) ↦ rw e h
            | inr (o, e) ↦
                let (other, row, _, _, known, found, left, _, _, _) =
                  redeemed a t secret password salt now o e in
                rw (e, left)
                  (update-spent hash (is_unconsumed row.id) (consume_row (to_ms now)) a.invitations
                    (λ x. refl) (λ x. refl) h)
          ]

  run-spent :
      (hash : Bytes) (a : Accounts) (calls : List AccountCall)
      → is_spent hash a.invitations ≡ true
      → is_spent hash (run_accounts a calls).invitations ≡ true
  unfolding run_accounts
  run-spent hash a [] h = h
  run-spent hash a (call ∷ calls) h =
      run-spent hash (step_account a call) calls (step-spent hash a call h)

  -- From a table without clashing invitations: once a secret has been redeemed, then after any calls, with
  -- any failures, no redemption of the same secret succeeds, whatever the password and the time.
  pub redeemed_for_good :
      (a : Accounts) (t t' : Trials) (secret password password' : String)
      (salt salt' : Option Bytes) (now later : ℕ) (o : UserRow × Accounts)
      (calls : List AccountCall)
      → pairwise same_invitation a.invitations ≡ true
      → redeem argon2 write_hash read_hash password_size sha256 decode a t secret password salt now
        ≡ ok o
      → is_ok (
          redeem argon2 write_hash read_hash password_size sha256 decode
            (run_accounts o.1 calls)
            t'
            secret
            password'
            salt'
            later)
        ≡ false
  redeemed_for_good a t t' secret password password' salt salt' now later o calls d done =
      let (hash, row, _, _, known, found, left, _, _, _) =
        redeemed a t secret password salt now o done in
      let spent =
        ap (is_spent hash) left ∙ redeem-spent hash (to_ms now) a.invitations row d found in
      let after = run_accounts o.1 calls in
      let still = run-spent hash o.1 calls spent in
      elim (Result-cases (
        redeem argon2 write_hash read_hash password_size sha256 decode after t' secret password'
          salt' later)) [
            | inl (why, e) ↦ ap is_ok e
            | inr (o', e) ↦
                let (hash', row', _, _, known', found', _, _, _, _) =
                  redeemed after t' secret password' salt' later o' e in
                let twice : some hash ≡ some hash' = sym known ∙ known' in
                let same : hash ≡ hash' = cc in
                let shut_out = spent-refused hash (to_ms later) after.invitations (ground arith) in
                let taken =
                  ap (λ h. find_row (can_redeem h (to_ms later)) after.invitations) same ∙ found' in
                let never : none ≡ some row' = sym shut_out ∙ taken in absurd cc
          ]
