-- ===== src/Notifications/Unread.antt =====
-- How many notifications an account has not read.
use nestora_server.Prelude.{
  ℕ, ◌+◌, ◌≡◌, ◌≢◌, false, Option, List, [], ◌∷◌, ◌++◌, map, Bool-cases, inl, inr, ◌==◌, ==_iff,
  if◌then◌else◌, arith,
}
use nestora_server.Prelude.Table.{update, sum_where}
use nestora_server.Directory.{AccountRow, Directory, is_in, ids_where}
use nestora_server.Notifications.Data.{NotificationRecipient, Inbox, Notice}
use nestora_server.Notifications.Service.{
  is_sender, requested, existing_account_ids, unread_row, deliver, notify_accounts,
}
use nestora_server.Notifications.Repository.{Db, is_unread, set_read, unread_count, mark_all_read}

abbrev one : NotificationRecipient → ℕ
one r = 1

marked :
    (a b now : ℕ) (rows : List NotificationRecipient)
    → sum_where (is_unread b) one (update (is_unread a) (set_read now) rows)
      ≡ (if a == b then 0 else sum_where (is_unread b) one rows)
unfolding sum_where update
marked a b now [] = ground arith
marked a b now (r ∷ rows) = let rest = marked a b now rows in ground arith

-- After an account has marked all its notifications as read it has none unread, and every other account
-- has as many unread as before.
pub unread_count-mark_all_read :
    (a : ℕ) (s : Db)
    → (unread_count a (mark_all_read a s).1.inbox ≡ 0)
      × ((b : ℕ) → b ≢ a → unread_count b (mark_all_read a s).1.inbox ≡ unread_count b s.inbox)
unfolding unread_count mark_all_read
unread_count-mark_all_read a s = (
  let all = marked a a s.now s.inbox.recipients in ground arith,
  λ b off. let others = marked a b s.now s.inbox.recipients in ground arith,
)

-- How often an account is in a list.
abbrev pub occurrences : ℕ → List ℕ → ℕ
occurrences a [] = 0
occurrences a (i ∷ is) = (if i == a then 1 else 0) + occurrences a is

appended :
    (a uuid now : ℕ) (rows : List NotificationRecipient) (is : List ℕ)
    → sum_where (is_unread a) one (rows ++ map (unread_row uuid now) is)
      ≡ sum_where (is_unread a) one rows + occurrences a is
unfolding sum_where
appended a uuid now [] [] = omega arith
appended a uuid now [] (i ∷ is) = let rest = appended a uuid now [] is in ground arith
appended a uuid now (r ∷ rows) is = let rest = appended a uuid now rows is in omega (arith, rest)

-- The rows of the accounts table with an id.
abbrev pub rows_of : ℕ → List AccountRow → ℕ
rows_of a accounts = sum_where (λ (x : AccountRow). x.account_id == a) (λ x. 1) accounts

is_in-requested :
    (a : ℕ) (sender : Option ℕ) (ids : List ℕ)
    → is_in a (requested sender ids) ≡ (if is_sender sender a then false else is_in a ids)
unfolding is_in requested
is_in-requested a sender [] = ground arith
is_in-requested a sender (i ∷ is) =
    let rest = is_in-requested a sender is in
    elim (Bool-cases (a == i)) [
      | inl own ↦ let same : a ≡ i = (==_iff a i).0 own in rw same (ground (arith, rw same at rest))
      | inr off ↦ ground arith
    ]

occurrences-ids_where :
    (a : ℕ) (wanted : List ℕ) (rows : List AccountRow)
    → occurrences a (ids_where (λ x. is_in x.account_id wanted) rows)
      ≡ (if is_in a wanted then rows_of a rows else 0)
unfolding sum_where
occurrences-ids_where a wanted [] = ground arith
occurrences-ids_where a wanted (x ∷ rows) =
    let rest = occurrences-ids_where a wanted rows in
    elim (Bool-cases (x.account_id == a)) [
      | inl own ↦
          let same : x.account_id ≡ a = (==_iff x.account_id a).0 own in
          let alike : is_in x.account_id wanted ≡ is_in a wanted = rw same in ground arith
      | inr off ↦ ground arith
    ]

deliver-unread :
    (a : ℕ) (is : List ℕ) (n : Notice) (sender : Option ℕ) (now uuid : ℕ) (inbox : Inbox)
    → unread_count a (deliver is n sender now uuid inbox).0
      ≡ unread_count a inbox + occurrences a is
unfolding deliver unread_count
deliver-unread a [] n sender now uuid inbox = omega arith
deliver-unread a (i ∷ is) n sender now uuid inbox = appended a uuid now inbox.recipients (i ∷ is)

-- A notification adds one unread row for each row of the accounts table with a requested id, and none
-- for the sender or for an id that was not requested.
pub unread_count-notify_accounts :
    (a : ℕ) (d : Directory) (ids : List ℕ) (n : Notice) (sender : Option ℕ) (now uuid : ℕ)
    (inbox : Inbox)
    → unread_count a (notify_accounts d ids n sender now uuid inbox).0
      ≡ unread_count a inbox
        + (if is_sender sender a then 0 else if is_in a ids then rows_of a d.accounts else 0)
unfolding notify_accounts existing_account_ids
unread_count-notify_accounts a d ids n sender now uuid inbox =
    let written = deliver-unread a (existing_account_ids sender ids d) n sender now uuid inbox in
    let counted = occurrences-ids_where a (requested sender ids) d.accounts in
    let wanted = is_in-requested a sender ids in ground arith
