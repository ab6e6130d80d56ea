-- ===== src/Directory.antt =====
-- The tables that most services read to know who an account is and what it may touch, and the queries
-- on them that the repositories repeat (for example app/modules/visitor_management/repository.py and
-- app/modules/polls/repository.py). `user_id` is the primary key of user_details.
use nestora_server.Prelude.{
  ℕ, String, Bool, true, false, Option, none, some, List, [], ◌∷◌, ◌&&◌, ◌||◌, not, ◌==◌,
  if◌then◌else◌,
}
use nestora_server.Prelude.Table.{first, exists}
use nestora_server.Prelude.Text.{Text}
use nestora_server.Account.{AccountStatus}

-- An account with the columns of its role row: its code, and that it is active and not deleted.
pub record AccountRow : Type 0 where
  pub account_id : ℕ
  pub user_id : Option ℕ
  pub email : Text
  pub status : AccountStatus
  pub role_code : String
  pub role_is_live : Bool

pub record UserDetail : Type 0 where
  pub user_id : ℕ
  pub name : Option Text
  pub contact_number : Option Text
  pub unit_id : Option ℕ
  pub association_id : Option ℕ
  pub is_deleted : Bool

pub record UnitRow : Type 0 where
  pub id : ℕ
  pub block_id : ℕ

pub record BlockRow : Type 0 where
  pub id : ℕ
  pub association_id : ℕ

pub record AssociationRow : Type 0 where
  pub id : ℕ
  pub is_deleted : Bool

pub record AdminAssociation : Type 0 where
  pub admin_id : ℕ
  pub association_id : ℕ

pub record Directory : Type 0 where
  pub accounts : List AccountRow
  pub user_details : List UserDetail
  pub units : List UnitRow
  pub blocks : List BlockRow
  pub associations : List AssociationRow
  pub admin_associations : List AdminAssociation

-- x IN xs
unfoldable pub is_in : ℕ → List ℕ → Bool
is_in x [] = false
is_in x (y ∷ ys) = x == y || is_in x ys

abbrev pub is_active : AccountStatus → Bool
is_active AccountStatus.active = true
is_active AccountStatus.inactive = false
is_active AccountStatus.suspended = false

-- SELECT association_id FROM admin_associations WHERE admin_id = :account_id
abbrev managed : ℕ → List AdminAssociation → List ℕ
managed account_id [] = []
managed account_id (r ∷ rows) =
    if r.admin_id == account_id
    then r.association_id ∷ managed account_id rows
    else managed account_id rows

unfoldable pub association_ids_for_account : ℕ → Directory → List ℕ
association_ids_for_account account_id d = managed account_id d.admin_associations

-- units un JOIN blocks b ON b.id = un.block_id WHERE un.id = :unit_id
unfoldable pub association_of_unit : ℕ → Directory → Option ℕ
association_of_unit unit_id d = elim (first (λ (u : UnitRow). u.id == unit_id) d.units) [
  | none ↦ none
  | some u ↦ elim (first (λ (b : BlockRow). b.id == u.block_id) d.blocks) [
    | none ↦ none
    | some b ↦ some b.association_id
  ]
]

-- The association of the unit is in the list.
unfoldable pub unit_is_in_associations : ℕ → List ℕ → Directory → Bool
unit_is_in_associations unit_id ids d = elim (association_of_unit unit_id d) [
  | none ↦ false
  | some a ↦ is_in a ids
]

-- FROM user_details WHERE user_id = :user_id AND is_deleted = 0 LIMIT 1
unfoldable pub find_user : Option ℕ → Directory → Option UserDetail
find_user none d = none
find_user (some user_id) d =
    first (λ (u : UserDetail). u.user_id == user_id && not u.is_deleted) d.user_details

unfoldable pub unit_for_user : Option ℕ → Directory → Option ℕ
unit_for_user user_id d = elim (find_user user_id d) [ none ↦ none | some u ↦ u.unit_id ]

-- COALESCE(ud.association_id, b.association_id)
unfoldable pub member_association_id : Option ℕ → Directory → Option ℕ
member_association_id user_id d = elim (find_user user_id d) [
  | none ↦ none
  | some u ↦ elim u.association_id [
    | some a ↦ some a
    | none ↦ elim u.unit_id [ none ↦ none | some unit_id ↦ association_of_unit unit_id d ]
  ]
]

unfoldable pub association_exists : ℕ → Directory → Bool
association_exists association_id d =
    exists (λ (a : AssociationRow). a.id == association_id && not a.is_deleted) d.associations

abbrev same_unit : Option ℕ → ℕ → Bool
same_unit none unit_id = false
same_unit (some u) unit_id = u == unit_id

-- accounts ac JOIN user_details ud … WHERE ud.unit_id = :unit_id AND ac.status = 'active'
abbrev lives_in : ℕ → Directory → AccountRow → Bool
lives_in unit_id d a = is_active a.status && same_unit (unit_for_user a.user_id d) unit_id

abbrev pub ids_where : (AccountRow → Bool) → List AccountRow → List ℕ
ids_where p [] = []
ids_where p (a ∷ rows) = if p a then a.account_id ∷ ids_where p rows else ids_where p rows

unfoldable pub account_ids_for_unit : ℕ → Directory → List ℕ
account_ids_for_unit unit_id d = ids_where (lives_in unit_id d) d.accounts
