-- ===== src/Account.antt =====
-- Accounts and the stable role codes (app/core/constants.py, app/modules/auth/models.py).
use text.Mathlib.Text.{◌==◌ as str_eq}
use nestora_server.Prelude.{ℕ, String, Option, none, some, List, [], ◌∷◌, if◌then◌else◌}
use nestora_server.Prelude.Text.{Text}

pub data RoleCode : Type 0 where
  committee_member homeowner security super_admin admin tenant board_member accountant csr :
      RoleCode

pub data AccountStatus : Type 0 where
  active inactive suspended : AccountStatus

-- The stored value of each member of the enumeration.
unfoldable pub role_value : RoleCode → String
role_value RoleCode.committee_member = "committee_member"
role_value RoleCode.homeowner = "homeowner"
role_value RoleCode.security = "security"
role_value RoleCode.super_admin = "super_admin"
role_value RoleCode.admin = "admin"
role_value RoleCode.tenant = "tenant"
role_value RoleCode.board_member = "board_member"
role_value RoleCode.accountant = "accountant"
role_value RoleCode.csr = "csr"

abbrev all_roles : List RoleCode
all_roles =
    RoleCode.committee_member ∷ RoleCode.homeowner ∷ RoleCode.security ∷ RoleCode.super_admin
    ∷ RoleCode.admin ∷ RoleCode.tenant ∷ RoleCode.board_member ∷ RoleCode.accountant ∷ RoleCode.csr
    ∷ []

find_role : String → List RoleCode → Option RoleCode
find_role s [] = none
find_role s (r ∷ rs) = if str_eq (role_value r) s then some r else find_role s rs

-- `RoleCode(value)`, where `none` is the ValueError.
unfoldable pub role_of_value : String → Option RoleCode
unfolding find_role role_value
role_of_value s = find_role s all_roles

-- An authenticated account. `role` is the code of its role row, `none` if it has no role.
pub record Account : Type 0 where
  pub id : ℕ
  pub role : Option String
  pub user_id : Option ℕ
  pub email : Text

-- `RoleCode(account.role.code)`: `none` for an AttributeError or a ValueError.
unfoldable pub account_role : Account → Option RoleCode
unfolding role_of_value
account_role a = elim a.role [ none ↦ none | some c ↦ role_of_value c ]
