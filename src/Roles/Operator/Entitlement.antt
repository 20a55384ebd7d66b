-- ===== src/Roles/Operator/Entitlement.antt =====
-- Who gets through to an operator's procedure, in terms of the rows of the table.
use mathlib.Core.List.{Memᴰ}
use omnidat.Prelude.{
  ◌≢◌, String, Bool, true, false, some, List, [], ◌∷◌, ◌++◌, ◌≡◌, ◌&&◌, not, if◌then◌else◌, any,
  string_eq, option_eq,
}
use omnidat.Roles.{OmnidatRole, admin, role_name, same_role, role_grants}
use omnidat.Roles.Operator.{OperatorRoleRow}

-- A row of the table gives the user a role that grants the capability.
pub record Entitled (rows : List OperatorRoleRow) (user_id capability : String) : Type 0 where
  pub row : OperatorRoleRow
  pub role : OmnidatRole
  pub listed : Memᴰ row rows
  pub theirs : row.user_id ≡ some user_id
  pub in_force : row.active ≢ some false
  pub names : row.role ≡ some (role_name role)
  pub grants : role_grants role capability ≡ true

module _ (user_id capability : String) where
  abbrev Grants : List OmnidatRole → Type 0
  Grants roles = any (λ r. role_grants r capability) roles ≡ true

abbrev promote : Bool → List OmnidatRole → List OmnidatRole
promote bootstrapped roles =
    if bootstrapped && not (any (λ r. same_role r admin) roles) then roles ++ admin ∷ [] else roles
