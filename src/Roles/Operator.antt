-- ===== src/Roles/Operator.antt =====
-- packages/api/src/router/omnidat-operator-procedure.ts: who gets through to an operator's procedure.
pub mod Entitlement
use mathlib.Core.List.{Memᴰ}
use omnidat.Prelude.{
  get_or, sym, ap, ◌≢◌, ◌↔◌, ◌⊎◌, eq_iff, Option-cases, ==_iff, subst, String, Bool, true, false,
  Option, none, some, List, [], ◌∷◌, ◌++◌, map, ◌≡◌, refl, ◌∙◌, arith, ◌==◌, ◌&&◌, ◌||◌, not,
  if◌then◌else◌, filter, any, includes, string_eq, option_eq, Bool-cases, inl, inr,
}
use omnidat.Roles.{
  OmnidatRole, campsite_owner, vendor_operator, packet_operator, noc_operator, bank_operator, admin,
  auditor, role_name, omnidat_roles, same_role, role_grants,
}

-- `OperatorRoleRow`
pub record OperatorRoleRow : Type 0 where
  pub user_id : Option String
  pub role : Option String
  pub active : Option Bool

-- `row.userId === userId && row.active !== false`
abbrev pub is_active_of : String → OperatorRoleRow → Bool
is_active_of user_id row =
    row.user_id == some user_id && elim row.active [ some false ↦ false | _ ↦ true ]

-- the role that a text names
pub role_named : List OmnidatRole → String → Option OmnidatRole
role_named [] name = none
role_named (r ∷ rs) name = if role_name r == name then some r else role_named rs name

-- `.map((row) => row.role).filter(…)`: the names that are roles
pub roles_of : List OperatorRoleRow → List OmnidatRole
roles_of [] = []
roles_of (row ∷ rows) = elim row.role [
  | none ↦ roles_of rows
  | some name ↦ elim (role_named omnidat_roles name) [
    | none ↦ roles_of rows
    | some role ↦ role ∷ roles_of rows
  ]
]

pub load_active_operator_roles : Option (List OperatorRoleRow) → String → List OmnidatRole
load_active_operator_roles none user_id = []
load_active_operator_roles (some rows) user_id = roles_of (filter (is_active_of user_id) rows)

-- `email && entries.includes(email.trim().toLowerCase())`
module _ (trim lower : String → String) where
  abbrev pub lists_email : List String → Option String → Bool
  lists_email entries none = false
  lists_email entries (some email) = not (email == "") && includes entries (lower (trim email))

  -- `pieces` is `OMNIDAT_BOOTSTRAP_ADMINS` split at its commas.
  pub bootstrap_entries : List String → List String
  bootstrap_entries pieces =
      filter (λ (entry : String). not (entry == "")) (map (λ piece. lower (trim piece)) pieces)

  pub bootstrap_admin : List String → String → Option String → Bool
  bootstrap_admin pieces user_id email =
      includes (bootstrap_entries pieces) (lower user_id)
      || lists_email (bootstrap_entries pieces) email

  -- what the middleware does: `none` is FORBIDDEN; the flag says that an audit event is written
  pub operator_procedure :
      Option (List OperatorRoleRow)
      → List String
      → (user_id : String) → Option String
      → (capability : String) → Option (List OmnidatRole) × Bool
  operator_procedure rows pieces user_id email capability =
      let roles = load_active_operator_roles rows user_id in
      let promoted =
        bootstrap_admin pieces user_id email && not (any (λ r. same_role r admin) roles) in
      let all_roles = if promoted then roles ++ admin ∷ [] else roles in
      (if any (λ r. role_grants r capability) all_roles then some all_roles else none, promoted)
