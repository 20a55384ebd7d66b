-- ===== src/Roles.antt =====
-- omnidat-roles.ts: the roles, and the capabilities that each grants.
pub mod Operator
use mathlib.Core.Bool.{false≢true}
use omnidat.Prelude.{
  String, Bool, true, false, Option, none, some, List, [], ◌∷◌, ◌≡◌, ◌↔◌, refl, sym, subst, ◌∙◌,
  arith, ◌==◌, if◌then◌else◌, any, includes, string_eq, eq_iff, Bool-cases, ap, ◌||◌, inl, inr,
}

pub data OmnidatRole : Type 0 where
  campsite_owner vendor_operator packet_operator noc_operator bank_operator admin auditor :
      OmnidatRole

pub role_name : OmnidatRole → String
role_name campsite_owner = "campsite-owner"
role_name vendor_operator = "vendor-operator"
role_name packet_operator = "packet-operator"
role_name noc_operator = "noc-operator"
role_name bank_operator = "bank-operator"
role_name admin = "admin"
role_name auditor = "auditor"

abbrev pub omnidat_roles : List OmnidatRole
omnidat_roles =
    campsite_owner ∷ vendor_operator ∷ packet_operator ∷ noc_operator ∷ bank_operator ∷ admin
    ∷ auditor ∷ []

-- `===` of two roles
abbrev pub same_role : OmnidatRole → OmnidatRole → Bool
same_role campsite_owner campsite_owner = true
same_role vendor_operator vendor_operator = true
same_role packet_operator packet_operator = true
same_role noc_operator noc_operator = true
same_role bank_operator bank_operator = true
same_role admin admin = true
same_role auditor auditor = true
same_role _ _ = false

abbrev pub Capabilities : Type 0
Capabilities = List (String × List OmnidatRole)

abbrev pub omnidat_capabilities : Capabilities
omnidat_capabilities =
    ("operator.read", omnidat_roles)
    ∷ ("event.write", [])
    ∷ ("campsite.write", packet_operator ∷ [])
    ∷ ("service.request", campsite_owner ∷ vendor_operator ∷ packet_operator ∷ [])
    ∷ ("service.write", packet_operator ∷ [])
    ∷ ("service.disable", packet_operator ∷ noc_operator ∷ [])
    ∷ ("verb.write", packet_operator ∷ [])
    ∷ ("allocation.write", packet_operator ∷ [])
    ∷ ("provisioning.write", packet_operator ∷ [])
    ∷ ("session.write", packet_operator ∷ noc_operator ∷ [])
    ∷ ("evidence.write", packet_operator ∷ noc_operator ∷ [])
    ∷ ("incident.write", packet_operator ∷ noc_operator ∷ [])
    ∷ ("authority.transfer", noc_operator ∷ [])
    ∷ ("bank.write", bank_operator ∷ [])
    ∷ ("vendor.write", vendor_operator ∷ bank_operator ∷ [])
    ∷ ("role.write", [])
    ∷ []

-- `Object.hasOwn(…)`, then the entry
pub entry_of : String → Capabilities → Option (List OmnidatRole)
entry_of capability [] = none
entry_of capability ((name, roles) ∷ rest) =
    if name == capability then some roles else entry_of capability rest

abbrev pub is_some : Option (List OmnidatRole) → Bool
is_some none = false
is_some (some roles) = true

pub is_omnidat_capability : String → Bool
is_omnidat_capability capability = is_some (entry_of capability omnidat_capabilities)

pub is_omnidat_role : String → Bool
is_omnidat_role role = any (λ r. role_name r == role) omnidat_roles

abbrev pub granted : OmnidatRole → Option (List OmnidatRole) → Bool
granted role none = false
granted role (some roles) = any (λ r. same_role r role) roles

unfoldable pub role_grants : OmnidatRole → String → Bool
role_grants role capability =
    if same_role role admin then true else granted role (entry_of capability omnidat_capabilities)

-- The capabilities that a role is meant to have, role by role.
abbrev pub granted_to : OmnidatRole → List String
granted_to campsite_owner = "operator.read" ∷ "service.request" ∷ []
granted_to vendor_operator = "operator.read" ∷ "service.request" ∷ "vendor.write" ∷ []
granted_to packet_operator =
    "operator.read" ∷ "campsite.write" ∷ "service.request" ∷ "service.write" ∷ "service.disable"
    ∷ "verb.write" ∷ "allocation.write" ∷ "provisioning.write" ∷ "session.write" ∷ "evidence.write"
    ∷ "incident.write" ∷ []
granted_to noc_operator =
    "operator.read" ∷ "service.disable" ∷ "session.write" ∷ "evidence.write" ∷ "incident.write"
    ∷ "authority.transfer" ∷ []
granted_to bank_operator = "operator.read" ∷ "bank.write" ∷ "vendor.write" ∷ []
granted_to admin = []
granted_to auditor = "operator.read" ∷ []

-- the names of the entries that list a role
abbrev names_of : OmnidatRole → Capabilities → List String
names_of role [] = []
names_of role ((name, roles) ∷ rest) =
    if granted role (some roles) then name ∷ names_of role rest else names_of role rest

abbrev Unique : Capabilities → Type 0
Unique [] = Unit
Unique ((name, roles) ∷ rest) = (entry_of name rest ≡ none) × Unique rest

entry_of-none :
    (role : OmnidatRole) (capability : String) (table : Capabilities)
    → entry_of capability table ≡ none
    → includes (names_of role table) capability ≡ false
unfolding entry_of
entry_of-none role capability [] h = refl
entry_of-none role capability ((name, roles) ∷ rest) h = elim (Bool-cases (name == capability)) [
  | inl here ↦ absurd (ground arith)
  | inr there ↦
      let ih = entry_of-none role capability rest (rw there at h) in
      elim (Bool-cases (granted role (some roles))) [
        | inl listed ↦ rw listed (rw there ih)
        | inr unlisted ↦ rw unlisted ih
      ]
]

granted-includes :
    (role : OmnidatRole) (capability : String) (table : Capabilities)
    → Unique table
    → granted role (entry_of capability table) ≡ includes (names_of role table) capability
unfolding entry_of
granted-includes role capability [] u = refl
granted-includes role capability ((name, roles) ∷ rest) u = elim (Bool-cases (name == capability)) [
  | inl here ↦
      let gone =
        entry_of-none role capability rest
          (subst (λ c. entry_of c rest ≡ none) ((eq_iff name capability).0 here) u.0) in
      elim (Bool-cases (granted role (some roles))) [
        | inl listed ↦ rw here (listed ∙ sym (rw listed (rw here refl)))
        | inr unlisted ↦ rw here (rw unlisted (sym gone))
      ]
  | inr there ↦
      let ih = granted-includes role capability rest u.1 in
      elim (Bool-cases (granted role (some roles))) [
        | inl listed ↦ rw there (rw listed (rw there ih))
        | inr unlisted ↦ rw there (rw unlisted ih)
      ]
]

table-Unique : Unique omnidat_capabilities
unfolding entry_of
table-Unique = (
  refl,
  (
    refl,
    (
      refl,
      (
        refl,
        (
          refl,
          (
            refl,
            (refl, (refl, (refl, (refl, (refl, (refl, (refl, (refl, (refl, (refl, tt)))))))))),
          ),
        ),
      ),
    ),
  ),
)

names_of-granted_to :
    (role : OmnidatRole)
    → same_role role admin ≡ false
    → names_of role omnidat_capabilities ≡ granted_to role
names_of-granted_to campsite_owner h = refl
names_of-granted_to vendor_operator h = refl
names_of-granted_to packet_operator h = refl
names_of-granted_to noc_operator h = refl
names_of-granted_to bank_operator h = refl
names_of-granted_to admin h = cc
names_of-granted_to auditor h = refl

-- The administrator has every capability, listed or not; each other role has exactly the
-- capabilities of its list: an auditor may only read, only the network operators transfer
-- authority, and none of them writes events or roles.
pub role_grants-granted_to :
    (role : OmnidatRole) (capability : String)
    → role_grants role capability ≡ (same_role role admin || includes (granted_to role) capability)
unfolding role_grants
role_grants-granted_to role capability = elim (Bool-cases (same_role role admin)) [
  | inl all ↦ rw all refl
  | inr some_of ↦ rw some_of (
      granted-includes role capability omnidat_capabilities table-Unique
      ∙ ap (λ names. includes names capability) (names_of-granted_to role some_of))
]

-- A name is accepted as a role exactly when it is the name of one.
pub is_omnidat_role_iff :
    (name : String)
    → (is_omnidat_role name ≡ true) ↔ ((role : OmnidatRole) × (role_name role ≡ name))
unfolding is_omnidat_role role_name
is_omnidat_role_iff name = (λ h. find_role omnidat_roles h, λ found. accept found.0 found.1)
  where
    find_role :
        (roles : List OmnidatRole)
        → any (λ r. role_name r == name) roles ≡ true
        → (role : OmnidatRole) × (role_name role ≡ name)
    find_role [] h = absurd (false≢true h)
    find_role (r ∷ roles) h = elim (Bool-cases (role_name r == name)) [
      | inl here ↦ (r, (eq_iff _ _).0 here)
      | inr there ↦ find_role roles (rw there at h)
    ]

    own : (role : OmnidatRole) → any (λ r. role_name r == role_name role) omnidat_roles ≡ true
    own campsite_owner = refl
    own vendor_operator = refl
    own packet_operator = refl
    own noc_operator = refl
    own bank_operator = refl
    own admin = refl
    own auditor = refl

    accept :
        (role : OmnidatRole)
        → role_name role ≡ name
        → any (λ r. role_name r == name) omnidat_roles ≡ true
    accept role e = subst (λ n. any (λ r. role_name r == n) omnidat_roles ≡ true) e (own role)
