-- ===== src/Packet/Clearing.antt =====
-- omnidat-clear-codes.ts: the cause with which a packet call clears.
use Prim.Native.String.{String, ◌++◌}
use omnidat.Prelude.{
  ℕ, Bool, true, false, Option, none, some, get_or, ◌≡◌, ◌≢◌, ◌↔◌, refl, arith, ◌==◌, ◌||◌,
  if◌then◌else◌, numeral, string_eq, eq_iff, Bool-cases, inl, inr, ne_of_==,
}

pub data ClearOutcome : Type 0 where
  normal not_obtainable access_barred out_of_order busy congestion : ClearOutcome

pub record ClearCode : Type 0 where
  pub outcome : ClearOutcome
  pub signal : String
  pub cause : ℕ
  pub diagnostic : ℕ

pub omnidat_clear_codes : ClearOutcome → ClearCode
omnidat_clear_codes normal = record { outcome = normal; signal = "DTE"; cause = 0; diagnostic = 0 }
omnidat_clear_codes not_obtainable = record {
  outcome = not_obtainable;
  signal = "NP";
  cause = 13;
  diagnostic = 67;
}
omnidat_clear_codes access_barred = record {
  outcome = access_barred;
  signal = "NA";
  cause = 11;
  diagnostic = 70;
}
omnidat_clear_codes out_of_order = record {
  outcome = out_of_order;
  signal = "DER";
  cause = 9;
  diagnostic = 0;
}
omnidat_clear_codes busy = record { outcome = busy; signal = "OCC"; cause = 1; diagnostic = 0 }
omnidat_clear_codes congestion = record {
  outcome = congestion;
  signal = "NC";
  cause = 5;
  diagnostic = 71;
}

pub render_clear_code : ClearCode → String
render_clear_code code =
    "CLR " ++ code.signal ++ " C:" ++ numeral 10 code.cause ++ " D:" ++ numeral 10 code.diagnostic

-- the `service`
pub record Service : Type 0 where
  pub status : Option String
  pub reachable : Option Bool

-- `service.reachable === false`
abbrev pub is_unreachable : Option Bool → Bool
is_unreachable (some false) = true
is_unreachable (some true) = false
is_unreachable none = false

pub outcome_of : String → Option Bool → ClearOutcome
outcome_of status reachable =
    if status == "suspended" || (status == "barred" || status == "revoked")
    then access_barred
    else if status == "down" || is_unreachable reachable
    then out_of_order
    else if status == "busy"
    then busy
    else normal

pub clear_code_for_service : Option Service → ClearCode
unfolding outcome_of
clear_code_for_service none = omnidat_clear_codes not_obtainable
clear_code_for_service (some service) =
    omnidat_clear_codes (outcome_of (get_or service.status "up") service.reachable)

-- Different outcomes have different causes, so the cause on the wire tells the outcome.
pub omnidat_clear_codes-injective :
    (a b : ClearOutcome) → (omnidat_clear_codes a).cause ≡ (omnidat_clear_codes b).cause → a ≡ b
unfolding omnidat_clear_codes
omnidat_clear_codes-injective a b h = ground arith

-- What keeps a call from clearing normally.
abbrev pub IsUp : Service → Type 0
IsUp service =
    (get_or service.status "up" ≢ "suspended")
    × (get_or service.status "up" ≢ "barred")
    × (get_or service.status "up" ≢ "revoked")
    × (get_or service.status "up" ≢ "down")
    × (is_unreachable service.reachable ≡ false)
    × (get_or service.status "up" ≢ "busy")

cause_normal :
    (outcome : ClearOutcome) → ((omnidat_clear_codes outcome).cause ≡ 0) ↔ (outcome ≡ normal)
unfolding omnidat_clear_codes
cause_normal outcome = (λ h. ground arith, λ h. ground arith)

outcome_of-normal_iff :
    (status : String) (reachable : Option Bool)
    → (outcome_of status reachable ≡ normal) ↔ (
        (status ≢ "suspended")
        × (status ≢ "barred")
        × (status ≢ "revoked")
        × (status ≢ "down")
        × (is_unreachable reachable ≡ false)
        × (status ≢ "busy"))
unfolding outcome_of
outcome_of-normal_iff status reachable = (
  λ h. (
    ne_of_== status "suspended" (ground arith),
    ne_of_== status "barred" (ground arith),
    ne_of_== status "revoked" (ground arith),
    ne_of_== status "down" (ground arith),
    ground arith,
    ne_of_== status "busy" (ground arith),
  ),
  λ h.
      let (a, b, c, d, e, f) = h in
      rw
        (
          unequal status "suspended" a,
          unequal status "barred" b,
          unequal status "revoked" c,
          unequal status "down" d,
          e,
          unequal status "busy" f,
        )
        refl,
)
  where
    unequal : (s t : String) → s ≢ t → (s == t) ≡ false
    unequal s t n = elim (Bool-cases (s == t)) [
      | inl same ↦ absurd (n ((eq_iff s t).0 same))
      | inr other ↦ other
    ]

-- A call to a listed service clears with cause 0 exactly when the service is up: reachable, and
-- neither suspended, barred, revoked, down nor busy. A call to a missing one clears with cause 13.
pub clear_code_for_service-normal_iff :
    (service : Service)
    → (((clear_code_for_service (some service)).cause ≡ 0) ↔ IsUp service)
      × ((clear_code_for_service none).cause ≡ 13)
unfolding clear_code_for_service omnidat_clear_codes
clear_code_for_service-normal_iff service =
    let status = get_or service.status "up" in
    let code = cause_normal (outcome_of status service.reachable) in
    let tests = outcome_of-normal_iff status service.reachable in
    ((λ h. tests.0 (code.0 h), λ h. code.1 (tests.1 h)), refl)
