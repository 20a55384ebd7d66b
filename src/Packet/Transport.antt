-- ===== src/Packet/Transport.antt =====
-- omnidat-transports.ts: what each access transport allows a packet call.
use Prim.Native.String.{String, ◌++◌}
use omnidat.Prelude.{
  ℕ, ◌≤◌, Bool, true, false, Option, none, some, ◌≡◌, refl, arith, ◌==◌, ltb, if◌then◌else◌,
  numeral, string_eq, inl, inr, ◌⊎◌,
}
use omnidat.Packet.Clearing.{ClearCode, not_obtainable}

pub data Kind : Type 0 where
  terminal modem radio_managed radio_guest wifi : Kind

pub data AccessClass : Type 0 where
  public registered operator : AccessClass

pub record TransportPolicy : Type 0 where
  pub transport : String
  pub kind : Kind
  pub access_class : AccessClass
  pub max_user_data_bytes : ℕ
  pub fast_select_allowed : Bool

abbrev xot : TransportPolicy
xot = record {
  transport = "xot";
  kind = terminal;
  access_class = public;
  max_user_data_bytes = 128;
  fast_select_allowed = true;
}

abbrev pots_modem : TransportPolicy
pots_modem = record {
  transport = "pots-modem";
  kind = modem;
  access_class = public;
  max_user_data_bytes = 128;
  fast_select_allowed = true;
}

abbrev wifi_terminal : TransportPolicy
wifi_terminal = record {
  transport = "wifi-terminal";
  kind = wifi;
  access_class = registered;
  max_user_data_bytes = 128;
  fast_select_allowed = true;
}

abbrev meshcore : TransportPolicy
meshcore = record {
  transport = "meshcore";
  kind = radio_managed;
  access_class = registered;
  max_user_data_bytes = 64;
  fast_select_allowed = true;
}

abbrev meshtastic : TransportPolicy
meshtastic = record {
  transport = "meshtastic";
  kind = radio_guest;
  access_class = public;
  max_user_data_bytes = 32;
  fast_select_allowed = false;
}

-- the own entries of `TRANSPORT_POLICIES`
pub own_policy : String → Option TransportPolicy
own_policy name =
    if name == "xot"
    then some xot
    else if name == "pots-modem"
    then some pots_modem
    else if name == "wifi-terminal"
    then some wifi_terminal
    else if name == "meshcore"
    then some meshcore
    else if name == "meshtastic"
    then some meshtastic
    else none

-- What `TRANSPORT_POLICIES[transport]` gives: an entry of the table, or what the table inherits
-- from `Object.prototype`, where no field of a policy is defined.
pub data Policy : Type 0 where
  entry : TransportPolicy → Policy
  inherited : String → Policy

pub data TransportCheck : Type 0 where
  ok : Policy → TransportCheck
  refused : ClearCode → String → TransportCheck

-- `is_inherited` tells the names of the properties of `Object.prototype`.
module _ (is_inherited : String → Bool) where
  abbrev or_inherited : String → Option TransportPolicy → Option Policy
  or_inherited name none = if is_inherited name then some (inherited name) else none
  or_inherited name (some policy) = some (entry policy)

  pub transport_policy : String → Option Policy
  transport_policy transport = or_inherited transport (own_policy transport)

  -- `userDataBytes > policy.maxUserDataBytes`, which is false of an undefined budget
  abbrev pub is_over : ℕ → Policy → Bool
  is_over user_data_bytes (entry policy) = ltb policy.max_user_data_bytes user_data_bytes
  is_over user_data_bytes (inherited name) = false

  abbrev pub over_budget : ℕ → Policy → String
  over_budget user_data_bytes (entry policy) =
      "call user data "
      ++ numeral 10 user_data_bytes
      ++ "B exceeds "
      ++ policy.transport
      ++ " budget "
      ++ numeral 10 policy.max_user_data_bytes
      ++ "B"
  over_budget user_data_bytes (inherited name) = ""

  abbrev checked : String → ℕ → Option Policy → TransportCheck
  checked transport user_data_bytes none =
      refused (record { outcome = not_obtainable; signal = "NP"; cause = 3; diagnostic = 65 })
        ("unknown transport " ++ transport)
  checked transport user_data_bytes (some policy) =
      if is_over user_data_bytes policy
      then refused (record { outcome = not_obtainable; signal = "NP"; cause = 19; diagnostic = 39 })
          (over_budget user_data_bytes policy)
      else ok policy

  pub check_transport : String → ℕ → TransportCheck
  check_transport transport user_data_bytes =
      checked transport user_data_bytes (transport_policy transport)

  -- the budget of a policy of the table that admitted a call
  abbrev pub Admitted : String → ℕ → TransportCheck → Type 0
  Admitted transport n (ok (entry policy)) =
      (policy.max_user_data_bytes ≤ 128)
      × (n ≤ policy.max_user_data_bytes)
      × (own_policy transport ≡ some policy)
  Admitted transport n (ok (inherited name)) =
      (is_inherited transport ≡ true) × (own_policy transport ≡ none)
  Admitted transport n (refused code reason) =
      ((code.cause ≡ 3) × (own_policy transport ≡ none) × (is_inherited transport ≡ false))
      ⊎ ((code.cause ≡ 19) × ((policy : TransportPolicy) × (own_policy transport ≡ some policy)))

  own_policy-small :
      (name : String) (policy : TransportPolicy)
      → own_policy name ≡ some policy
      → policy.max_user_data_bytes ≤ 128
  unfolding own_policy
  own_policy-small name policy e = ground arith

  -- A call is admitted under the table's own policy of its transport only within that policy's
  -- budget, which is never above 128 bytes; a refused call has cause 3 exactly when neither the
  -- table nor its prototype has the transport, and cause 19 when the table has it; the remaining
  -- calls are those to a name that the table inherits, which are admitted.
  pub check_transport-Admitted :
      (transport : String) (user_data_bytes : ℕ)
      → Admitted transport user_data_bytes (check_transport transport user_data_bytes)
  unfolding check_transport transport_policy
  check_transport-Admitted transport n = go (own_policy transport) refl
    where
      inherit :
          (b : Bool)
          → is_inherited transport ≡ b
          → own_policy transport ≡ none
          → Admitted transport n
              (checked transport n (if b then some (inherited transport) else none))
      inherit true h e = (h, e)
      inherit false h e = inl (refl, e, h)

      within :
          (policy : TransportPolicy)
          → own_policy transport ≡ some policy
          → (b : Bool) → ltb policy.max_user_data_bytes n ≡ b
          → Admitted transport n (
              if b
              then refused
                  (record { outcome = not_obtainable; signal = "NP"; cause = 19; diagnostic = 39 })
                  (over_budget n (entry policy))
              else ok (entry policy))
      within policy e true h = inr (refl, (policy, e))
      within policy e false h = (own_policy-small transport policy e, ground arith, e)

      go :
          (o : Option TransportPolicy)
          → own_policy transport ≡ o
          → Admitted transport n (checked transport n (or_inherited transport o))
      go none e = inherit (is_inherited transport) refl e
      go (some policy) e = within policy e (ltb policy.max_user_data_bytes n) refl
