-- ===== src/Tests/Network.antt =====
-- Runs of the operations on the network's state.
use omnidat.Prelude.{
  String, Bool, false, List, [], ◌∷◌, ◌≡◌, refl, arith, minus, string_eq, pad_start, numeral, print,
  zeros, digit,
}
use omnidat.Network.State.{OperationalState, Words, camp_address}
use omnidat.Network.Seed.{create_initial_operational_state}
use omnidat.Network.Provisioning.{CampsiteInput}
use omnidat.Network.Orders.{FoodInput}
use omnidat.Network.Acts.{Act, provision, order_food, act, act_all}
use omnidat.Network.Accounts.{due, charged}
use omnidat.Network.Effects.{Effect}
use omnidat.Network.Books.{IsAllotted, act-Effect, act_all-conserves, act_all-IsAllotted}

abbrev same_text : String → String
same_text s = s

abbrev js : Words
js = record {
  trim = same_text;
  lower = same_text;
  upper = same_text;
  dashed = same_text;
  first = λ n s. s;
  last = λ n s. s;
  alphanumeric = same_text;
  capitals = same_text;
  digits = same_text;
  pad_end = λ n s. s;
  show = λ z. "";
  words = λ s. s ∷ [];
}

abbrev never : String → Bool
never s = false

abbrev initial : OperationalState
initial = create_initial_operational_state

abbrev camp : CampsiteInput
camp = record {
  campsite_name = "Camp Tiny";
  namespace = "camp";
  contact = "ada";
  app_name = "Desk";
  app_kind = "message";
  transport = "xot";
}

abbrev supper : FoodInput
supper = record {
  item_ids = "NOODLE-CUP" ∷ "TEA-THERMOS" ∷ [];
  pickup_name = "ada";
  shadybucks_account_id = "SB-CAMP-LAMINAR-001";
}

abbrev unknown_order : FoodInput
unknown_order = record {
  item_ids = "PIE" ∷ [];
  pickup_name = "ada";
  shadybucks_account_id = "SB-CAMP-LAMINAR-001";
}

abbrev evening : List Act
evening = provision camp ∷ order_food supper ∷ order_food unknown_order ∷ provision camp ∷ []

act-Effect_example : Effect initial (act js never never (order_food unknown_order) initial)
act-Effect_example = act-Effect js never never (order_food unknown_order) initial

act_all-conserves_example :
    let s1 = act_all js never never evening initial in
    minus
      (due "SB-CAMP-LAMINAR-001" initial.billing_accounts)
      (charged "SB-CAMP-LAMINAR-001" s1.ledger)
    ≡ minus
        (due "SB-CAMP-LAMINAR-001" s1.billing_accounts)
        (charged "SB-CAMP-LAMINAR-001" initial.ledger)
act_all-conserves_example = act_all-conserves js never never evening initial "SB-CAMP-LAMINAR-001"

address_184 : "311088020184" ≡ camp_address 184
unfolding camp_address pad_start numeral print zeros digit
address_184 = refl

initial-IsAllotted : IsAllotted initial
initial-IsAllotted = record {
  given_out = ((184, (address_184, omega arith)), tt);
  distinct = (tt, tt);
}

act_all-IsAllotted_example : IsAllotted (act_all js never never evening initial)
act_all-IsAllotted_example = act_all-IsAllotted js never never evening initial initial-IsAllotted
