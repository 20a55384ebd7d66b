-- ===== src/Network/Acts.antt =====
-- packages/operator-core/src/omnidat.ts: the operations in sequence, and what each does to the state.
use omnidat.Prelude.{String, Bool, true, false, List, [], ◌∷◌}
use omnidat.Network.State.{OperationalState, Words}
use omnidat.Network.Provisioning.{Result, value, thrown, CampsiteInput, provision_campsite_service}
use omnidat.Network.Devices.{PadInput, AtmInput, configure_pad, setup_atm_terminal}
use omnidat.Network.Commerce.{SaleInput, process_vintage_pos_sale}
use omnidat.Network.Orders.{FoodInput, StampInput, create_food_order, stamp_activity_passport}
use omnidat.Network.Commands.{XotInput, execute_xot_command}

-- a call of an operation that changes the state
pub data Act : Type 0 where
  provision : CampsiteInput → Act
  configure : PadInput → Act
  set_up_atm : AtmInput → Act
  sell : SaleInput → Act
  order_food : FoodInput → Act
  stamp : StampInput → Act
  command : XotInput → Act

abbrev pub succeeds : {A : Type 0} → Result A → Bool
succeeds (value a) = true
succeeds (thrown message) = false

-- whether a call returns, and the state after it
abbrev pub Done : Type 0
Done = Bool × OperationalState

abbrev returned : {A : Type 0} → A × OperationalState → Done
returned (a, s) = (true, s)

abbrev pub tried : {A : Type 0} → Result A × OperationalState → Done
tried (r, s) = (succeeds r, s)

module _ (js : Words) (starts_error has_unknown : String → Bool) where
  unfoldable pub act : Act → OperationalState → Done
  act (provision input) s = returned (provision_campsite_service js input s)
  act (configure input) s = tried (configure_pad js input s)
  act (set_up_atm input) s = tried (setup_atm_terminal js input s)
  act (sell input) s = tried (process_vintage_pos_sale js input s)
  act (order_food input) s = tried (create_food_order js input s)
  act (stamp input) s = returned (stamp_activity_passport js input s)
  act (command input) s = returned (execute_xot_command js starts_error has_unknown input s)

  -- calls one after the other; one that throws leaves the next ones to be made
  unfoldable pub act_all : List Act → OperationalState → OperationalState
  act_all [] s = s
  act_all (a ∷ acts) s = act_all acts (act a s).1
