-- ===== src/Network/Orders.antt =====
-- packages/operator-core/src/omnidat.ts: food orders and passport stamps.
use Prim.Native.String.{String, ◌++◌}
use omnidat.Prelude.{
  ℕ, ◌+◌, ◌*◌, ◌/◌, Option, none, some, List, [], ◌∷◌, map, ◌==◌, if◌then◌else◌, string_eq, neg,
  join, find, length, numeral,
}
use omnidat.Network.State.{
  BillingAccount, LedgerEntry, FoodMenuItem, FoodOrder, PassportStamp, OperationalState, Words,
  append_audit, next_food_ticket, next_passport_stamp_id, account_named, charge,
}
use omnidat.Network.Seed.{omnidat_food_menu}
use omnidat.Network.Provisioning.{Result, value, thrown}

pub record FoodInput : Type 0 where
  pub item_ids : List String
  pub pickup_name : String
  pub shadybucks_account_id : String

pub record Ordered : Type 0 where
  pub order : FoodOrder
  pub ledger_entry : LedgerEntry
  pub transcript : String

pub record StampInput : Type 0 where
  pub passport_id : String
  pub badge_id : String
  pub operator_id : String
  pub evidence : String

pub record Stamped : Type 0 where
  pub stamp : PassportStamp
  pub merit_claim_status : String
  pub transcript : String

abbrev pub menu_item : String → Option FoodMenuItem
menu_item id = find (λ (i : FoodMenuItem). i.item_id == id) omnidat_food_menu

abbrev pub with_item :
    String → Option FoodMenuItem → Result (List FoodMenuItem) → Result (List FoodMenuItem)
with_item id none rest = thrown ("Unknown menu item: " ++ id)
with_item id (some item) (value items) =
    if item.available then value (item ∷ items) else thrown ("Menu item unavailable: " ++ id)
with_item id (some item) (thrown message) =
    if item.available then thrown message else thrown ("Menu item unavailable: " ++ id)

-- The items of an order: the first that the menu has not, or not now, is an error.
unfoldable pub items_of : List String → Result (List FoodMenuItem)
items_of [] = value []
items_of (id ∷ ids) = with_item id (menu_item id) (items_of ids)

-- `items.reduce((sum, item) => sum + item.priceShadyBucks, 0)`
abbrev pub total_of : List FoodMenuItem → ℕ
total_of [] = 0
total_of (item ∷ items) = item.price_shady_bucks + total_of items

module _ (js : Words) where
  abbrev food_charge : String → String → ℕ → String → String → LedgerEntry
  food_charge ticket receipt total account_id pickup_name = record {
    id = "LEDGER-" ++ receipt;
    account_id = account_id;
    entry_kind = "food-order";
    amount = neg total;
    currency = "SHDY";
    memo = "Miliways food order " ++ (ticket ++ (" for " ++ pickup_name));
    receipt_id = receipt;
  }

  abbrev order_of : FoodInput → List FoodMenuItem → OperationalState → FoodOrder
  order_of input items s =
      let ticket = next_food_ticket s in
      record {
        id = "ORDER-" ++ ticket;
        line_ticket = ticket;
        pickup_name = js.trim input.pickup_name;
        item_ids = map (λ (i : FoodMenuItem). i.item_id) items;
        total = total_of items;
        currency = "SHDY";
        status = "received";
        estimated_wait_minutes = 7 + length s.food_orders * 2;
        receipt_id = "RCPT-FOOD-" ++ js.last 4 ticket;
      }

  -- The total is in hundredths, and prints as a whole number of ShadyBucks.
  abbrev placed : BillingAccount → FoodOrder → OperationalState → Result Ordered × OperationalState
  placed account order s =
      let entry =
        food_charge order.line_ticket order.receipt_id order.total account.account_id
          order.pickup_name in
      (
        value (record {
          order = order;
          ledger_entry = entry;
          transcript = join "\n" (
              "CALL 311088020501"
              ∷ "CONNECT MILIWAYS ORDER ENTRY"
              ∷ ("ORDER.CREATE " ++ join "," order.item_ids)
              ∷ ("LINE " ++ order.line_ticket)
              ∷ ("BILL "
                  ++ (account.account_id ++ (" -" ++ (numeral 10 (order.total / 100) ++ " SHDY"))))
              ∷ ("RECEIPT " ++ order.receipt_id)
              ∷ ("WAIT " ++ (numeral 10 order.estimated_wait_minutes ++ " MIN"))
              ∷ []);
        }),
        append_audit "food.order.created" "food-order" order.line_ticket
            (("pickupName", order.pickup_name)
              ∷ ("itemCount", numeral 10 (length order.item_ids))
              ∷ ("total", numeral 10 (order.total / 100))
              ∷ [])
            (record s {
              billing_accounts = charge account.account_id order.total s.billing_accounts;
              food_orders = order ∷ s.food_orders;
              ledger = entry ∷ s.ledger;
            }),
      )

  abbrev pub ordered :
      BillingAccount
      → FoodInput
      → Result (List FoodMenuItem)
      → OperationalState
      → Result Ordered × OperationalState
  ordered account input (thrown message) s = (thrown message, s)
  ordered account input (value []) s = (thrown "Food order requires at least one item", s)
  ordered account input (value (item ∷ items)) s =
      placed account (order_of input (item ∷ items) s) s

  abbrev ordered_by :
      Option BillingAccount → FoodInput → OperationalState → Result Ordered × OperationalState
  ordered_by none input s =
      (thrown ("Unknown ShadyBucks account: " ++ input.shadybucks_account_id), s)
  ordered_by (some account) input s = ordered account input (items_of input.item_ids) s

  unfoldable pub create_food_order :
      FoodInput → OperationalState → Result Ordered × OperationalState
  create_food_order input s =
      ordered_by (account_named input.shadybucks_account_id s.billing_accounts) input s

  unfoldable pub stamp_activity_passport :
      StampInput → OperationalState → Stamped × OperationalState
  stamp_activity_passport input s =
      let stamp_id = next_passport_stamp_id s in
      let stamp : PassportStamp = record {
        id = stamp_id;
        passport_id = js.trim input.passport_id;
        badge_id = js.upper (js.trim input.badge_id);
        operator_id = js.trim input.operator_id;
        evidence = js.trim input.evidence;
        stamp_id = stamp_id;
        receipt_id = "RCPT-PASS-" ++ js.last 5 stamp_id;
        status = "filed";
      } in
      (
        record {
          stamp = stamp;
          merit_claim_status = stamp.status;
          transcript = join "\n" (
              "CALL 311088030021"
              ∷ "CONNECT PASSPORT LOG ENTRY"
              ∷ ("STAMP " ++ stamp.passport_id)
              ∷ ("BADGE " ++ stamp.badge_id)
              ∷ ("OPERATOR " ++ stamp.operator_id)
              ∷ ("STAMP-ID " ++ stamp.stamp_id)
              ∷ ("RECEIPT " ++ stamp.receipt_id)
              ∷ "STATUS FILED"
              ∷ []);
        },
        append_audit "passport.stamped" "passport" stamp.passport_id
            (("badgeId", stamp.badge_id)
              ∷ ("operatorId", stamp.operator_id)
              ∷ ("stampId", stamp_id)
              ∷ [])
            (record s { passport_stamps = stamp ∷ s.passport_stamps }),
      )
