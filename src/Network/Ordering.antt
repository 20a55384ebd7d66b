-- ===== src/Network/Ordering.antt =====
-- packages/operator-core/src/omnidat.ts: which food orders are taken.
use omnidat.Prelude.{
  String, Bool, true, false, Option, none, some, List, [], ◌∷◌, ◌≡◌, refl, ap, ◌∙◌, ◌&&◌, all,
  Bool-cases, Option-cases, inl, inr, arith,
}
use omnidat.Network.State.{BillingAccount, FoodMenuItem, OperationalState, Words, account_named}
use omnidat.Network.Provisioning.{Result, value, thrown}
use omnidat.Network.Orders.{FoodInput, menu_item, with_item, items_of, ordered, create_food_order}
use omnidat.Network.Acts.{succeeds}

-- what the menu has now
abbrev is_served : Option FoodMenuItem → Bool
is_served none = false
is_served (some item) = item.available

abbrev pub is_orderable : String → Bool
is_orderable id = is_served (menu_item id)

abbrev pub is_any : List String → Bool
is_any [] = false
is_any (id ∷ ids) = true

abbrev pub is_there : Option BillingAccount → Bool
is_there none = false
is_there (some a) = true

with_item-succeeds :
    (id : String) (o : Option FoodMenuItem) (r : Result (List FoodMenuItem))
    → succeeds (with_item id o r) ≡ (is_served o && succeeds r)
with_item-succeeds id none r = refl
with_item-succeeds id (some item) (value items) = ground arith
with_item-succeeds id (some item) (thrown message) = ground arith

items_of-succeeds : (ids : List String) → succeeds (items_of ids) ≡ all is_orderable ids
unfolding items_of
items_of-succeeds [] = refl
items_of-succeeds (id ∷ ids) =
    with_item-succeeds id (menu_item id) (items_of ids)
    ∙ ap (λ b. is_orderable id && b) (items_of-succeeds ids)

module _ (js : Words) where
  ordered-with_item :
      (a : BillingAccount) (input : FoodInput) (id : String) (o : Option FoodMenuItem)
      (r : Result (List FoodMenuItem)) (s : OperationalState)
      → succeeds (ordered js a input (with_item id o r) s).0 ≡ (is_served o && succeeds r)
  ordered-with_item a input id none r s = refl
  ordered-with_item a input id (some item) (value items) s = elim (Bool-cases item.available) [
    | inl now ↦ rw now refl
    | inr later ↦ rw later refl
  ]
  ordered-with_item a input id (some item) (thrown message) s = elim (Bool-cases item.available) [
    | inl now ↦ rw now refl
    | inr later ↦ rw later refl
  ]

  ordered-items_of :
      (a : BillingAccount) (input : FoodInput) (ids : List String) (s : OperationalState)
      → succeeds (ordered js a input (items_of ids) s).0 ≡ (is_any ids && all is_orderable ids)
  unfolding items_of
  ordered-items_of a input [] s = refl
  ordered-items_of a input (id ∷ ids) s =
      ordered-with_item a input id (menu_item id) (items_of ids) s
      ∙ ap (λ b. is_orderable id && b) (items_of-succeeds ids)

  -- An order is taken exactly when its account is there, it has some item, and the menu has each of
  -- its items and has it now.
  pub create_food_order-taken :
      (input : FoodInput) (s : OperationalState)
      → succeeds (create_food_order js input s).0 ≡ (
          is_there (account_named input.shadybucks_account_id s.billing_accounts)
          && (is_any input.item_ids && all is_orderable input.item_ids))
  unfolding create_food_order
  create_food_order-taken input s =
      elim (Option-cases (account_named input.shadybucks_account_id s.billing_accounts)) [
        | inl absent ↦ rw absent refl
        | inr (a, present) ↦ rw present (ordered-items_of a input input.item_ids s)
      ]
