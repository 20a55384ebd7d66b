-- ===== src/Network/Outcomes.antt =====
-- packages/operator-core/src/omnidat.ts: the effect of each operation.
use Prim.Native.String.{◌++◌ as text_append}
use omnidat.Prelude.{
  ◌+◌, ◌≤◌, String, Bool, some, List, [], ◌∷◌, ◌≡◌, refl, ap, ◌==◌, string_eq, Bool-cases,
  Option-cases, inl, inr, arith, length, numeral, pad_start,
}
use omnidat.Network.State.{
  BillingAccount, FoodMenuItem, OperationalState, Words, next_x121, append_audit, account_named,
  service_at, charge, account_id_for,
}
use omnidat.Network.Provisioning.{
  Result, value, thrown, CampsiteInput, provision_campsite_service, with_account,
}
use omnidat.Network.Devices.{
  PadInput, AtmInput, configure_pad, setup_atm_terminal, terminal_address, trimmed, activation_fee,
}
use omnidat.Network.Commerce.{SaleInput, fee_amount, process_vintage_pos_sale}
use omnidat.Network.Orders.{
  FoodInput, StampInput, create_food_order, stamp_activity_passport, items_of, ordered, total_of,
}
use omnidat.Network.Commands.{XotInput, execute_xot_command}
use omnidat.Network.Acts.{
  provision, configure, set_up_atm, sell, order_food, stamp, command, tried, act,
}
use omnidat.Network.Accounts.{found_id, charge_fee, due-with_account, account_named-with_account}
use omnidat.Network.Effects.{Effect, unbooked, charge-Booked}

module _ (js : Words) (starts_error has_unknown : String → Bool) where
  pub provision-Effect :
      (i : CampsiteInput) (s : OperationalState)
      → Effect s (act js starts_error has_unknown (provision i) s)
  unfolding act provision_campsite_service next_x121 append_audit
  provision-Effect i s =
      let id = account_id_for js (js.trim i.campsite_name) in
      let owner = js.trim i.campsite_name in
      let (a, there) = account_named-with_account id owner s.billing_accounts in
      inr (
        refl,
        record {
          booked =
              charge-Booked s (act js starts_error has_unknown (provision i) s).1 id 2500 _
                (with_account id owner s.billing_accounts) a there
                (λ x. due-with_account x id owner s.billing_accounts) refl refl refl refl;
          allotted = inr (_, (refl, (refl, refl)));
          logged = (_, (refl, refl));
        },
      )

  pub configure-Effect :
      (i : PadInput) (s : OperationalState)
      → Effect s (act js starts_error has_unknown (configure i) s)
  unfolding act configure_pad append_audit
  configure-Effect i s = elim (Option-cases (service_at i.x121 s.services)) [
    | inl absent ↦ rw absent (inl refl)
    | inr (service, present) ↦ rw present (
        inr (
          refl,
          record {
            booked = unbooked _ _ refl refl;
            allotted = inl (refl, omega arith);
            logged = (_, (refl, refl));
          },
        ))
  ]

  -- what a terminal's address leaves of the state
  terminal_address-keeps :
      (i : AtmInput) (s : OperationalState)
      → let s1 = (terminal_address js i s).1 in
        (s1.billing_accounts ≡ s.billing_accounts)
        × ((s1.ledger ≡ s.ledger)
            × ((s1.provisioning_requests ≡ s.provisioning_requests)
                × ((s.next_camp_address ≤ s1.next_camp_address)
                    × (s1.audit_events ≡ s.audit_events))))
  unfolding terminal_address next_x121
  terminal_address-keeps i s = elim (Bool-cases (trimmed js i.terminal_x121 == "")) [
    | inl given_out ↦ rw given_out (refl, (refl, (refl, (omega arith, refl))))
    | inr own ↦ rw own (refl, (refl, (refl, (omega arith, refl))))
  ]

  grown : {A : Type 0} {a : A} {xs ys : List A} → xs ≡ ys → a ∷ xs ≡ a ∷ ys
  grown {a = a} e = ap (λ l. a ∷ l) e

  pub set_up_atm-Effect :
      (i : AtmInput) (s : OperationalState)
      → Effect s (act js starts_error has_unknown (set_up_atm i) s)
  unfolding act setup_atm_terminal append_audit
  set_up_atm-Effect i s =
      elim (Option-cases (account_named i.settlement_account_id s.billing_accounts)) [
        | inl absent ↦ rw absent (inl refl)
        | inr (a, present) ↦
            let (accounts, (ledger, (requests, (next, audit)))) = terminal_address-keeps i s in
            let own = found_id i.settlement_account_id s.billing_accounts a present in
            rw present (
              inr (
                refl,
                record {
                  booked =
                      charge-Booked s _ i.settlement_account_id 1000
                        (activation_fee js i a.account_id (terminal_address js i s).0)
                        s.billing_accounts a present (λ x. refl) (cc (accounts, own)) (grown ledger)
                        own refl;
                  allotted = inl (requests, next);
                  logged = (
                    _,
                    (
                      grown audit,
                      ap (λ l. text_append "AUDIT-" (pad_start 4 (numeral 10 (length l + 1))))
                          audit,
                    ),
                  );
                },
              ))
      ]

  pub sell-Effect :
      (i : SaleInput) (s : OperationalState) → Effect s (act js starts_error has_unknown (sell i) s)
  unfolding act process_vintage_pos_sale append_audit
  sell-Effect i s = elim (Option-cases (account_named i.merchant_account_id s.billing_accounts)) [
    | inl absent ↦ rw absent (inl refl)
    | inr (a, present) ↦
        let own = found_id i.merchant_account_id s.billing_accounts a present in
        rw present (
          inr (
            refl,
            record {
              booked =
                  charge-Booked s _ i.merchant_account_id (fee_amount i.fee_policy_id) _
                    s.billing_accounts a present (λ x. refl)
                    (cc (
                      own,
                      charge_fee i.merchant_account_id (fee_amount i.fee_policy_id)
                          s.billing_accounts,
                    ))
                    refl own refl;
              allotted = inl (refl, omega arith);
              logged = (_, (refl, refl));
            },
          ))
  ]

  pub order_food-Effect :
      (i : FoodInput) (s : OperationalState)
      → Effect s (act js starts_error has_unknown (order_food i) s)
  unfolding act create_food_order append_audit
  order_food-Effect i s =
      elim (Option-cases (account_named i.shadybucks_account_id s.billing_accounts)) [
        | inl absent ↦ rw absent (inl refl)
        | inr (a, present) ↦ rw present (ordered-Effect a present (items_of i.item_ids))
      ]
    where
      ordered-Effect :
          (a : BillingAccount)
          → account_named i.shadybucks_account_id s.billing_accounts ≡ some a
          → (items : Result (List FoodMenuItem)) → Effect s (tried (ordered js a i items s))
      ordered-Effect a present (thrown message) = inl refl
      ordered-Effect a present (value []) = inl refl
      ordered-Effect a present (value (item ∷ items)) =
          let own = found_id i.shadybucks_account_id s.billing_accounts a present in
          inr (
            refl,
            record {
              booked =
                  charge-Booked s _ i.shadybucks_account_id (total_of (item ∷ items)) _
                    s.billing_accounts a present (λ x. refl)
                    (ap (λ id. charge id (total_of (item ∷ items)) s.billing_accounts) own) refl own
                    refl;
              allotted = inl (refl, omega arith);
              logged = (_, (refl, refl));
            },
          )

  pub stamp-Effect :
      (i : StampInput) (s : OperationalState)
      → Effect s (act js starts_error has_unknown (stamp i) s)
  unfolding act stamp_activity_passport append_audit
  stamp-Effect i s = inr (
    refl,
    record {
      booked = unbooked _ _ refl refl;
      allotted = inl (refl, omega arith);
      logged = (_, (refl, refl));
    },
  )

  pub command-Effect :
      (i : XotInput) (s : OperationalState)
      → Effect s (act js starts_error has_unknown (command i) s)
  unfolding act execute_xot_command append_audit
  command-Effect i s = inr (
    refl,
    record {
      booked = unbooked _ _ refl refl;
      allotted = inl (refl, omega arith);
      logged = (_, (refl, refl));
    },
  )
