-- ===== src/Network/Seed.antt =====
-- packages/operator-core/src/omnidat.ts: the state that the network starts with.
use omnidat.Prelude.{String, true, false, List, [], ◌∷◌, pos, neg}
use omnidat.Network.State.{
  Verb, Service, Circuit, ProvisioningRequest, BillingAccount, FoodMenuItem, OperationalState,
}

abbrev verb : (name description : String) → (inputs outputs : List String) → Verb
verb name description inputs outputs = record {
  name = name;
  description = description;
  inputs = inputs;
  outputs = outputs;
}

abbrev pub omnidat_service_definitions : List Service
omnidat_service_definitions =
    (record {
      slug = "directory";
      name = "Packet Clearing Directory";
      x121 = "311088010110";
      owner = "OMNIDAT";
      category = "directory";
      status = "up";
      reachable = true;
      verbs =
          verb "DIR" "List services by namespace." ("namespace" ∷ [])
            ("entries" ∷ "x121" ∷ "serviceName" ∷ [])
          ∷ verb "LOOKUP" "Resolve one X.121 service." ("x121" ∷ [])
              ("service" ∷ "verbs" ∷ "status" ∷ [])
          ∷ [];
    })
    ∷ (record {
      slug = "food-service";
      name = "Miliways Order Entry";
      x121 = "311088020501";
      owner = "Department of Recreational Commerce";
      category = "food";
      status = "up";
      reachable = true;
      verbs =
          verb "MENU" "Return active menu, prices, and line status." ("serviceId" ∷ [])
            ("items" ∷ "prices" ∷ "waitLines" ∷ [])
          ∷ verb "QUOTE" "Quote order total in ShadyBucks." ("itemIds" ∷ "shadybucksAccountId" ∷ [])
              ("total" ∷ "currency" ∷ "estimatedWait" ∷ [])
          ∷ verb "ORDER.CREATE" "Create an order and line ticket."
              ("itemIds" ∷ "pickupName" ∷ "shadybucksAccountId" ∷ [])
              ("orderId" ∷ "lineTicket" ∷ "receiptId" ∷ [])
          ∷ verb "ORDER.STATUS" "Check order progress." ("orderId" ∷ [])
              ("status" ∷ "window" ∷ "estimatedWait" ∷ [])
          ∷ [];
    })
    ∷ (record {
      slug = "activity-passport";
      name = "Passport Log Entry";
      x121 = "311088030021";
      owner = "Packet Utility Commission";
      category = "passport";
      status = "up";
      reachable = true;
      verbs =
          verb "STAMP" "File activity evidence." ("badge" ∷ "operatorId" ∷ "evidence" ∷ [])
            ("stampId" ∷ "meritClaimStatus" ∷ [])
          ∷ verb "CLAIM.STATUS" "Check merit claim review." ("stampId" ∷ [])
              ("status" ∷ "reviewer" ∷ "receiptId" ∷ [])
          ∷ [];
    })
    ∷ (record {
      slug = "shadybucks-atm";
      name = "OmniBucks ATM PAD";
      x121 = "311088030100";
      owner = "ShadyBucks Settlement Office";
      category = "billing";
      status = "up";
      reachable = true;
      verbs =
          verb "ATM.SETUP" "Activate an ATM terminal on the X.25 network."
            ("terminalId" ∷ "settlementAccountId" ∷ "x121" ∷ [])
            ("atmId" ∷ "activationCode" ∷ "receiptId" ∷ [])
          ∷ verb "BALANCE" "Read account balance." ("shadybucksAccountId" ∷ [])
              ("availableBalance" ∷ "currency" ∷ [])
          ∷ verb "WITHDRAW" "Authorize a withdrawal." ("shadybucksAccountId" ∷ "amount" ∷ [])
              ("receiptId" ∷ "authorizationCode" ∷ [])
          ∷ verb "DEPOSIT" "Post a deposit." ("shadybucksAccountId" ∷ "amount" ∷ [])
              ("receiptId" ∷ "postedBalance" ∷ [])
          ∷ verb "ISO8583.SEND" "Send a redacted ISO 8583 ATM message over X.25."
              ("mti" ∷ "processingCode" ∷ "amount" ∷ "terminalId" ∷ "retrievalReference" ∷ [])
              ("responseMti" ∷ "responseCode" ∷ "authorizationCode" ∷ [])
          ∷ [];
    })
    ∷ (record {
      slug = "shadybucks-pos";
      name = "ShadyBucks POS Authorization";
      x121 = "311088002010";
      owner = "ShadyBucks Settlement Office";
      category = "billing";
      status = "up";
      reachable = true;
      verbs =
          verb "POS.SALE" "Authorize a vintage dial terminal sale."
            ("terminalId" ∷ "amount" ∷ "merchantAccountId" ∷ "clerkCode" ∷ [])
            ("authorizationCode" ∷ "responseCode" ∷ "receiptId" ∷ [])
          ∷ verb "POS.REDEEM-NOTE" "Redeem a bearer instrument at a merchant terminal."
              ("terminalId" ∷ "amount" ∷ "noteSerial" ∷ []) ("authorizationCode" ∷ "receiptId" ∷ [])
          ∷ verb "POS.CLOSE-BATCH" "Close a terminal or clerk batch."
              ("terminalId" ∷ "clerkCode" ∷ []) ("batchId" ∷ "settlementStatus" ∷ [])
          ∷ [];
    })
    ∷ (record {
      slug = "radio-pad";
      name = "Radio Gateway Status";
      x121 = "311088040777";
      owner = "Office of Field Telecommunications";
      category = "transport";
      status = "degraded";
      reachable = true;
      verbs =
          verb "PING" "Measure PAD path health." ("transport" ∷ [])
            ("latencyMs" ∷ "packetLoss" ∷ "status" ∷ [])
          ∷ verb "TRACE" "Trace transport path to destination." ("destinationX121" ∷ [])
              ("hops" ∷ "transportPath" ∷ [])
          ∷ [];
    })
    ∷ []

abbrev pub omnidat_billing_accounts : List BillingAccount
omnidat_billing_accounts =
    (record {
      account_id = "SB-CAMP-LAMINAR-001";
      provider = "ShadyBucks";
      type = "camp-operating";
      owner = "Camp Laminar";
      status = "linked-demo";
      balance = pos 128800;
      currency = "SHDY";
    })
    ∷ (record {
      account_id = "SB-ATM-EX88-100";
      provider = "ShadyBucks";
      type = "atm-settlement";
      owner = "Exchange 88 ATM Desk";
      status = "ready-for-terminal";
      balance = pos 500000;
      currency = "SHDY";
    })
    ∷ []

abbrev pub omnidat_circuit_metrics : List Circuit
omnidat_circuit_metrics =
    (record {
      x121 = "311088010110";
      service = "Packet Clearing Directory";
      status = "up";
      latency_ms = 42;
      transport = "cloudflare-worker";
      packet_loss = 0;
    })
    ∷ (record {
      x121 = "311088020501";
      service = "Miliways Order Entry";
      status = "up";
      latency_ms = 88;
      transport = "meshcore-pad";
      packet_loss = 10;
    })
    ∷ (record {
      x121 = "311088030100";
      service = "OmniBucks ATM PAD";
      status = "up";
      latency_ms = 74;
      transport = "shadytel-hosted";
      packet_loss = 0;
    })
    ∷ (record {
      x121 = "311088040777";
      service = "Radio Gateway Status";
      status = "degraded";
      latency_ms = 240;
      transport = "meshtastic-pad";
      packet_loss = 80;
    })
    ∷ []

abbrev pub omnidat_provisioning_requests : List ProvisioningRequest
omnidat_provisioning_requests =
    (record {
      id = "PV-020184";
      campsite_name = "Camp Laminar";
      namespace = "camp";
      transport = "meshcore";
      assigned_x121 = "311088020184";
      status = "pending-network-install";
    })
    ∷ []

abbrev pub omnidat_food_menu : List FoodMenuItem
omnidat_food_menu =
    (record {
      item_id = "NOODLE-CUP";
      name = "Noodle Cup";
      price_shady_bucks = 700;
      available = true;
    })
    ∷ (record {
      item_id = "TEA-THERMOS";
      name = "Thermos Tea";
      price_shady_bucks = 400;
      available = true;
    })
    ∷ (record {
      item_id = "NIGHT-PLATE";
      name = "Night Plate";
      price_shady_bucks = 1300;
      available = false;
    })
    ∷ []

abbrev pub create_initial_operational_state : OperationalState
create_initial_operational_state = record {
  services = omnidat_service_definitions;
  circuits = omnidat_circuit_metrics;
  provisioning_requests = omnidat_provisioning_requests;
  billing_accounts = omnidat_billing_accounts;
  ledger =
      (record {
        id = "LEDGER-PV-020184";
        account_id = "SB-CAMP-LAMINAR-001";
        entry_kind = "provisioning-fee";
        amount = neg 2500;
        currency = "SHDY";
        memo = "X.121 provisioning fee for Camp Laminar";
        receipt_id = "RCPT-PV-020184";
      })
      ∷ [];
  pads =
      (record {
        id = "PAD-040777";
        x121 = "311088040777";
        transport = "meshtastic";
        pad_kind = "meshtastic-pad";
        endpoint_label = "Exchange 88 radio gateway";
        status = "testing";
        profile =
            "PAD SET TRANSPORT MESHTASTIC\nPAD SET X121 311088040777\nPAD SET WINDOW 2\nPAD SET ECHO LOCAL";
      })
      ∷ [];
  food_orders = [];
  passport_stamps = [];
  audit_events =
      (record {
        id = "AUDIT-BOOT";
        event_type = "network.boot";
        subject_kind = "network";
        subject_id = "exchange-88";
        details = ("source", "seeded-exchange-88-adapter") ∷ [];
      })
      ∷ [];
  next_camp_address = 185;
}
