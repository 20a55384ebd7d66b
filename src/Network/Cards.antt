-- ===== src/Network/Cards.antt =====
-- packages/operator-core/src/omnidat.ts: what a card message says of its account.
use omnidat.Prelude.{String, ◌≡◌, refl}
use omnidat.Network.State.{OperationalState, Words}
use omnidat.Network.Commerce.{IsoInput, simulate_iso8583_transaction, redacted_account_token}

module _ (js : Words) where
  -- A request on the wire says of the account its last four letters or digits and no more: two
  -- accounts that end alike, whatever is in them, make the same request.
  pub simulate_iso8583_transaction-redacts :
      (input : IsoInput) (other : String) (s s1 : OperationalState)
      → js.last 4 (js.alphanumeric input.account_id) ≡ js.last 4 (js.alphanumeric other)
      → (simulate_iso8583_transaction js input s).packed_request
        ≡ (simulate_iso8583_transaction js (record input { account_id = other }) s1).packed_request
  unfolding simulate_iso8583_transaction redacted_account_token
  simulate_iso8583_transaction-redacts input other s s1 h = rw h refl
