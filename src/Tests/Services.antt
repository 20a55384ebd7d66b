-- ===== src/Tests/Services.antt =====
-- Runs of the small services: clear codes, transports, roles, settlement, billing.
use omnidat.Prelude.{
  ◌+◌, String, Bool, [], ◌∷◌, ◌≡◌, refl, ◌==◌, ◌||◌, length, string_eq, pos_part, neg_part, negsuc,
}
use omnidat.Packet.Transport.{check_transport, Admitted, check_transport-Admitted}
use omnidat.Settlement.{
  PosTransaction, sale, refund, void, live, build_settlement_report, set_of, void_references, total,
}
use omnidat.Settlement.Laws.{dead, live-void_anywhere, build_settlement_report-accounts}

-- some names of `Object.prototype`
abbrev is_inherited : String → Bool
is_inherited name = name == "constructor" || (name == "toString" || name == "valueOf")

check_transport-Admitted_example :
    Admitted is_inherited "meshcore" 80 (check_transport is_inherited "meshcore" 80)
check_transport-Admitted_example = check_transport-Admitted is_inherited "meshcore" 80

abbrev sold : PosTransaction
sold = record { kind = sale; amount = 600; reference = "RRN-2" }

abbrev given_back : PosTransaction
given_back = record { kind = refund; amount = 200; reference = "RRN-3" }

abbrev voiding : PosTransaction
voiding = record { kind = void; amount = 600; reference = "RRN-2" }

live-void_anywhere_example :
    live (given_back ∷ voiding ∷ sold ∷ []) ≡ live (voiding ∷ given_back ∷ sold ∷ [])
live-void_anywhere_example = live-void_anywhere (given_back ∷ []) (sold ∷ []) voiding refl

build_settlement_report-accounts_example :
    let r = build_settlement_report "T1" "B1" (sold ∷ given_back ∷ voiding ∷ []) in
    (r.sale_count + r.refund_count + length (dead (sold ∷ given_back ∷ voiding ∷ []))
      ≡ r.transaction_count)
    × (r.gross_sales + neg_part r.net ≡ r.refunds + pos_part r.net)
build_settlement_report-accounts_example =
    build_settlement_report-accounts "T1" "B1" (sold ∷ given_back ∷ voiding ∷ [])

-- the only sale is voided, so the net is that of the refund
voided_runs :
    (build_settlement_report "T1" "B1" (sold ∷ given_back ∷ voiding ∷ [])).net ≡ negsuc 199
unfolding build_settlement_report live set_of void_references total
voided_runs = refl
