-- ===== src/Settlement.antt =====
-- omnidat-settlement.ts: the settlement report of a batch of point-of-sale transactions.
use Prim.Native.String as Text
pub mod Laws
use omnidat.Prelude.{
  ℕ, ◌+◌, String, Bool, true, false, not, List, [], ◌∷◌, ◌==◌, ◌&&◌, if◌then◌else◌, length, filter,
  map, includes, ℤ, pos, negsuc, sub_ℕ, numeral, suc, string_eq,
}

pub data Kind : Type 0 where
  sale refund void : Kind

abbrev pub is_sale : Kind → Bool
is_sale sale = true
is_sale refund = false
is_sale void = false

abbrev pub is_refund : Kind → Bool
is_refund sale = false
is_refund refund = true
is_refund void = false

abbrev pub is_void : Kind → Bool
is_void sale = false
is_void refund = false
is_void void = true

pub record PosTransaction : Type 0 where
  pub kind : Kind
  pub amount : ℕ
  pub reference : String

pub record SettlementReport : Type 0 where
  pub terminal_id : String
  pub batch_id : String
  pub sale_count : ℕ
  pub refund_count : ℕ
  pub void_count : ℕ
  pub gross_sales : ℕ
  pub refunds : ℕ
  pub net : ℤ
  pub transaction_count : ℕ

-- `new Set(…)`: each value once
unfoldable pub set_of : List String → List String
set_of [] = []
set_of (r ∷ rs) = let rest = set_of rs in if includes rest r then rest else r ∷ rest

unfoldable pub void_references : List PosTransaction → List String
void_references transactions =
    map (λ (t : PosTransaction). t.reference)
      (filter (λ (t : PosTransaction). is_void t.kind) transactions)

abbrev pub is_live : List String → PosTransaction → Bool
is_live voided t = not (is_void t.kind) && not (includes voided t.reference)

-- the transactions that count
unfoldable pub live : List PosTransaction → List PosTransaction
live transactions = filter (is_live (set_of (void_references transactions))) transactions

-- `reduce((sum, t) => sum + t.amount, 0)`
unfoldable pub total : List PosTransaction → ℕ
total [] = 0
total (t ∷ ts) = t.amount + total ts

abbrev pub sales_of : List PosTransaction → List PosTransaction
sales_of = filter (λ (t : PosTransaction). is_sale t.kind)

abbrev pub refunds_of : List PosTransaction → List PosTransaction
refunds_of = filter (λ (t : PosTransaction). is_refund t.kind)

unfoldable pub build_settlement_report : String → String → List PosTransaction → SettlementReport
build_settlement_report terminal_id batch_id transactions =
    let sales = sales_of (live transactions) in
    let refunded = refunds_of (live transactions) in
    record {
      terminal_id = terminal_id;
      batch_id = batch_id;
      sale_count = length sales;
      refund_count = length refunded;
      void_count = length (set_of (void_references transactions));
      gross_sales = total sales;
      refunds = total refunded;
      net = sub_ℕ (total sales) (total refunded);
      transaction_count = length transactions;
    }

-- `${net}`
pub show_ℤ : ℤ → String
show_ℤ (pos n) = numeral 10 n
show_ℤ (negsuc n) = Text.◌++◌ "-" (numeral 10 (suc n))

-- `lines.join("\n")`
pub join_lines : List String → String
join_lines [] = ""
join_lines (line ∷ lines) = elim lines [
  | [] ↦ line
  | l ∷ ls ↦ Text.◌++◌ line (Text.◌++◌ "\n" (join_lines lines))
]

pub render_settlement_report : SettlementReport → String
render_settlement_report report = join_lines (
    "OMNIDAT SETTLEMENT REPORT"
    ∷ "A GMACKO CORPORATION"
    ∷ ""
    ∷ Text.◌++◌ "TERMINAL: " report.terminal_id
    ∷ Text.◌++◌ "BATCH: " report.batch_id
    ∷ ""
    ∷ Text.◌++◌ "SALES: " (
        Text.◌++◌ (numeral 10 report.sale_count)
          (Text.◌++◌ "  GROSS " (numeral 10 report.gross_sales)))
    ∷ Text.◌++◌ "REFUNDS: "
        (Text.◌++◌ (numeral 10 report.refund_count) (Text.◌++◌ "  " (numeral 10 report.refunds)))
    ∷ Text.◌++◌ "VOIDS: " (numeral 10 report.void_count)
    ∷ Text.◌++◌ "NET: " (show_ℤ report.net)
    ∷ ""
    ∷ "RECONCILE AGAINST TERMINAL TAPE AND BANK LEDGER"
    ∷ ""
    ∷ [])
