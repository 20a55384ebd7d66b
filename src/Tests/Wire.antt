-- ===== src/Tests/Wire.antt =====
-- Runs of the PAD's client over the handler of the bridge's server.
use omnidat.Prelude.{◌+◌, none, get_or, [], ◌∷◌, ◌++◌, ◌≡◌, refl, string_eq}
use omnidat.Bridge.Store.{Bridge, rcpt_of}
use omnidat.Bridge.Store.Views.{mailbox, hhmm}
use omnidat.Pad.Client as Client
use omnidat.Pad.Client.{value, cleared, cleared_with, Catalog}
use omnidat.Pad.Messaging.{run_msg, format_send_receipt}
use omnidat.Pad.Wire.{matrix_bridge, matrix_bridge-mismatched, run_msg-delivers}
use omnidat.Tests.Bridge.{Tape, tapes, same_text, no_hours, busy, busy-IsSound}

abbrev no_boards : Catalog
no_boards = record { boards = []; mail = none }

abbrev barred_bridge : Client.Bridge (Bridge Tape)
barred_bridge = matrix_bridge tapes same_text no_hours no_hours 9 "s3cret" "guess" no_boards

abbrev open_bridge : Client.Bridge (Bridge Tape)
open_bridge = matrix_bridge tapes same_text no_hours no_hours 9 "s3cret" "s3cret" no_boards

matrix_bridge-mismatched_example :
    let barred = cleared_with "RPE" 17 0 in
    (barred_bridge.send_dm "eve" "bob" "hi" busy ≡ (cleared barred, busy))
    × (barred_bridge.mailbox "bob" busy ≡ (cleared barred, busy))
    × (barred_bridge.mark_read "bob" busy ≡ (cleared barred, busy))
    × (barred_bridge.board_page "news" none busy ≡ (cleared barred, busy))
    × (barred_bridge.board_post "news" "hi" none "pad" busy ≡ (cleared barred, busy))
    × (barred_bridge.boards busy ≡ (cleared barred, busy))
    × (barred_bridge.receipt "MSG-00001" busy ≡ (cleared barred, busy))
matrix_bridge-mismatched_example =
    matrix_bridge-mismatched tapes same_text no_hours no_hours 9 "s3cret" "guess" no_boards "eve"
      "bob" "hi" "bob" "MSG-00001" "news" none busy refl

run_msg-delivers_example :
    let after = run_msg open_bridge "eve" "bob" "hi" busy in
    (after.0 ≡ value (format_send_receipt (rcpt_of (busy.store.rcpt_seq + 1))))
    × ((open_bridge.mailbox "bob" after.1).0
        ≡ value (
            mailbox no_hours no_hours busy.store "bob"
            ++ (record {
              no = get_or (busy.store.dm_seq "bob") 0 + 1;
              from = "eve";
              ts = hhmm no_hours no_hours 9;
              body = "hi";
            })
              ∷ []))
run_msg-delivers_example =
    run_msg-delivers tapes same_text no_hours no_hours 9 "s3cret" "s3cret" no_boards "eve" "bob"
      "hi" "bob" busy busy-IsSound refl refl
