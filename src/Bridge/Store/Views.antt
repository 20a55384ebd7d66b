-- ===== src/Bridge/Store/Views.antt =====
-- What the store answers: `mailbox`, `receipt`, `boardPage`.
use mathlib.Core.Option as Option
use Prim.Native.String.{◌++◌ as text_append}
use omnidat.Prelude.{
  ℕ, String, Bool, true, not, Option, none, some, List, [], ◌∷◌, map, ltb, filter, numeral,
  pad_start,
}
use omnidat.Bridge.Store.{StoredDm, StoredPost, Store, box_of, posts_of}

-- `MailItem`
pub record MailItem : Type 0 where
  pub no : ℕ
  pub from : String
  pub ts : String
  pub body : String

-- `DeliveryStatus`; `delivered` is always true
pub record DeliveryStatus : Type 0 where
  pub rcpt : String
  pub to : String
  pub delivered : Bool
  pub read : Bool
  pub read_at : Option String

-- `BoardItem`
pub record BoardItem : Type 0 where
  pub no : ℕ
  pub poster : String
  pub ts : ℕ
  pub body : String
  pub event_id : String

-- the objects that the addresses of a box refer to
unfoldable pub messages : (ℕ → Option StoredDm) → List ℕ → List StoredDm
messages heap [] = []
messages heap (p ∷ ps) = elim (heap p) [ none ↦ messages heap ps | some m ↦ m ∷ messages heap ps ]

-- `hours` and `minutes` read the local time of day from epoch milliseconds.
module _ (hours minutes : ℕ → ℕ) where
  pub hhmm : ℕ → String
  hhmm ms =
      text_append (pad_start 2 (numeral 10 (hours ms)))
        (text_append ":" (pad_start 2 (numeral 10 (minutes ms))))

  unfoldable pub mail_item : StoredDm → MailItem
  mail_item m = record { no = m.no; from = m.from; ts = hhmm m.at; body = m.body }

  unfoldable pub mailbox : Store → String → List MailItem
  mailbox s addr =
      map mail_item (filter (λ (m : StoredDm). not m.read) (messages s.heap (box_of s addr)))

  abbrev pub status_of : String → Option StoredDm → Option DeliveryStatus
  status_of rcpt none = none
  status_of rcpt (some m) = some (record {
    rcpt = rcpt;
    to = m.to;
    delivered = true;
    read = m.read;
    read_at = Option.map hhmm m.read_at;
  })

  abbrev pub status_at : String → (ℕ → Option StoredDm) → Option ℕ → Option DeliveryStatus
  status_at rcpt heap none = none
  status_at rcpt heap (some p) = status_of rcpt (heap p)

  unfoldable pub receipt : Store → String → Option DeliveryStatus
  receipt s rcpt = status_at rcpt s.heap (s.by_rcpt rcpt)

-- `after === undefined || p.no > after`
abbrev pub is_after : Option ℕ → StoredPost → Bool
is_after none p = true
is_after (some after) p = ltb after p.no

unfoldable pub board_item : StoredPost → BoardItem
board_item p = record {
  no = p.no;
  poster = p.poster;
  ts = p.at;
  body = p.body;
  event_id = p.event_id;
}

unfoldable pub board_page : Store → String → Option ℕ → List BoardItem
board_page s board after = map board_item (filter (is_after after) (posts_of s board))
