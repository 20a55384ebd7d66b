-- ===== src/Sync/Transfer/TakesOver.antt =====
-- What a transfer does to the authority over its own event, and over the others.
use omnidat.Prelude.{
  subst, All-map, ◌+◌, ◌<◌, String, Bool, true, false, Option, none, some, ◌≡◌, refl, arith, All,
  string_eq, option_eq, ◌==◌, if◌then◌else◌, filter,
}
use omnidat.Sync.Rows.{Authority, Db, Driver, eager, lazy}
use omnidat.Sync.Authority.{authority_from_rows, of_event}
use omnidat.Sync.Authority.Laws.{row_epoch, authority_from_rows-max, authority_from_rows-append}
use omnidat.Sync.Batch.{max_seq}
use omnidat.Sync.Transfer.{
  Transfer, Transferred, Refusal, Outcome, refused, transferred, transfer_row, record_transfer,
  refuse_or, catch_up_guard, transfer_event_authority,
}

-- the authority over the input's event before the transfer
abbrev pub current : {D : Type 0} → Transfer → Db D → Authority
current input db = authority_from_rows db.authority (some input.event_id)

-- what a read gives after an insert that is not awaited: the new value if the insert has run
abbrev pub after_insert : {A : Type 0} → Driver → (new old : A) → A
after_insert eager new old = new
after_insert lazy new old = old

module _ {D : Type 0} (input : Transfer) (db : Db D) where
  abbrev pub Takes : Driver → Outcome D → Type 0
  Takes driver (refused why) = Unit
  Takes driver (transferred t db') =
      (t.epoch ≡ (current input db).epoch + 1)
      × (t.fence_seq ≡ max_seq (current input db).holder_source_id db.journal)
      × ((event_id : Option String)
          → authority_from_rows db'.authority event_id
            ≡ after_insert driver
                (if some input.event_id == event_id
                  then record {
                    holder = input.to_holder;
                    holder_source_id = input.to_source_id;
                    epoch = t.epoch;
                    fence_seq = some t.fence_seq;
                  }
                  else authority_from_rows db.authority event_id)
                (authority_from_rows db.authority event_id))
      × (db'.journal ≡ db.journal)
      × (db'.ops.tables ≡ db.ops.tables)

  record_transfer-Takes :
      (driver : Driver) → Takes driver (record_transfer driver input (current input db) db)
  unfolding record_transfer
  record_transfer-Takes eager = (
    refl,
    refl,
    λ event_id.
        authority_from_rows-append db.authority (transfer_row input (current input db) db.journal)
          event_id (current input db).epoch refl (omega arith),
    refl,
    refl,
  )
  record_transfer-Takes lazy = (refl, refl, λ event_id. refl, refl, refl)

  refuse_or-Takes :
      (driver : Driver) (o : Option Refusal) (r : Outcome D)
      → Takes driver r
      → Takes driver (refuse_or o r)
  refuse_or-Takes driver none r h = h
  refuse_or-Takes driver (some why) r h = tt

  transfer_event_authority-Takes :
      (driver : Driver) (available : Bool)
      → Takes driver (transfer_event_authority driver available input db)
  unfolding transfer_event_authority
  transfer_event_authority-Takes driver true =
      refuse_or-Takes driver (catch_up_guard input db.journal)
        (record_transfer driver input (current input db) db) (record_transfer-Takes driver)
  transfer_event_authority-Takes driver false = tt

  -- A transfer that is not refused reports the next epoch of its event, with the greatest sequence
  -- number received from the outgoing source as the fence. With a driver that runs the insert, which
  -- is not awaited, the authority over the event is from then on the new holder's, and that over every
  -- other event is what it was; with one that does not, the authority over every event is what it
  -- was. The journal and the domain tables are unchanged.
  pub transfer_event_authority-takes_over :
      (driver : Driver) (available : Bool) (t : Transferred) (db' : Db D) (event_id : Option String)
      → transfer_event_authority driver available input db ≡ transferred t db'
      → (t.epoch ≡ (current input db).epoch + 1)
        × (t.fence_seq ≡ max_seq (current input db).holder_source_id db.journal)
        × (authority_from_rows db'.authority event_id
            ≡ after_insert driver
                (if some input.event_id == event_id
                  then record {
                    holder = input.to_holder;
                    holder_source_id = input.to_source_id;
                    epoch = t.epoch;
                    fence_seq = some t.fence_seq;
                  }
                  else authority_from_rows db.authority event_id)
                (authority_from_rows db.authority event_id))
        × (db'.journal ≡ db.journal)
        × (db'.ops.tables ≡ db.ops.tables)
  transfer_event_authority-takes_over driver available t db' event_id e =
      let (epoch, fence, holder, journal, tables) =
        subst (Takes driver) e (transfer_event_authority-Takes driver available) in
      (epoch, fence, holder event_id, journal, tables)

  -- The epoch of a transfer is new: no row of the event had it.
  pub transfer_event_authority-new_epoch :
      (driver : Driver) (available : Bool) (t : Transferred) (db' : Db D)
      → transfer_event_authority driver available input db ≡ transferred t db'
      → All (λ row. row_epoch row < t.epoch) (filter (of_event (some input.event_id)) db.authority)
  transfer_event_authority-new_epoch driver available t db' e =
      let (epoch, _, _, _, _) =
        subst (Takes driver) e (transfer_event_authority-Takes driver available) in
      All-map _ _ (λ row h. omega arith) (filter (of_event (some input.event_id)) db.authority)
        (authority_from_rows-max db.authority (some input.event_id))
