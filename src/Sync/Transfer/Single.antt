-- ===== src/Sync/Transfer/Single.antt =====
-- The authority table keeps one row for an event and an epoch.
use omnidat.Prelude.{
  All-append, Bool-cases, inl, inr, ne_of_==, sym, ◌∙◌, ◌++◌, ◌∷◌, [], List, ℕ, subst, ◌+◌, ◌<◌,
  String, Bool, none, some, ◌≡◌, refl, arith, All, string_eq, option_eq, filter,
}
use omnidat.Sync.Rows.{AuthorityRow, Db, Driver, eager, lazy}
use omnidat.Sync.Authority.{of_event}
use omnidat.Sync.Authority.Laws.{row_epoch}
use omnidat.Sync.Transfer.{
  Transfer, Transferred, transferred, transfer_row, record_transfer, transfer_event_authority,
}
use omnidat.Sync.Transfer.TakesOver.{
  current, transfer_event_authority-takes_over, transfer_event_authority-new_epoch,
}

-- No event has two rows of one epoch.
abbrev Clash : AuthorityRow → AuthorityRow → Type 0
Clash row r = (r.event_id ≡ row.event_id) × (row_epoch r ≡ row_epoch row)

abbrev pub IsSingle : List AuthorityRow → Type 0
IsSingle [] = Unit
IsSingle (row ∷ rows) = All (λ r. Clash row r → ⊥) rows × IsSingle rows

IsSingle-append :
    (rows : List AuthorityRow) (new : AuthorityRow)
    → IsSingle rows
    → All (λ r. Clash r new → ⊥) rows
    → IsSingle (rows ++ new ∷ [])
IsSingle-append [] new h k = (tt, tt)
IsSingle-append (row ∷ rows) new h k = (
  All-append (λ r. Clash row r → ⊥) rows (new ∷ []) h.0 (k.0, tt),
  IsSingle-append rows new h.1 k.1,
)

apart :
    (event_id : String) (rows : List AuthorityRow) (new : AuthorityRow) (epoch : ℕ)
    → new.event_id ≡ some event_id
    → row_epoch new ≡ epoch
    → All (λ r. row_epoch r < epoch) (filter (of_event (some event_id)) rows)
    → All (λ r. Clash r new → ⊥) rows
apart event_id [] new epoch e n h = tt
apart event_id (r ∷ rows) new epoch e n h = elim (Bool-cases (of_event (some event_id) r)) [
  | inl own ↦
      let split = rw own at h in
      (λ c. absurd (omega (arith, c.1, n, split.0)), apart event_id rows new epoch e n split.1)
  | inr other ↦ (
    λ c. ne_of_== r.event_id (some event_id) other (sym c.0 ∙ e),
    apart event_id rows new epoch e n (rw other at h),
  )
]

-- A transfer that is made keeps it that no event has two authority rows of one epoch, whether or not
-- the driver runs its insert: the row that it inserts has a new epoch, and is inserted once.
pub transfer_event_authority-IsSingle :
    {D : Type 0} (driver : Driver) (available : Bool) (input : Transfer) (db : Db D)
    (t : Transferred) (db' : Db D)
    → transfer_event_authority driver available input db ≡ transferred t db'
    → IsSingle db.authority
    → IsSingle db'.authority
unfolding transfer_event_authority record_transfer transfer_row
transfer_event_authority-IsSingle eager available input db t db' e h =
    let grown : db'.authority
        ≡ db.authority ++ transfer_row input (current input db) db.journal ∷ [] =
      ground arith in
    let next : t.epoch ≡ (current input db).epoch + 1 =
      (transfer_event_authority-takes_over input db eager available t db' none e).0 in
    subst IsSingle (sym grown) (
      IsSingle-append db.authority (transfer_row input (current input db) db.journal) h (
        apart input.event_id db.authority (transfer_row input (current input db) db.journal) t.epoch
          refl (sym next) (transfer_event_authority-new_epoch input db eager available t db' e)))
transfer_event_authority-IsSingle lazy available input db t db' e h =
    let kept : db.authority ≡ db'.authority = ground arith in subst IsSingle kept h
