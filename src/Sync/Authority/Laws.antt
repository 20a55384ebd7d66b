-- ===== src/Sync/Authority/Laws.antt =====
-- The authority read from the rows is the newest of its event.
use mathlib.Core.List.{Memᴰ, append-nil}
use omnidat.Prelude.{
  subst, find-some, ==_iff, nat_eq, ◌&&◌, ◌+◌, ℕ, ◌≤◌, String, ◌≡◌, refl, inl, inr, Option, none,
  some, get_or, List, [], ◌∷◌, ◌++◌, arith, filter, filter-append, All, Bool-cases, ap,
  if◌then◌else◌, ◌==◌, nat_eq, string_eq, option_eq,
}
use omnidat.Sync.Rows.{AuthorityRow}
use omnidat.Sync.Authority.{
  epoch_holder_row, fence_for_epoch, row_fence, of_event, latest_row, better, to_authority,
  authority_from_rows,
}

abbrev pub row_epoch : AuthorityRow → ℕ
row_epoch row = get_or row.epoch 0

better_max :
    (best : Option AuthorityRow) (row : AuthorityRow)
    → ((to_authority best).epoch ≤ (to_authority (better best row)).epoch)
      × (row_epoch row ≤ (to_authority (better best row)).epoch)
better_max best row = ground arith

latest_row-max :
    (best : Option AuthorityRow) (rows : List AuthorityRow)
    → ((to_authority best).epoch ≤ (to_authority (latest_row best rows)).epoch)
      × All (λ row. row_epoch row ≤ (to_authority (latest_row best rows)).epoch) rows
unfolding latest_row
latest_row-max best [] = (omega arith, tt)
latest_row-max best (row ∷ rows) =
    let step = better_max best row in
    let rest = latest_row-max (better best row) rows in (omega arith, (omega arith, rest.1))

latest_row-append :
    (best : Option AuthorityRow) (rows : List AuthorityRow) (row : AuthorityRow)
    → latest_row best (rows ++ row ∷ []) ≡ better (latest_row best rows) row
unfolding latest_row
latest_row-append best [] row = refl
latest_row-append best (r ∷ rows) row = latest_row-append (better best r) rows row

-- No row of the event has a greater epoch.
pub authority_from_rows-max :
    (rows : List AuthorityRow) (event_id : Option String)
    → All
        (λ row. row_epoch row ≤ (authority_from_rows rows event_id).epoch)
        (filter (of_event event_id) rows)
unfolding authority_from_rows
authority_from_rows-max rows event_id = (latest_row-max none (filter (of_event event_id) rows)).1

better-takes :
    (best : Option AuthorityRow) (row : AuthorityRow) (epoch : ℕ)
    → row.epoch ≡ some (epoch + 1)
    → (to_authority best).epoch ≤ epoch
    → better best row ≡ some row
better-takes best row epoch e h = ground arith

-- A row of a higher epoch takes over its own event, and no other.
pub authority_from_rows-append :
    (rows : List AuthorityRow) (row : AuthorityRow) (event_id : Option String) (epoch : ℕ)
    → row.epoch ≡ some (epoch + 1)
    → (authority_from_rows rows row.event_id).epoch ≤ epoch
    → authority_from_rows (rows ++ row ∷ []) event_id ≡ (
        if row.event_id == event_id
        then to_authority (some row)
        else authority_from_rows rows event_id)
unfolding authority_from_rows
authority_from_rows-append rows row event_id epoch e h =
    rw filter-append (elim (Bool-cases (row.event_id == event_id)) [
      | inl own ↦ rw own (
          rw latest_row-append (
            ap to_authority (
              better-takes (latest_row none (filter (of_event event_id) rows)) row epoch e (
                subst (λ id. (authority_from_rows rows id).epoch ≤ epoch)
                  ((==_iff row.event_id event_id).0 own) h))))
      | inr other ↦ rw other (rw append-nil)
    ])

pub epoch_holder_row-some :
    (rows : List AuthorityRow) (event_id : Option String) (epoch : ℕ) (row : AuthorityRow)
    → epoch_holder_row rows event_id epoch ≡ some row
    → Memᴰ row rows × (row.event_id ≡ event_id) × (row.epoch ≡ some epoch)
unfolding epoch_holder_row
epoch_holder_row-some rows event_id epoch row e =
    let (listed, test) =
      find-some (λ row. of_event event_id row && (row.epoch == some epoch)) rows row e in
    (
      listed,
      (==_iff row.event_id event_id).0 (ground arith),
      (==_iff row.epoch (some epoch)).0 (ground arith),
    )

pub fence_for_epoch_lem :
    (rows : List AuthorityRow) (event_id : Option String) (epoch : ℕ)
    → fence_for_epoch rows event_id epoch ≡ row_fence (epoch_holder_row rows event_id (epoch + 1))
unfolding fence_for_epoch
fence_for_epoch_lem rows event_id epoch = refl
