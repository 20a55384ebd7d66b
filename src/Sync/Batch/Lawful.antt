-- ===== src/Sync/Batch/Lawful.antt =====
-- Who may write an entry: what the two tests of the loop mean in terms of the authority rows.
use mathlib.Core.List.{Memᴰ}
use omnidat.Prelude.{
  ℕ, ◌+◌, ◌≤◌, ◌<◌, String, true, false, Option, none, some, List, ◌≡◌, refl, ◌⊎◌, inl, inr, arith,
  ==_iff, leb→le, string_eq, option_eq, nat_eq, Bool-cases, eq_iff,
}
use omnidat.Sync.Rows.{Entry, Authority, AuthorityRow, ApplyStatus, applied, quarantined}
use omnidat.Sync.Authority.{authority_from_rows, epoch_holder_row, fence_for_epoch, row_fence}
use omnidat.Sync.Authority.Laws.{epoch_holder_row-some, fence_for_epoch_lem}
use omnidat.Sync.Batch.{held_by, within_fence, is_current_holder, is_fenced_history}
use omnidat.Sync.Batch.Cases.{is_authorized}

-- A row of the authority table that gives an epoch of an event to a source.
pub record Held (rows : List AuthorityRow) (event_id : Option String) (epoch : ℕ)
    (source_id : String) : Type 0 where
  pub row : AuthorityRow
  pub listed : Memᴰ row rows
  pub event : row.event_id ≡ event_id
  pub at_epoch : row.epoch ≡ some epoch
  pub holder : row.holder_source_id ≡ some source_id

-- A row of the next epoch whose fence is at least `seq`.
pub record Fenced (rows : List AuthorityRow) (event_id : Option String) (epoch seq : ℕ)
    : Type 0 where
  pub row : AuthorityRow
  pub listed : Memᴰ row rows
  pub event : row.event_id ≡ event_id
  pub at_epoch : row.epoch ≡ some (epoch + 1)
  pub fence : ℕ
  pub fenced : row.fence_seq ≡ some fence
  pub within : seq ≤ fence

-- The source holds the event now, or held it at the entry's epoch and sent the entry in time.
abbrev pub MayWrite : List AuthorityRow → String → Entry → Type 0
MayWrite rows source_id entry =
    ((entry.epoch ≡ (authority_from_rows rows entry.event_id).epoch)
      × (source_id ≡ (authority_from_rows rows entry.event_id).holder_source_id))
    ⊎ ((entry.epoch < (authority_from_rows rows entry.event_id).epoch)
        × Held rows entry.event_id entry.epoch source_id
        × Fenced rows entry.event_id entry.epoch entry.seq)

held_by-Held :
    (rows : List AuthorityRow) (event_id : Option String) (epoch : ℕ) (source_id : String)
    → held_by (epoch_holder_row rows event_id epoch) source_id ≡ true
    → Held rows event_id epoch source_id
held_by-Held rows event_id epoch source_id h = go (epoch_holder_row rows event_id epoch) refl h
  where
    go :
        (o : Option AuthorityRow)
        → epoch_holder_row rows event_id epoch ≡ o
        → held_by o source_id ≡ true
        → Held rows event_id epoch source_id
    go none e k = cc
    go (some row) e k =
        let (listed, event, at_epoch) = epoch_holder_row-some rows event_id epoch row e in
        record {
          row = row;
          listed = listed;
          event = event;
          at_epoch = at_epoch;
          holder = (==_iff _ _).0 k;
        }

within_fence-Fenced :
    (rows : List AuthorityRow) (event_id : Option String) (epoch seq : ℕ)
    → within_fence seq (fence_for_epoch rows event_id epoch) ≡ true
    → Fenced rows event_id epoch seq
within_fence-Fenced rows event_id epoch seq h =
    go (epoch_holder_row rows event_id (epoch + 1)) refl (rw fence_for_epoch_lem at h)
  where
    fence :
        (row : AuthorityRow)
        → (f : Option ℕ) → row.fence_seq ≡ f
        → within_fence seq f ≡ true
        → (n : ℕ) × (row.fence_seq ≡ some n) × (seq ≤ n)
    fence row none e k = cc
    fence row (some n) e k = (n, e, leb→le seq n k)

    go :
        (o : Option AuthorityRow)
        → epoch_holder_row rows event_id (epoch + 1) ≡ o
        → within_fence seq (row_fence o) ≡ true
        → Fenced rows event_id epoch seq
    go none e k = cc
    go (some row) e k =
        let (listed, event, at_epoch) = epoch_holder_row-some rows event_id (epoch + 1) row e in
        let (n, fenced, within) = fence row row.fence_seq refl k in
        record {
          row = row;
          listed = listed;
          event = event;
          at_epoch = at_epoch;
          fence = n;
          fenced = fenced;
          within = within;
        }

pub is_authorized-MayWrite :
    (rows : List AuthorityRow) (source_id : String) (entry : Entry)
    → is_authorized rows source_id entry ≡ true
    → MayWrite rows source_id entry
unfolding is_current_holder is_fenced_history
is_authorized-MayWrite rows source_id entry h =
    elim (Bool-cases
      (is_current_holder (authority_from_rows rows entry.event_id) source_id entry)) [
        | inl current ↦ inl (both_holder current)
        | inr other ↦ inr (
            let (a, b, c) = split_history other in
            (
              a,
              held_by-Held rows entry.event_id entry.epoch source_id b,
              within_fence-Fenced rows entry.event_id entry.epoch entry.seq c,
            ))
      ]
  where
    authority : Authority
    authority = authority_from_rows rows entry.event_id

    both_holder :
        is_current_holder authority source_id entry ≡ true
        → (entry.epoch ≡ authority.epoch) × (source_id ≡ authority.holder_source_id)
    both_holder c = ground (arith, eq_iff source_id authority.holder_source_id)

    split_history :
        is_current_holder authority source_id entry ≡ false
        → (entry.epoch < authority.epoch)
          × (held_by (epoch_holder_row rows entry.event_id entry.epoch) source_id ≡ true)
          × (within_fence entry.seq (fence_for_epoch rows entry.event_id entry.epoch) ≡ true)
    split_history c = ground arith

-- What an accepted or quarantined entry of the log had to satisfy.
abbrev pub Lawful : List AuthorityRow → String → Entry × ApplyStatus → Type 0
Lawful rows source_id (entry, applied) = MayWrite rows source_id entry
Lawful rows source_id (entry, quarantined) =
    entry.epoch ≤ (authority_from_rows rows entry.event_id).epoch
