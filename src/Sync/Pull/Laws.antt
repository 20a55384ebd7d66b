-- ===== src/Sync/Pull/Laws.antt =====
-- What a pull returns, and how it fits the guard of a transfer.
use mathlib.Core.List.Perm
use mathlib.Core.List.{Perm}
use mathlib.Core.Bool.{false≢true}
use omnidat.Prelude.{
  sym, ◌∙◌, ℕ, String, Bool, true, false, Option-cases, eq_iff, ◌⊎◌, ◌<◌, none, some, get_or, List,
  [], ◌∷◌, ◌≡◌, ◌≢◌, ◌↔◌, inl, inr, refl, arith, All, filter, string_eq, Bool-cases,
}
use omnidat.Sync.Rows.{JournalRow, Db}
use omnidat.Sync.Transfer.{Transfer, lookup, catch_up_guard}
use omnidat.Sync.Transfer.CatchUp.{HasSeen, catch_up_guard-none_iff}
use omnidat.Sync.Pull.{is_unseen, not_after, insert_row, sort_rows, pull_journal_entries}

module _ (precedes : String → String → Bool) where
  insert_row-perm :
      (row : JournalRow) (rows : List JournalRow) → Perm (insert_row precedes row rows) (row ∷ rows)
  unfolding insert_row
  insert_row-perm row [] = Perm.refl (row ∷ [])
  insert_row-perm row (r ∷ rows) = elim (Bool-cases (not_after precedes row r)) [
    | inl before ↦ rw before (Perm.refl (row ∷ r ∷ rows))
    | inr behind ↦
        rw behind (Perm.trans (Perm.cons r (insert_row-perm row rows)) (Perm.swap row r rows))
  ]

  sort_rows-perm : (rows : List JournalRow) → Perm (sort_rows precedes rows) rows
  unfolding sort_rows
  sort_rows-perm [] = Perm.refl []
  sort_rows-perm (row ∷ rows) =
      Perm.trans (insert_row-perm row (sort_rows precedes rows))
        (Perm.cons row (sort_rows-perm rows))

  -- A pull returns, each as often as it stands in the journal, the rows that the test lets through.
  pull_journal_entries-perm :
      {D : Type 0} (db : Db D) (source_id : String) (watermarks : List (String × ℕ))
      → Perm
          (pull_journal_entries precedes (some db) source_id watermarks)
          (filter (is_unseen source_id watermarks) db.journal)
  unfolding pull_journal_entries
  pull_journal_entries-perm db source_id watermarks =
      sort_rows-perm (filter (is_unseen source_id watermarks) db.journal)

-- The row is of a named source other than the one that pulls, and is numbered above the watermark
-- that it sends for that source, or above 0 where it sends none.
pub record IsDue (source_id : String) (watermarks : List (String × ℕ)) (row : JournalRow)
    : Type 0 where
  pub id : String
  pub of_source : row.source_id ≡ some id
  pub named : id ≢ ""
  pub other : id ≢ source_id
  pub above : get_or (lookup id watermarks) 0 < get_or row.seq 0

is_unseen-IsDue :
    (source_id : String) (watermarks : List (String × ℕ)) (row : JournalRow)
    → (is_unseen source_id watermarks row ≡ true) ↔ IsDue source_id watermarks row
unfolding is_unseen
is_unseen-IsDue source_id watermarks row = (there (Option-cases row.source_id), back)
  where
    there :
        (row.source_id ≡ none) ⊎ ((id : String) × (row.source_id ≡ some id))
        → is_unseen source_id watermarks row ≡ true
        → IsDue source_id watermarks row
    there (inl absent) h = absurd (ground arith)
    there (inr (id, of_source)) h = record {
      id = id;
      of_source = of_source;
      named = ground (arith, eq_iff id "");
      other = ground (arith, eq_iff id source_id);
      above = ground arith;
    }

    back : IsDue source_id watermarks row → is_unseen source_id watermarks row ≡ true
    back due = ground (
      arith,
      due.of_source,
      due.named,
      due.other,
      due.above,
      eq_iff due.id "",
      eq_iff due.id source_id,
    )

is_unseen-HasSeen :
    (source_id : String) (watermarks : List (String × ℕ)) (row : JournalRow)
    → (is_unseen source_id watermarks row ≡ false) ↔ HasSeen source_id watermarks row
unfolding is_unseen
is_unseen-HasSeen source_id watermarks row = (λ h. ground arith, λ h. ground arith)

filter-nil_iff :
    (source_id : String) (watermarks : List (String × ℕ)) (rows : List JournalRow)
    → (filter (is_unseen source_id watermarks) rows ≡ []) ↔ All (HasSeen source_id watermarks) rows
filter-nil_iff source_id watermarks [] = (λ _. tt, λ _. refl)
filter-nil_iff source_id watermarks (row ∷ rows) =
    let seen = is_unseen-HasSeen source_id watermarks row in
    let ih = filter-nil_iff source_id watermarks rows in
    elim (Bool-cases (is_unseen source_id watermarks row)) [
      | inl unseen ↦ rw unseen (λ e. cc, λ h. absurd (false≢true (sym (seen.1 h.0) ∙ unseen)))
      | inr old ↦ rw old (λ e. (seen.0 old, ih.0 e), λ h. ih.1 h.1)
    ]

module _ (precedes : String → String → Bool) where
  insert_row-ne-nil :
      (row : JournalRow) (rows : List JournalRow) → insert_row precedes row rows ≢ []
  unfolding insert_row
  insert_row-ne-nil row [] = ground arith
  insert_row-ne-nil row (r ∷ rows) = ground arith

  sort_rows-nil_iff : (rows : List JournalRow) → (sort_rows precedes rows ≡ []) ↔ (rows ≡ [])
  unfolding sort_rows
  sort_rows-nil_iff [] = (λ e. refl, λ e. refl)
  sort_rows-nil_iff (row ∷ rows) =
      (λ e. absurd (insert_row-ne-nil row (sort_rows precedes rows) e), λ e. cc)

  -- A transfer to a holder that is not the cloud passes its guard exactly when a pull by the
  -- target, with the watermarks that it sends, would return nothing.
  pull_journal_entries-guard :
      {D : Type 0} (db : Db D) (input : Transfer)
      → input.to_holder ≢ "cloud"
      → (catch_up_guard input db.journal ≡ none) ↔ (
          pull_journal_entries precedes
            (some db)
            input.to_source_id
            (get_or input.target_watermarks [])
          ≡ [])
  unfolding pull_journal_entries
  pull_journal_entries-guard db input field =
      let watermarks = get_or input.target_watermarks [] in
      let guard = catch_up_guard-none_iff input db.journal in
      let empty = filter-nil_iff input.to_source_id watermarks db.journal in
      let sorted =
        sort_rows-nil_iff (filter (is_unseen input.to_source_id watermarks) db.journal) in
      (
        λ h.
            sorted.1
              (empty.1 (elim (guard.0 h) [ inl cloud ↦ absurd (field cloud) | inr seen ↦ seen ])),
        λ h. guard.1 (inr (empty.0 (sorted.0 h))),
      )

  -- A pull returns rows of the journal, each as often as it stands there, and no others than the
  -- journal's: exactly those of a named source other than the one that pulls whose number is above
  -- the watermark sent for their source, or above 0 where none was sent.
  pub pull_journal_entries-IsDue :
      {D : Type 0} (db : Db D) (source_id : String) (watermarks : List (String × ℕ))
      → Perm
          (pull_journal_entries precedes (some db) source_id watermarks)
          (filter (is_unseen source_id watermarks) db.journal)
        × ((row : JournalRow)
            → (is_unseen source_id watermarks row ≡ true) ↔ IsDue source_id watermarks row)
  pull_journal_entries-IsDue db source_id watermarks = (
    pull_journal_entries-perm precedes db source_id watermarks,
    is_unseen-IsDue source_id watermarks,
  )
