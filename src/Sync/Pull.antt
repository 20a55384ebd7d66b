-- ===== src/Sync/Pull.antt =====
-- `pullJournalEntries`: what a source has not seen of the others.
pub mod Laws
use omnidat.Prelude.{
  ℕ, String, Bool, true, false, not, Option, none, some, get_or, List, [], ◌∷◌, ◌==◌, ◌&&◌, ltb,
  leb, if◌then◌else◌, filter, string_eq,
}
use omnidat.Sync.Rows.{JournalRow, Db}
use omnidat.Sync.Transfer.{lookup, source_name}

-- `row.sourceId && row.sourceId !== sourceId && (row.seq ?? 0) > (watermarks[row.sourceId] ?? 0)`
pub is_unseen : String → List (String × ℕ) → JournalRow → Bool
is_unseen source_id watermarks row = elim row.source_id [
  | none ↦ false
  | some id ↦
      not (id == "")
      && (not (id == source_id) && ltb (get_or (lookup id watermarks) 0) (get_or row.seq 0))
]

-- `precedes` is `localeCompare(…) <= 0` on two source ids.
module _ (precedes : String → String → Bool) where
  -- the comparison of the sort, as "not after"
  pub not_after : JournalRow → JournalRow → Bool
  not_after left right =
      if source_name left.source_id == source_name right.source_id
      then leb (get_or left.seq 0) (get_or right.seq 0)
      else precedes (source_name left.source_id) (source_name right.source_id)

  pub insert_row : JournalRow → List JournalRow → List JournalRow
  insert_row row [] = row ∷ []
  insert_row row (r ∷ rows) = if not_after row r then row ∷ r ∷ rows else r ∷ insert_row row rows

  pub sort_rows : List JournalRow → List JournalRow
  sort_rows [] = []
  sort_rows (row ∷ rows) = insert_row row (sort_rows rows)

  pub pull_journal_entries :
      {D : Type 0} → Option (Db D) → String → List (String × ℕ) → List JournalRow
  pull_journal_entries none source_id watermarks = []
  pull_journal_entries (some db) source_id watermarks =
      sort_rows (filter (is_unseen source_id watermarks) db.journal)
