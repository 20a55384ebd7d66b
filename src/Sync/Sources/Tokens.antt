-- ===== src/Sync/Sources/Tokens.antt =====
-- A registration's token is the one that verifies.
use mathlib.Core.Bool.{false≢true}
use omnidat.Prelude.{
  ==_iff, String, Bool, true, false, none, some, get_or, List, [], ◌∷◌, ◌++◌, ◌≡◌, ◌≢◌, refl, arith,
  ◌==◌, ◌&&◌, find, string_eq, option_eq, eq_iff, ==_refl, Bool-cases, inl, inr,
}
use omnidat.Sync.Rows.{SyncSourceRow, Db, Driver, eager, lazy}
use omnidat.Sync.Sources.{
  is_active, is_named, Registration, Registered, rotate, new_source, is_registered,
  verify_sync_token, register_sync_source,
}

-- the test of `verifySyncToken` for a named source
abbrev matches : String → String → SyncSourceRow → Bool
matches token_hash source_id row =
    is_active row && ((row.token_hash == some token_hash) && is_named (some source_id) row)

-- the row that a registration leaves for its source
abbrev rotated_row : Registration → String → SyncSourceRow → SyncSourceRow
rotated_row input token_hash row = record row {
  token_hash = some token_hash;
  source_kind = some (get_or input.source_kind "field-kit");
  active = some true;
}

abbrev Finds : String → String → List SyncSourceRow → Type 0
Finds token_hash source_id rows =
    (row : SyncSourceRow) × (find (matches token_hash source_id) rows ≡ some row)
    × (row.source_id ≡ some source_id)

find-rotate :
    (input : Registration) (token_hash : String) (rows : List SyncSourceRow)
    → is_registered input.source_id rows ≡ true
    → Finds token_hash input.source_id (rotate input token_hash rows)
unfolding is_registered rotate
find-rotate input token_hash [] h = absurd (false≢true h)
find-rotate input token_hash (row ∷ rows) h =
    elim (Bool-cases (row.source_id == some input.source_id)) [
      | inl own ↦ rw own (
        rotated_row input token_hash row,
        rw (==_refl token_hash) (rw own),
        (==_iff row.source_id (some input.source_id)).0 own,
      )
      | inr other ↦
          let (found, here, named) = find-rotate input token_hash rows (rw other at h) in
          rw other (found, ground (arith, here), named)
    ]

find-new_source :
    (input : Registration) (token_hash : String) (rows : List SyncSourceRow)
    → is_registered input.source_id rows ≡ false
    → Finds token_hash input.source_id (rows ++ new_source input token_hash ∷ [])
unfolding is_registered
find-new_source input token_hash [] h =
    (new_source input token_hash, rw (==_refl token_hash, ==_refl input.source_id), refl)
find-new_source input token_hash (row ∷ rows) h =
    let (found, here, named) = find-new_source input token_hash rows (ground arith) in
    (found, ground (arith, here), named)

-- Under another hash no row of the source is left.
find-rotate_old :
    (input : Registration) (token_hash old : String) (rows : List SyncSourceRow)
    → old ≢ token_hash
    → find (matches old input.source_id) (rotate input token_hash rows) ≡ none
unfolding rotate
find-rotate_old input token_hash old [] h = refl
find-rotate_old input token_hash old (row ∷ rows) h =
    elim (Bool-cases (row.source_id == some input.source_id)) [
      | inl own ↦
          let differ : (token_hash == old) ≡ false = ground (arith, eq_iff token_hash old) in
          rw own (rw differ (find-rotate_old input token_hash old rows h))
      | inr other ↦ rw other (ground (arith, find-rotate_old input token_hash old rows h))
    ]

find-new_source_old :
    (input : Registration) (token_hash old : String) (rows : List SyncSourceRow)
    → is_registered input.source_id rows ≡ false
    → old ≢ token_hash
    → find (matches old input.source_id) (rows ++ new_source input token_hash ∷ []) ≡ none
unfolding is_registered
find-new_source_old input token_hash old [] u h = ground (arith, eq_iff token_hash old)
find-new_source_old input token_hash old (row ∷ rows) u h =
    ground (arith, find-new_source_old input token_hash old rows)

-- No row of a source that is not registered is found.
find-unregistered :
    (input : Registration) (old : String) (rows : List SyncSourceRow)
    → is_registered input.source_id rows ≡ false
    → find (matches old input.source_id) rows ≡ none
unfolding is_registered
find-unregistered input old [] u = refl
find-unregistered input old (row ∷ rows) u = ground (arith, find-unregistered input old rows)

module _ (hash : String → String) {D : Type 0} where
  -- With a driver that runs an insert without its being awaited: after a registration the token that it returns verifies for its source, at a row of that
  -- source, whether the source was new or its token was rotated.
  pub register_sync_source-verifies :
      (available : Bool) (sync_token : String) (input : Registration) (db : Db D) (r : Registered)
      (db' : Db D)
      → register_sync_source hash eager available sync_token input db ≡ some (r, db')
      → (row : SyncSourceRow) × (verify_sync_token hash
            (some db')
            r.sync_token
            (some input.source_id)
          ≡ some row)
        × (row.source_id ≡ some input.source_id)
  unfolding register_sync_source verify_sync_token
  register_sync_source-verifies available sync_token input db r db' e =
      elim (Bool-cases (is_registered input.source_id db.sources)) [
        | inl old ↦
            let (row, found, named) = find-rotate input (hash sync_token) db.sources old in
            (row, ground (arith, found), named)
        | inr new ↦
            let (row, found, named) = find-new_source input (hash sync_token) db.sources new in
            (row, ground (arith, found), named)
      ]

  -- After a registration no token of another hash verifies for the source, whether or not the
  -- driver runs the insert of a new source.
  pub register_sync_source-revokes :
      (driver : Driver) (available : Bool) (sync_token : String) (input : Registration) (db : Db D)
      (r : Registered) (db' : Db D) (old_token : String)
      → register_sync_source hash driver available sync_token input db ≡ some (r, db')
      → hash old_token ≢ hash sync_token
      → verify_sync_token hash (some db') old_token (some input.source_id) ≡ none
  unfolding register_sync_source verify_sync_token
  register_sync_source-revokes driver available sync_token input db r db' old_token e h =
      elim (Bool-cases (is_registered input.source_id db.sources)) [
        | inl old ↦
            ground (arith, find-rotate_old input (hash sync_token) (hash old_token) db.sources h)
        | inr new ↦ go driver new e
      ]
    where
      go :
          (d : Driver)
          → is_registered input.source_id db.sources ≡ false
          → register_sync_source hash d available sync_token input db ≡ some (r, db')
          → verify_sync_token hash (some db') old_token (some input.source_id) ≡ none
      go eager new e =
          ground
            (arith, find-new_source_old input (hash sync_token) (hash old_token) db.sources new h)
      go lazy new e = ground (arith, find-unregistered input (hash old_token) db.sources new)
