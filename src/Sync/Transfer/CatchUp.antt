-- ===== src/Sync/Transfer/CatchUp.antt =====
-- A field kit takes an event over only when it has seen every other source's journal.
use mathlib.Core.Bool.{false≢true}
use omnidat.Prelude.{
  ne_of_==, subst, ℕ, ◌≤◌, String, true, false, none, get_or, List, [], ◌∷◌, ◌≡◌, ◌↔◌, ◌⊎◌, inl,
  inr, refl, arith, All, max, ◌==◌, string_eq, eq_iff, Bool-cases,
}
use omnidat.Sync.Rows.{JournalRow}
use omnidat.Sync.Transfer.{
  Transfer, lookup, raise_max, is_skipped, source_name, max_by_source, first_behind, catch_up_guard,
}

-- the sequence number up to which the target has seen a source
abbrev pub seen_up_to : List (String × ℕ) → String → ℕ
seen_up_to watermarks id = get_or (lookup id watermarks) 0

abbrev CaughtUp : List (String × ℕ) → List (String × ℕ) → Type 0
CaughtUp watermarks [] = Unit
CaughtUp watermarks ((id, seq) ∷ rest) = (seq ≤ seen_up_to watermarks id) × CaughtUp watermarks rest

-- The target has seen the row, or need not.
abbrev pub HasSeen : String → List (String × ℕ) → JournalRow → Type 0
HasSeen to_source_id watermarks row =
    (is_skipped to_source_id row.source_id ≡ true)
    ⊎ (get_or row.seq 0 ≤ seen_up_to watermarks (source_name row.source_id))

first_behind-none :
    (watermarks maxima : List (String × ℕ))
    → (first_behind watermarks maxima ≡ none) ↔ CaughtUp watermarks maxima
unfolding first_behind
first_behind-none watermarks [] = (λ _. tt, λ _. refl)
first_behind-none watermarks ((id, seq) ∷ rest) =
    let ih = first_behind-none watermarks rest in
    (λ e. (ground arith, ih.0 (ground arith)), λ c. ground (arith, ih.1 c.1))

CaughtUp-raise_max :
    (watermarks : List (String × ℕ)) (id : String) (seq : ℕ) (maxima : List (String × ℕ))
    → CaughtUp watermarks (raise_max id seq maxima)
      ↔ ((seq ≤ seen_up_to watermarks id) × CaughtUp watermarks maxima)
unfolding raise_max
CaughtUp-raise_max watermarks id seq [] = (λ c. (omega arith, tt), λ c. (omega arith, tt))
CaughtUp-raise_max watermarks id seq ((k, v) ∷ rest) = elim (Bool-cases (k == id)) [
  | inl same ↦ rw same (meet ((eq_iff k id).0 same))
  | inr other ↦
      let ih = CaughtUp-raise_max watermarks id seq rest in
      rw other (λ c. ((ih.0 c.1).0, (c.0, (ih.0 c.1).1)), λ c. (c.1.0, ih.1 (c.0, c.1.1)))
]
  where
    meet :
        k ≡ id
        → CaughtUp watermarks ((k, max v seq) ∷ rest)
          ↔ ((seq ≤ seen_up_to watermarks id) × CaughtUp watermarks ((k, v) ∷ rest))
    meet e =
        subst
          (λ j.
            CaughtUp watermarks ((k, max v seq) ∷ rest)
            ↔ ((seq ≤ seen_up_to watermarks j) × CaughtUp watermarks ((k, v) ∷ rest)))
          e (λ c. (omega arith, (omega arith, c.1)), λ c. (omega arith, c.1.1))

seen_of : {P : Type 0} → (false ≡ true) ⊎ P → P
seen_of (inl e) = absurd (false≢true e)
seen_of (inr p) = p

CaughtUp-max_by_source :
    (to_source_id : String) (watermarks maxima : List (String × ℕ)) (rows : List JournalRow)
    → CaughtUp watermarks (max_by_source to_source_id maxima rows)
      ↔ (CaughtUp watermarks maxima × All (HasSeen to_source_id watermarks) rows)
unfolding max_by_source
CaughtUp-max_by_source to_source_id watermarks maxima [] = (λ c. (c, tt), λ c. c.0)
CaughtUp-max_by_source to_source_id watermarks maxima (row ∷ rows) =
    elim (Bool-cases (is_skipped to_source_id row.source_id)) [
      | inl skipped ↦
          let ih = CaughtUp-max_by_source to_source_id watermarks maxima rows in
          rw skipped (λ c. ((ih.0 c).0, (inl refl, (ih.0 c).1)), λ c. ih.1 (c.0, c.1.1))
      | inr counted ↦
          let name = source_name row.source_id in
          let ih =
            CaughtUp-max_by_source to_source_id watermarks
              (raise_max name (get_or row.seq 0) maxima) rows in
          let raised = CaughtUp-raise_max watermarks name (get_or row.seq 0) maxima in
          rw counted (
            λ c. ((raised.0 (ih.0 c).0).1, (inr (raised.0 (ih.0 c).0).0, (ih.0 c).1)),
            λ c. ih.1 (raised.1 (seen_of c.1.0, c.0), c.1.1),
          )
    ]

-- A transfer to a holder that is not the cloud passes its guard exactly when the watermarks that
-- the target sends cover every journal row of every other named source; a transfer to the cloud
-- always passes.
pub catch_up_guard-none_iff :
    (input : Transfer) (journal : List JournalRow)
    → (catch_up_guard input journal ≡ none) ↔ (
        (input.to_holder ≡ "cloud")
        ⊎ All (HasSeen input.to_source_id (get_or input.target_watermarks [])) journal)
unfolding catch_up_guard
catch_up_guard-none_iff input journal = elim (Bool-cases (input.to_holder == "cloud")) [
  | inl cloud ↦ rw cloud (λ _. inl ((eq_iff _ _).0 cloud), λ _. refl)
  | inr field ↦
      let watermarks = get_or input.target_watermarks [] in
      let caught = CaughtUp-max_by_source input.to_source_id watermarks [] journal in
      let ahead = first_behind-none watermarks (max_by_source input.to_source_id [] journal) in
      rw field (
        λ e. inr (caught.0 (ahead.0 e)).1,
        λ h. ahead.1 (
            caught.1 (
              tt,
              elim h [ inl e ↦ absurd (ne_of_== input.to_holder "cloud" field e) | inr all ↦ all ],
            )),
      )
]
