-- ===== src/Sync/Batch/Cases.antt =====
-- The five ways through the loop's body, and induction over the loop.
use omnidat.Prelude.{
  ◌≤◌, ◌<◌, String, Bool, true, false, ◌||◌, Option, List, [], ◌∷◌, ◌≡◌, refl, inl, inr, arith,
  includes, string_eq, Bool-cases, ltb, if◌then◌else◌,
}
use omnidat.Sync.Rows.{Json, Entry, AuthorityRow, Ops, Driver}
use omnidat.Sync.Authority.{authority_from_rows}
use omnidat.Sync.Batch.{
  Progress, Run, done, threw, at_authority, count_duplicate, count_stale, accepted, quarantine,
  is_current_holder, is_fenced_history, dispatch_op, accept, step, loop,
}

abbrev pub is_authorized : List AuthorityRow → String → Entry → Bool
is_authorized rows source_id entry =
    is_current_holder (authority_from_rows rows entry.event_id) source_id entry
    || is_fenced_history rows (authority_from_rows rows entry.event_id) source_id entry

module _ {D : Type 0} where
  -- what the loop holds when it ends, by its last entry or by a throw
  abbrev pub after : Run D → Progress D
  after (done p) = p
  after (threw p) = p

module _ {D : Type 0} (driver : Driver) (appliers : String → Option (Json → Ops D → Ops D × Bool))
    (rows : List AuthorityRow) (source_id : String) where
  accept_cases {ℓ} :
      (P : Run D → Type ℓ) (entry : Entry) (p : Progress D)
      → ((ops : Ops D)
          → dispatch_op appliers source_id entry p.ops ≡ (ops, true)
          → P (done (accepted driver source_id entry ops p)))
      → ((ops : Ops D)
          → dispatch_op appliers source_id entry p.ops ≡ (ops, false)
          → P (threw (record p { ops = ops })))
      → P (accept driver appliers source_id entry p)
  unfolding accept
  accept_cases P entry p applies throws = go (dispatch_op appliers source_id entry p.ops) refl
    where
      go :
          (r : Ops D × Bool)
          → dispatch_op appliers source_id entry p.ops ≡ r
          → P (
              if r.1
              then done (accepted driver source_id entry r.0 p)
              else threw (record p { ops = r.0 }))
      go (ops, true) e = applies ops e
      go (ops, false) e = throws ops e

  pub step_cases {ℓ} :
      (P : Run D → Type ℓ) (entry : Entry) (p : Progress D)
      → let authority = authority_from_rows rows entry.event_id in
        let q = at_authority authority p in
        (includes p.seen_keys entry.idempotency_key ≡ true → P (done (count_duplicate q)))
        → (authority.epoch < entry.epoch
            → includes p.seen_keys entry.idempotency_key ≡ false
            → P (done (count_stale q)))
        → (includes p.seen_keys entry.idempotency_key ≡ false
            → is_authorized rows source_id entry ≡ true
            → (ops : Ops D) → dispatch_op appliers source_id entry p.ops ≡ (ops, true)
            → P (done (accepted driver source_id entry ops q)))
        → ((ops : Ops D) → P (threw (record q { ops = ops })))
        → (includes p.seen_keys entry.idempotency_key ≡ false
            → entry.epoch ≤ authority.epoch
            → is_authorized rows source_id entry ≡ false
            → P (done (quarantine driver source_id entry q)))
        → P (step driver appliers rows source_id entry p)
  unfolding step
  step_cases P entry p duplicate stale accepts throws refuses =
      elim (Bool-cases (includes p.seen_keys entry.idempotency_key)) [
        | inl seen ↦ rw seen (duplicate seen)
        | inr fresh ↦
            rw fresh
              (elim (Bool-cases (ltb (authority_from_rows rows entry.event_id).epoch entry.epoch)) [
                | inl ahead ↦ rw ahead (stale (ground arith) fresh)
                | inr known ↦ rw known (elim (Bool-cases (is_authorized rows source_id entry)) [
                  | inl authorized ↦
                      rw authorized
                        (accept_cases P entry _ (accepts fresh authorized) (λ ops _. throws ops))
                  | inr other ↦ rw other (refuses fresh (ground arith) other)
                ])
              ])
      ]

  -- What every round of the loop keeps, the loop keeps.
  pub loop_induction {ℓ} :
      (P : Progress D → Type ℓ)
      → ((entry : Entry) (p : Progress D)
          → P p
          → P (after (step driver appliers rows source_id entry p)))
      → (entries : List Entry) (p : Progress D) → P p
      → P (after (loop driver appliers rows source_id entries p))
  unfolding loop
  loop_induction P keep [] p h = h
  loop_induction P keep (entry ∷ entries) p h =
      go (loop_induction P keep entries) (step driver appliers rows source_id entry p)
        (keep entry p h)
    where
      go :
          ((q : Progress D) → P q → P (after (loop driver appliers rows source_id entries q)))
          → (r : Run D) → P (after r)
          → P (
              after (elim r [
                | done q ↦ loop driver appliers rows source_id entries q
                | threw q ↦ threw q
              ]))
      go rest (done q) k = rest q k
      go rest (threw q) k = k
