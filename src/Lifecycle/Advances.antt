-- ===== src/Lifecycle/Advances.antt =====
-- packages/api/src/router/omnidat-persistence.ts: legal transitions, and why a lifecycle ends.
use omnidat.Prelude.{
  ℕ, ◌-◌, ◌≤◌, ◌<◌, String, Bool, true, false, not, Option, none, some, List, [], ◌∷◌, ◌≡◌, refl,
  ap, subst, ◌==◌, ==_iff, if◌then◌else◌, nat_eq, string_eq, length, Bool-cases, Option-cases, inl,
  inr, arith,
}
use omnidat.Lifecycle.{
  provisioning_states, index_of, is_terminal, follows, is_legal_provisioning_transition,
  ProvisioningRow, row_named, advanced, update_rows, persist_provisioning_advance, advance_all,
}

pub index_of-lt : (xs : List String) (s : String) (i : ℕ) → index_of xs s ≡ some i → i < length xs
unfolding index_of
index_of-lt [] s i h = cc
index_of-lt (x ∷ xs) s i h = elim (Bool-cases (x == s)) [
  | inl here ↦ ground (arith, rw here at h)
  | inr there ↦ elim (Option-cases (index_of xs s)) [
    | inl absent ↦ cc (rw (there, absent) at h)
    | inr (j, found) ↦ ground (arith, rw (there, found) at h, index_of-lt xs s j found)
  ]
]

unplaced :
    (t s : String)
    → (t == s) ≡ true
    → index_of provisioning_states t ≡ none
    → index_of provisioning_states s ≡ none
unplaced t s h p = subst (λ r. index_of provisioning_states r ≡ none) ((==_iff t s).0 h) p

terminal_unplaced : (s : String) → is_terminal s ≡ true → index_of provisioning_states s ≡ none
unfolding is_terminal index_of
terminal_unplaced s h = elim (Bool-cases ("suspended" == s)) [
  | inl here ↦ unplaced "suspended" s here refl
  | inr other ↦ elim (Bool-cases ("revoked" == s)) [
    | inl there ↦ unplaced "revoked" s there refl
    | inr neither ↦ cc (rw (other, neither) at h)
  ]
]

-- how many advances a status leaves room for
abbrev pub room_at : Bool → Option ℕ → ℕ
room_at true i = 0
room_at false none = 1
room_at false (some i) = 7 - i

unfoldable pub room : String → ℕ
room s = room_at (is_terminal s) (index_of provisioning_states s)

abbrev PlacedUnder : Option ℕ → Type 0
PlacedUnder none = Unit
PlacedUnder (some i) = i < 7

index_placed : (s : String) → PlacedUnder (index_of provisioning_states s)
index_placed s = elim (Option-cases (index_of provisioning_states s)) [
  | inl absent ↦ rw absent tt
  | inr (i, found) ↦ rw found (index_of-lt provisioning_states s i found)
]

room_falls :
    (to_ends from_ends : Bool) (j i : Option ℕ)
    → PlacedUnder i
    → (from_ends ≡ true → i ≡ none)
    → (if to_ends then not from_ends else follows i j) ≡ true
    → room_at to_ends j < room_at from_ends i
room_falls true true j i p q h = cc
room_falls true false j none p q h = omega arith
room_falls true false j (some i) p q h = omega arith
room_falls false b j none p q h = cc
room_falls false b none (some i) p q h = cc
room_falls false true (some j) (some i) p q h = cc (q refl)
room_falls false false (some j) (some i) p q h = ground arith

legal-room :
    (from to : String) → is_legal_provisioning_transition from to ≡ true → room to < room from
unfolding is_legal_provisioning_transition room
legal-room from to h =
    room_falls (is_terminal to) (is_terminal from) (index_of provisioning_states to)
      (index_of provisioning_states from) (index_placed from) (terminal_unplaced from) h

room_bound : (s : String) → room s ≤ 7
unfolding room
room_bound s = elim (Option-cases (index_of provisioning_states s)) [
  | inl absent ↦ rw absent (elim (Bool-cases (is_terminal s)) [
    | inl e ↦ rw e (omega arith)
    | inr e ↦ rw e (omega arith)
  ])
  | inr (i, found) ↦ rw found (elim (Bool-cases (is_terminal s)) [
    | inl e ↦ rw e (omega arith)
    | inr e ↦ rw e (omega arith)
  ])
]

pub row_named-update_rows :
    (id to : String) (rows : List ProvisioningRow) (row : ProvisioningRow)
    → row_named id rows ≡ some row
    → row_named id (update_rows id to none rows) ≡ some (advanced to none row)
row_named-update_rows id to [] row h = cc
row_named-update_rows id to (r ∷ rows) row h = elim (Bool-cases (r.id == id)) [
  | inl own ↦ rw own (rw own (ap some (ap (advanced to none) (some_same r row (rw own at h)))))
  | inr other ↦ rw other (rw other (row_named-update_rows id to rows row (rw other at h)))
]
  where
    some_same : (a b : ProvisioningRow) → some a ≡ some b → a ≡ b
    some_same a b e = ground arith

advance_all-bound :
    (id : String) (statuses : List String) (rows : List ProvisioningRow) (row : ProvisioningRow)
    → row_named id rows ≡ some row
    → (advance_all id statuses rows).0 ≤ room row.status
unfolding advance_all persist_provisioning_advance
advance_all-bound id [] rows row h = omega arith
advance_all-bound id (to ∷ later) rows row h =
    elim (Bool-cases (is_legal_provisioning_transition row.status to)) [
      | inl legal ↦
          rw (h, legal)
            (omega (
              arith,
              legal-room row.status to legal,
              advance_all-bound id later (update_rows id to none rows) (advanced to none row)
                  (row_named-update_rows id to rows row h),
            ))
      | inr illegal ↦ rw (h, illegal) (advance_all-bound id later rows row h)
    ]

-- Whatever statuses a request in the table is driven to, it is advanced at most as often as its own
-- status leaves room for, and that is seven times at most: every lifecycle ends.
pub advance_all-ends :
    (id : String) (statuses : List String) (rows : List ProvisioningRow) (row : ProvisioningRow)
    → row_named id rows ≡ some row
    → ((advance_all id statuses rows).0 ≤ room row.status) × (room row.status ≤ 7)
advance_all-ends id statuses rows row h =
    (advance_all-bound id statuses rows row h, room_bound row.status)
