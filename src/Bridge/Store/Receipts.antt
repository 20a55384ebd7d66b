-- ===== src/Bridge/Store/Receipts.antt =====
-- Receipts are never issued twice, and a receipt keeps naming its own message.
use omnidat.Prelude.{
  ℕ, ◌+◌, ◌<◌, String, true, false, Option, none, some, get_or, List, [], ◌∷◌, ◌++◌, ◌≡◌, ◌≢◌, refl,
  ap, ◌∙◌, arith, ◌==◌, if◌then◌else◌, nat_beq, nat_eq, string_eq, ==_refl, All, All-map,
  All-append, eq_iff, Bool-cases, if_then, if_else, inl, inr, pad_start_injective,
}
use omnidat.Bridge.Store.{
  TextOps, StoredDm, Store, empty, put, put_at, box_of, apply, File, Bridge, rcpt_of, dm_op,
  post_op, send_dm, mark_read, board_post, event_id_of,
}
use omnidat.Bridge.Store.Views.{status_of, status_at, receipt}
use omnidat.Bridge.Store.Recovery.{Call, send, mark, publish, perform, perform_all}

-- What holds of every store that calls lead to.
pub record IsSound (s : Store) : Type 0 where
  -- receipts and boxes refer to messages in use
  pub receipts_in : (r : String) (p : ℕ) → s.by_rcpt r ≡ some p → p < s.size
  pub boxes_in : (addr : String) → All (λ p. p < s.size) (box_of s addr)
  -- no receipt of a number yet to come is there
  pub fresh : (n : ℕ) → s.rcpt_seq < n → s.by_rcpt (rcpt_of n) ≡ none

rcpt_of-injective : (m n : ℕ) → rcpt_of m ≡ rcpt_of n → m ≡ n
unfolding rcpt_of
rcpt_of-injective m n = pad_start_injective 5 "MSG-" m n

pub unequal : (s t : String) → s ≢ t → (s == t) ≡ false
unequal s t n = elim (Bool-cases (s == t)) [
  | inl same ↦ absurd (n ((eq_iff s t).0 same))
  | inr other ↦ other
]

empty-IsSound : IsSound empty
empty-IsSound = record { receipts_in = λ r p e. cc; boxes_in = λ addr. tt; fresh = λ n h. refl }

module _ {T : Type 0} (texts : TextOps T) where
  send_dm-IsSound :
      (now : ℕ) (from to body : String) (b : Bridge T)
      → IsSound b.store
      → IsSound (send_dm texts now from to body b).1.store
  unfolding send_dm dm_op apply
  send_dm-IsSound now from to body b h = record {
    receipts_in = receipts;
    boxes_in = boxes;
    fresh = later;
  }
    where
      s : Store
      s = b.store

      receipts :
          (r : String) (p : ℕ)
          → put (rcpt_of (s.rcpt_seq + 1)) s.size s.by_rcpt r ≡ some p
          → p < s.size + 1
      receipts r p e = elim (Bool-cases (r == rcpt_of (s.rcpt_seq + 1))) [
        | inl new ↦ ground (arith, e)
        | inr old ↦ let below = h.receipts_in r p (rw old at e) in omega (arith, below)
      ]

      widen : (ps : List ℕ) → All (λ p. p < s.size) ps → All (λ p. p < s.size + 1) ps
      widen ps k = All-map (λ p. p < s.size) (λ p. p < s.size + 1) (λ p lt. omega (arith, lt)) ps k

      boxes :
          (addr : String)
          → All (λ p. p < s.size + 1) (get_or (put to (box_of s to ++ s.size ∷ []) s.mail addr) [])
      boxes addr = elim (Bool-cases (addr == to)) [
        | inl own ↦ rw own (
            All-append (λ p. p < s.size + 1) (box_of s to) (s.size ∷ [])
              (widen (box_of s to) (h.boxes_in to)) (omega arith, tt))
        | inr other ↦ rw other (widen (box_of s addr) (h.boxes_in addr))
      ]

      later :
          (n : ℕ)
          → s.rcpt_seq + 1 < n
          → put (rcpt_of (s.rcpt_seq + 1)) s.size s.by_rcpt (rcpt_of n) ≡ none
      later n lt =
          let differ =
            unequal (rcpt_of n) (rcpt_of (s.rcpt_seq + 1))
              (λ e. absurd (omega (arith, rcpt_of-injective n (s.rcpt_seq + 1) e))) in
          rw differ (h.fresh n (omega arith))

  module _ (trim : String → String) where
    perform-IsSound :
        (c : Call) (b : Bridge T) → IsSound b.store → IsSound (perform trim texts c b).store
    unfolding perform mark_read board_post apply post_op
    perform-IsSound (send now from to body) b h = send_dm-IsSound now from to body b h
    perform-IsSound (mark now addr) b h = record {
      receipts_in = h.receipts_in;
      boxes_in = h.boxes_in;
      fresh = h.fresh;
    }
    perform-IsSound (publish now board body opts) b h = record {
      receipts_in = h.receipts_in;
      boxes_in = h.boxes_in;
      fresh = h.fresh;
    }

    perform_all-IsSound_from :
        (cs : List Call) (b : Bridge T)
        → IsSound b.store
        → IsSound (perform_all trim texts cs b).store
    unfolding perform_all
    perform_all-IsSound_from [] b h = h
    perform_all-IsSound_from (c ∷ cs) b h =
        perform_all-IsSound_from cs (perform trim texts c b) (perform-IsSound c b h)

    -- From an empty store, whatever the calls, every receipt and every box refers to messages of
    -- the store, and no receipt of a number yet to come has been issued.
    pub perform_all-IsSound :
        (cs : List Call) (disk : Option (File T))
        → IsSound (perform_all trim texts cs (record { store = empty; disk = disk })).store
    perform_all-IsSound cs disk =
        perform_all-IsSound_from cs (record { store = empty; disk = disk }) empty-IsSound

  -- The receipt of a message sent told nothing before; after it, it tells the message's address
  -- and that it is unread, and every other receipt tells what it told before.
  pub send_dm-receipt :
      (hours minutes : ℕ → ℕ) (now : ℕ) (from to body rcpt : String) (b : Bridge T)
      → IsSound b.store
      → let sent = send_dm texts now from to body b in
        (receipt hours minutes b.store sent.0.0 ≡ none)
        × (receipt hours minutes sent.1.store rcpt ≡ (
            if rcpt == sent.0.0
            then some
                (record { rcpt = rcpt; to = to; delivered = true; read = false; read_at = none })
            else receipt hours minutes b.store rcpt))
  unfolding send_dm dm_op apply receipt
  send_dm-receipt hours minutes now from to body rcpt b h = (
    ap (status_at hours minutes (rcpt_of (s.rcpt_seq + 1)) s.heap)
        (h.fresh (s.rcpt_seq + 1) (omega arith)),
    elim (Bool-cases (rcpt == rcpt_of (s.rcpt_seq + 1))) [
      | inl own ↦ if_then _ (rcpt == rcpt_of (s.rcpt_seq + 1)) own (
          ap (status_at hours minutes rcpt heap') (at_new own)
          ∙ ap (status_of hours minutes rcpt) heap_new)
      | inr other ↦
          if_else _ (rcpt == rcpt_of (s.rcpt_seq + 1)) other
            (ap (status_at hours minutes rcpt heap') (at_other other) ∙ kept (s.by_rcpt rcpt) refl)
    ],
  )
    where
      s : Store
      s = b.store

      msg : StoredDm
      msg = record {
        no = get_or (s.dm_seq to) 0 + 1;
        from = from;
        to = to;
        at = now;
        body = body;
        read = false;
        read_at = none;
        rcpt = rcpt_of (s.rcpt_seq + 1);
        event_id = event_id_of (s.event_seq + 1);
      }

      heap' : ℕ → Option StoredDm
      heap' = put_at s.size msg s.heap

      heap_new : heap' s.size ≡ some msg
      heap_new = rw (==_refl s.size) refl

      at_new :
          (rcpt == rcpt_of (s.rcpt_seq + 1)) ≡ true
          → put (rcpt_of (s.rcpt_seq + 1)) s.size s.by_rcpt rcpt ≡ some s.size
      at_new own = rw own refl

      at_other :
          (rcpt == rcpt_of (s.rcpt_seq + 1)) ≡ false
          → put (rcpt_of (s.rcpt_seq + 1)) s.size s.by_rcpt rcpt ≡ s.by_rcpt rcpt
      at_other other = rw other refl

      below : (p : ℕ) → p < s.size → nat_beq p s.size ≡ false
      below p lt = ground (arith, lt)

      kept :
          (o : Option ℕ)
          → s.by_rcpt rcpt ≡ o
          → status_at hours minutes rcpt heap' o ≡ status_at hours minutes rcpt s.heap o
      kept none e = refl
      kept (some p) e = rw (below p (h.receipts_in rcpt p e)) refl
