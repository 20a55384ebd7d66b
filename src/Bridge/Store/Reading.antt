-- ===== src/Bridge/Store/Reading.antt =====
-- What a mailbox shows after a message is sent, and after the box is read.
use mathlib.Core.Option as Option
use omnidat.Prelude.{
  ℕ, ◌+◌, ◌<◌, String, Bool, true, false, not, Option, none, some, get_or, List, [], ◌∷◌, ◌++◌, map,
  ◌≡◌, refl, sym, ap, ◌∙◌, arith, ◌==◌, if◌then◌else◌, filter, filter-append, nat_beq, nat_eq,
  string_eq, eq_iff, ==_refl, All, All-map, subst, Bool-cases, if_then, if_else, inl, inr,
}
use omnidat.Bridge.Store.{
  TextOps, StoredDm, Store, put, put_at, mark, mark_all, box_of, apply, Bridge, rcpt_of,
  event_id_of, dm_op, send_dm, mark_read,
}
use omnidat.Bridge.Store.Views.{MailItem, messages, hhmm, mail_item, mailbox}
use omnidat.Bridge.Store.Receipts.{IsSound}

abbrev is_unread : StoredDm → Bool
is_unread m = not m.read

messages-append :
    (heap : ℕ → Option StoredDm) (ps qs : List ℕ)
    → messages heap (ps ++ qs) ≡ messages heap ps ++ messages heap qs
unfolding messages
messages-append heap [] qs = refl
messages-append heap (p ∷ ps) qs = ground (arith, messages-append heap ps qs)

-- A new object does not change what a box that does not refer to it shows.
messages-put_at :
    (size : ℕ) (msg : StoredDm) (heap : ℕ → Option StoredDm) (ps : List ℕ)
    → All (λ p. p < size) ps
    → messages (put_at size msg heap) ps ≡ messages heap ps
unfolding messages
messages-put_at size msg heap [] h = refl
messages-put_at size msg heap (p ∷ ps) h =
    let old : nat_beq p size ≡ false = ground (arith, h.0) in
    rw (messages, old) (ground (arith, messages-put_at size msg heap ps h.1))

map-append : {A B : Type 0} (f : A → B) (xs ys : List A) → map f (xs ++ ys) ≡ map f xs ++ map f ys
map-append f [] ys = refl
map-append f (x ∷ xs) ys = ap (λ zs. f x ∷ zs) (map-append f xs ys)

module _ (hours minutes : ℕ → ℕ) where
  abbrev shown : List StoredDm → List MailItem
  shown ms = map (mail_item hours minutes) (filter is_unread ms)

  shown-append : (xs ys : List StoredDm) → shown (xs ++ ys) ≡ shown xs ++ shown ys
  shown-append xs ys =
      ap (map (mail_item hours minutes)) (filter-append is_unread xs ys)
      ∙ map-append (mail_item hours minutes) (filter is_unread xs) (filter is_unread ys)

  -- A message sent stands at the end of its addressee's mailbox, under the next number of that
  -- box, and every other mailbox shows what it showed.
  pub send_dm-mailbox :
      {T : Type 0} (texts : TextOps T) (now : ℕ) (from to body addr : String) (b : Bridge T)
      → IsSound b.store
      → mailbox hours minutes (send_dm texts now from to body b).1.store addr ≡ (
          if addr == to
          then mailbox hours minutes b.store addr
            ++ (record {
              no = get_or (b.store.dm_seq to) 0 + 1;
              from = from;
              ts = hhmm hours minutes now;
              body = body;
            })
              ∷ []
          else mailbox hours minutes b.store addr)
  unfolding send_dm dm_op apply mailbox mail_item messages
  send_dm-mailbox texts now from to body addr b h = elim (Bool-cases (addr == to)) [
    | inl own ↦ if_then _ (addr == to) own (
        ap (λ box. shown (messages heap' box)) (own_box own)
        ∙ ap shown (messages-append heap' (box_of s addr) (s.size ∷ []))
        ∙ shown-append (messages heap' (box_of s addr)) (messages heap' (s.size ∷ []))
        ∙ ap (λ ms. shown ms ++ shown (messages heap' (s.size ∷ [])))
            (messages-put_at s.size msg s.heap (box_of s addr) (h.boxes_in addr))
        ∙ ap (λ ms. shown (messages s.heap (box_of s addr)) ++ shown ms) new_message)
    | inr other ↦ if_else _ (addr == to) other (
        ap (λ box. shown (messages heap' box)) (other_box other)
        ∙ ap shown (messages-put_at s.size msg s.heap (box_of s addr) (h.boxes_in addr)))
  ]
    where
      s : Store
      s = b.store

      msg : StoredDm
      msg = record {
        no = get_or (s.dm_seq to) 0 + 1;
        from = from;
        to = to;
        at = now;
        body = body;
        read = false;
        read_at = none;
        rcpt = rcpt_of (s.rcpt_seq + 1);
        event_id = event_id_of (s.event_seq + 1);
      }

      heap' : ℕ → Option StoredDm
      heap' = put_at s.size msg s.heap

      mail' : String → Option (List ℕ)
      mail' = put to (box_of s to ++ s.size ∷ []) s.mail

      own_box : (addr == to) ≡ true → get_or (mail' addr) [] ≡ box_of s addr ++ s.size ∷ []
      own_box own = rw own (ap (λ a. box_of s a ++ s.size ∷ []) (sym ((eq_iff addr to).0 own)))

      other_box : (addr == to) ≡ false → get_or (mail' addr) [] ≡ box_of s addr
      other_box other = rw other refl

      new_message : messages heap' (s.size ∷ []) ≡ msg ∷ []
      new_message = rw (messages, ==_refl s.size) refl

-- an object that is not there, or that is marked read
abbrev IsRead : Option StoredDm → Type 0
IsRead none = Unit
IsRead (some m) = m.read ≡ true

mark-IsRead : (at : ℕ) (o : Option StoredDm) → IsRead (Option.map (mark at) o)
mark-IsRead at none = tt
mark-IsRead at (some m) = ground arith

mark_kept : (at : ℕ) (o : Option StoredDm) → IsRead o → Option.map (mark at) o ≡ o
mark_kept at none h = refl
mark_kept at (some m) h = ground (arith, h)

mark_all-IsRead_kept :
    (at : ℕ) (ps : List ℕ) (heap : ℕ → Option StoredDm) (q : ℕ)
    → IsRead (heap q)
    → mark_all at ps heap q ≡ heap q
unfolding mark_all
mark_all-IsRead_kept at [] heap q h = refl
mark_all-IsRead_kept at (p ∷ ps) heap q h =
    let heap' = λ (j : ℕ). if j == p then Option.map (mark at) (heap j) else heap j in
    let same : heap' q ≡ heap q = elim (Bool-cases (q == p)) [
      | inl here ↦ rw here (mark_kept at (heap q) h)
      | inr there ↦ rw there refl
    ] in
    mark_all-IsRead_kept at ps heap' q (subst IsRead (sym same) h) ∙ same

mark_all-IsRead :
    (at : ℕ) (ps : List ℕ) (heap : ℕ → Option StoredDm)
    → All (λ p. IsRead (mark_all at ps heap p)) ps
unfolding mark_all
mark_all-IsRead at [] heap = tt
mark_all-IsRead at (p ∷ ps) heap =
    let heap' = λ (j : ℕ). if j == p then Option.map (mark at) (heap j) else heap j in
    let here : IsRead (heap' p) = rw (==_refl p) (mark-IsRead at (heap p)) in
    (subst IsRead (sym (mark_all-IsRead_kept at ps heap' p here)) here, mark_all-IsRead at ps heap')

none_unread :
    (heap : ℕ → Option StoredDm) (ps : List ℕ)
    → All (λ p. IsRead (heap p)) ps
    → filter is_unread (messages heap ps) ≡ []
unfolding messages
none_unread heap [] h = refl
none_unread heap (p ∷ ps) h = go (heap p) h.0 (none_unread heap ps h.1)
  where
    go :
        (o : Option StoredDm)
        → IsRead o
        → filter is_unread (messages heap ps) ≡ []
        → filter is_unread (elim o [ none ↦ messages heap ps | some m ↦ m ∷ messages heap ps ]) ≡ []
    go none r k = k
    go (some m) r k = rw r k

-- After a mailbox is marked read it shows nothing, and marking it again changes no message: the
-- times of reading stay those of the first mark.
pub mark_read-mailbox :
    (hours minutes : ℕ → ℕ) {T : Type 0} (texts : TextOps T) (now later : ℕ) (addr : String)
    (b : Bridge T)
    → let marked = mark_read texts now addr b in
      (mailbox hours minutes marked.store addr ≡ [])
      × All
          (λ p. (mark_read texts later addr marked).store.heap p ≡ marked.store.heap p)
          (box_of b.store addr)
unfolding mark_read apply mailbox
mark_read-mailbox hours minutes texts now later addr b =
    let heap' = mark_all now (box_of b.store addr) b.store.heap in
    let all_read = mark_all-IsRead now (box_of b.store addr) b.store.heap in
    (
      ap (map (mail_item hours minutes)) (none_unread heap' (box_of b.store addr) all_read),
      All-map (λ p. IsRead (heap' p)) (λ p. mark_all later (box_of b.store addr) heap' p ≡ heap' p)
          (λ p r. mark_all-IsRead_kept later (box_of b.store addr) heap' p r) (box_of b.store addr)
          all_read,
    )
