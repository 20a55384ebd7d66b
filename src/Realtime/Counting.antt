-- ===== src/Realtime/Counting.antt =====
-- packages/realtime/src/index.ts: the counts of a channel, while each closure is called once.
use omnidat.Prelude.{
  ℕ, suc, String, true, Option, none, some, get_or, List, [], ◌∷◌, ◌≡◌, refl, ap, ◌∙◌, ◌==◌, ==_iff,
  if◌then◌else◌, find, leb, ltb, nat_eq, string_eq, Bool-cases, inl, inr, arith,
}
use omnidat.Realtime.{Listener, Channels, subscribe, take_off, unsubscribe}

-- how many listeners a channel has
abbrev pub listening : String → List Listener → ℕ
listening c [] = 0
listening c (l ∷ ls) = let rest = listening c ls in if l.channel == c then suc rest else rest

abbrev pub Live : Listener → Channels → Type 0
Live l s = find (λ (k : Listener). k.id == l.id) s.listeners ≡ some l

-- The calls that the program makes: a subscription, or the closure of a listener that is still on.
pub data Steps : Channels → Channels → Type 0 where
  stay : {s : Channels} → Steps s s
  subscribes : {s t : Channels} (channel : String) → Steps s t → Steps s (subscribe channel t).1
  unsubscribes : {s t : Channels} (l : Listener) → Live l t → Steps s t → Steps s (unsubscribe l t)

pub record IsCounted (s : Channels) : Type 0 where
  pub counted : (c : String) → get_or (s.ref_counts c) 0 ≡ listening c s.listeners
  pub opened : (c : String) → s.is_subscribed c ≡ ltb 0 (listening c s.listeners)

same_listener : (k l : Listener) → some k ≡ some l → k ≡ l
same_listener k l h = ground arith

-- the listeners of a channel, with one more
abbrev with_one : Listener → String → ℕ → ℕ
with_one l c n = if l.channel == c then suc n else n

listening-take_off :
    (c : String) (l : Listener) (ls : List Listener)
    → find (λ (k : Listener). k.id == l.id) ls ≡ some l
    → listening c ls ≡ with_one l c (listening c (take_off l.id ls))
listening-take_off c l [] h = cc
listening-take_off c l (k ∷ ls) h = elim (Bool-cases (k.id == l.id)) [
  | inl own ↦
      rw own
        (ap (λ (m : Listener). with_one m c (listening c ls)) (same_listener k l (rw own at h)))
  | inr other ↦ rw other (
      ap (with_one k c) (listening-take_off c l ls (rw other at h))
      ∙ swapped k l c (listening c (take_off l.id ls)))
]
  where
    swapped :
        (k l : Listener) (c : String) (n : ℕ)
        → with_one k c (with_one l c n) ≡ with_one l c (with_one k c n)
    swapped k l c n = ground arith

-- the count of a channel, wherever it is named
counted_at :
    (s : Channels) (channel c : String)
    → IsCounted s
    → (channel == c) ≡ true
    → get_or (s.ref_counts channel) 0 ≡ listening c s.listeners
counted_at s channel c h e =
    h.counted channel ∙ ap (λ x. listening x s.listeners) ((==_iff channel c).0 e)

subscribe-IsCounted :
    (channel : String) (s : Channels) → IsCounted s → IsCounted (subscribe channel s).1
unfolding subscribe
subscribe-IsCounted channel s h = record {
  counted = λ c. elim (Bool-cases (channel == c)) [
    | inl own ↦ rw own (omega (arith, counted_at s channel c h own))
    | inr other ↦ rw other (omega (arith, h.counted c))
  ];
  opened = λ c. elim (Bool-cases (channel == c)) [
    | inl own ↦ elim (Bool-cases (get_or (s.ref_counts channel) 0 == 0)) [
      | inl first ↦ rw (own, first) (rw own (ground arith))
      | inr more ↦ rw (own, more) (h.opened c ∙ ground (arith, counted_at s channel c h own, more))
    ]
    | inr other ↦ elim (Bool-cases (get_or (s.ref_counts channel) 0 == 0)) [
      | inl first ↦ rw (other, first) (rw other (h.opened c))
      | inr more ↦ rw (other, more) (h.opened c)
    ]
  ];
}

counted_or : (o : Option ℕ) (k : ℕ) → get_or o 0 ≡ suc k → get_or o 1 ≡ suc k
counted_or none k h = absurd (omega arith)
counted_or (some n) k h = h

unsubscribe-IsCounted :
    (l : Listener) (s : Channels) → Live l s → IsCounted s → IsCounted (unsubscribe l s)
unfolding unsubscribe
unsubscribe-IsCounted l s on h =
    let current = get_or (s.ref_counts l.channel) 1 in
    let left = λ (c : String). listening c (take_off l.id s.listeners) in
    let before = λ (c : String). listening-take_off c l s.listeners on in
    record {
      counted = λ c. elim (Bool-cases (l.channel == c)) [
        | inl own ↦
            let exact =
              counted_or (s.ref_counts l.channel) (left c)
                (counted_at s l.channel c h own ∙ before c ∙ rw own refl) in
            elim (Bool-cases (leb current 1)) [
              | inl last ↦ rw (own, last) (ground (arith, exact, last))
              | inr more ↦ rw (own, more) (ground (arith, exact, more))
            ]
        | inr other ↦ rw other (h.counted c ∙ before c ∙ rw other refl)
      ];
      opened = λ c. elim (Bool-cases (l.channel == c)) [
        | inl own ↦
            let exact =
              counted_or (s.ref_counts l.channel) (left c)
                (counted_at s l.channel c h own ∙ before c ∙ rw own refl) in
            elim (Bool-cases (leb current 1)) [
              | inl last ↦ rw last (rw own (ground (arith, exact, last)))
              | inr more ↦ rw more (h.opened c ∙ ground (arith, exact, more, before c, own))
            ]
        | inr other ↦
            let same = h.opened c ∙ ap (ltb 0) (before c ∙ rw other refl) in
            elim (Bool-cases (leb current 1)) [
              | inl last ↦ rw last (rw other same)
              | inr more ↦ rw more same
            ]
      ];
    }

-- While each closure is called once, the client is subscribed to exactly the channels that have a
-- listener, and the count of a channel is the number of its listeners.
pub Steps-IsCounted : {s t : Channels} → Steps s t → IsCounted s → IsCounted t
Steps-IsCounted stay h = h
Steps-IsCounted (subscribes channel steps) h =
    subscribe-IsCounted channel _ (Steps-IsCounted steps h)
Steps-IsCounted (unsubscribes l on steps) h = unsubscribe-IsCounted l _ on (Steps-IsCounted steps h)
