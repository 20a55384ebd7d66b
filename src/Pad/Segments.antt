-- ===== src/Pad/Segments.antt =====
-- packages/pad-telnet/src/session.ts: `feed` does not depend on how a stream is cut into buffers.
use Prim.Native.String as Text
use omnidat.Prelude.{
  ℕ, String, Bool, true, false, Option, none, some, List, [], ◌∷◌, ◌++◌, ◌≡◌, refl, sym, ap, ◌∙◌,
  if◌then◌else◌, Bool-cases, fun_ext, subst, if_either, arith, inl, inr, append_assoc,
  append_nothing, nothing_append,
}
use omnidat.Pad.Line.{
  FeedResult, Commands, Editor, Turn, said, signals, stops, take, later, each_byte, replied, feed,
}

stops-later :
    (new before : Option FeedResult)
    → stops new ≡ false
    → stops before ≡ false
    → stops (later new before) ≡ false
stops-later none before h k = k
stops-later (some r) before h k = h

module _ {S : Type 0} where
  -- an answer after a text
  abbrev pub prefixed : String → FeedResult × Editor S → FeedResult × Editor S
  prefixed text (r, e) = (record r { output = Text.◌++◌ text r.output }, e)

  prefixed_twice :
      (p q : String) (a : FeedResult × Editor S)
      → prefixed p (prefixed q a) ≡ prefixed (Text.◌++◌ p q) a
  prefixed_twice p q (r, e) =
      ap (λ x. (record r { output = x }, e)) (sym (append_assoc p q r.output))

  pub prefixed_nothing : (a : FeedResult × Editor S) → prefixed "" a ≡ a
  prefixed_nothing (r, e) = ap (λ x. (record r { output = x }, e)) (nothing_append r.output)

  said_after :
      (out : String) (result : Option FeedResult) (e : Editor S)
      → stops result ≡ false
      → replied (out, result, e) ≡ prefixed out (said "", e)
  said_after out none e h = ap (λ x. (said x, e)) (sym (append_nothing out))
  said_after out (some r) e h = rw h (ap (λ x. (said x, e)) (sym (append_nothing out)))

  stopped_after :
      (out text : String) (result : Option FeedResult) (e : Editor S)
      → stops result ≡ true
      → replied (Text.◌++◌ out text, result, e) ≡ prefixed out (replied (text, result, e))
  stopped_after out text none e h = absurd (ground arith)
  stopped_after out text (some r) e h = rw h refl

module _ {S : Type 0} where
  replied-editor : (t : Turn S) → (replied t).1 ≡ t.2
  replied-editor (out, none, e) = refl
  replied-editor (out, some r, e) = refl

module _ {S : Type 0} (commands : Commands S) where
  -- The bytes one by one: the text of each before the answer to the rest.
  unfoldable pub answer : List ℕ → Editor S → FeedResult × Editor S
  answer [] e = (said "", e)
  answer (byte ∷ bytes) e =
      let turn = take commands byte e in
      let rest = answer bytes turn.2 in if stops turn.1 then replied turn else prefixed turn.0 rest

  each_byte-answer :
      (bytes : List ℕ) (out : String) (result : Option FeedResult) (e : Editor S)
      → stops result ≡ false
      → replied (each_byte commands bytes out result e) ≡ prefixed out (answer bytes e)
  unfolding each_byte answer
  each_byte-answer [] out result e h = said_after out result e h
  each_byte-answer (byte ∷ bytes) out result e h =
      let turn = take commands byte e in
      elim (Bool-cases (stops turn.1)) [
        | inl stop ↦ rw stop (stopped_after out turn.0 turn.1 turn.2 stop)
        | inr go ↦ rw go (
            each_byte-answer bytes (Text.◌++◌ out turn.0) (later turn.1 result) turn.2
              (stops-later turn.1 result go h)
            ∙ sym (prefixed_twice out turn.0 (answer bytes turn.2)))
      ]

  pub feed-answer : (bytes : List ℕ) (e : Editor S) → feed commands bytes e ≡ answer bytes e
  unfolding feed
  feed-answer bytes e = each_byte-answer bytes "" none e refl ∙ prefixed_nothing (answer bytes e)

  signals-replied : (t : Turn S) → stops t.1 ≡ true → signals (replied t).0 ≡ true
  signals-replied (out, none, e) h = h
  signals-replied (out, some r, e) h = rw h h

  prefixed_if :
      (p : String) (b : Bool) (x y : FeedResult × Editor S)
      → prefixed p (if b then x else y) ≡ (if b then prefixed p x else prefixed p y)
  prefixed_if p true x y = refl
  prefixed_if p false x y = refl

  -- what two buffers one after the other do: a signal in the first drops the second
  abbrev pub in_turn :
      FeedResult × Editor S → (Editor S → FeedResult × Editor S) → FeedResult × Editor S
  in_turn first second = if signals first.0 then first else prefixed first.0.output (second first.1)

  answer-append :
      (xs ys : List ℕ) (e : Editor S) → answer (xs ++ ys) e ≡ in_turn (answer xs e) (answer ys)
  unfolding answer
  answer-append [] ys e = sym (prefixed_nothing (answer ys e))
  answer-append (byte ∷ xs) ys e =
      let turn = take commands byte e in
      elim (Bool-cases (stops turn.1)) [
        | inl stop ↦ rw stop (rw (signals-replied turn stop) refl)
        | inr go ↦ rw go (
            ap (prefixed turn.0) (answer-append xs ys turn.2)
            ∙ prefixed_if turn.0 (signals (answer xs turn.2).0) (answer xs turn.2)
                (prefixed (answer xs turn.2).0.output (answer ys (answer xs turn.2).1))
            ∙ ap
                (λ x.
                  if signals (answer xs turn.2).0 then prefixed turn.0 (answer xs turn.2) else x)
                (prefixed_twice turn.0 (answer xs turn.2).0.output
                  (answer ys (answer xs turn.2).1)))
      ]

  -- Cutting the stream anywhere changes nothing: the text, the signal and the state are those of the
  -- two buffers in turn, except that a signal in the first drops what is after it.
  pub feed-append :
      (xs ys : List ℕ) (e : Editor S)
      → feed commands (xs ++ ys) e ≡ in_turn (feed commands xs e) (feed commands ys)
  feed-append xs ys e =
      feed-answer (xs ++ ys) e
      ∙ answer-append xs ys e
      ∙ rw (sym (feed-answer xs e), sym (fun_ext (feed-answer ys))) refl

  -- What every byte keeps, a buffer keeps.
  answer_keeps :
      (P : Editor S → Type 0)
      → ((byte : ℕ) (e : Editor S) → P e → P (take commands byte e).2)
      → (bytes : List ℕ) (e : Editor S) → P e
      → P (answer bytes e).1
  unfolding answer
  answer_keeps P keeps [] e h = h
  answer_keeps P keeps (byte ∷ bytes) e h =
      let turn = take commands byte e in
      if_either {A = FeedResult × Editor S} (λ a. P a.1) (stops turn.1) _ _
        (λ _. subst P (sym (replied-editor turn)) (keeps byte e h))
        (λ _. answer_keeps P keeps bytes turn.2 (keeps byte e h))

  pub feed_keeps :
      (P : Editor S → Type 0)
      → ((byte : ℕ) (e : Editor S) → P e → P (take commands byte e).2)
      → (bytes : List ℕ) (e : Editor S) → P e
      → P (feed commands bytes e).1
  feed_keeps P keeps bytes e h =
      subst (λ a. P a.1) (sym (feed-answer bytes e)) (answer_keeps P keeps bytes e h)
