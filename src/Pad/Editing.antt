-- ===== src/Pad/Editing.antt =====
-- packages/pad-telnet/src/session.ts: what `feed` keeps out of the line, and the line that it runs.
use omnidat.Prelude.{
  ℕ, String, List, [], ◌∷◌, ◌++◌, ◌≡◌, ◌≢◌, ◌≤◌, ◌<◌, ◌⊎◌, refl, sym, ap, ◌∙◌, arith, All,
  All-append, ltb, ◌==◌, nat_eq, if_either, ◌||◌,
}
use omnidat.Pad.Telnet.{
  Iac, is_idle, Negotiation, standalone, option, subnegotiation, bytes_of, negotiate, iac_byte,
}
use omnidat.Pad.Line.{Commands, Editor, Turn, take, key, drop_last, is_typed, feed}
use omnidat.Pad.Segments.{prefixed_nothing, answer, feed-answer, feed_keeps}

-- a negotiation of a form that telnet has, with no byte 240 in the body of a subnegotiation
abbrev pub IsFormed : Negotiation → Type 0
IsFormed (standalone command) = (command < 250) ⊎ (254 < command)
IsFormed (option command choice) = (251 ≤ command) × (command ≤ 254)
IsFormed (subnegotiation body) = All (λ b. b ≢ 240) body

abbrev pub IsPrintable : ℕ → Type 0
IsPrintable c = (32 ≤ c) × (c ≤ 126)

negotiate_standalone : (c : ℕ) → (c < 250) ⊎ (254 < c) → negotiate Iac.cmd c ≡ Iac.none
unfolding negotiate
negotiate_standalone c h = ground arith

negotiate_option : (c : ℕ) → 251 ≤ c → c ≤ 254 → negotiate Iac.cmd c ≡ Iac.opt
unfolding negotiate
negotiate_option c lo hi = ground arith

negotiate_body : (c : ℕ) → c ≢ 240 → negotiate Iac.sub c ≡ Iac.sub
unfolding negotiate
negotiate_body c h = ground arith

negotiate_sub : negotiate Iac.cmd 250 ≡ Iac.sub
unfolding negotiate
negotiate_sub = refl

module _ {S : Type 0} (commands : Commands S) where
  -- the editor with its parser in a state
  abbrev pub parsing : Iac → Editor S → Editor S
  parsing i e = record e { iac = i }

  answer_opens :
      (bytes : List ℕ) (e : Editor S)
      → answer commands (iac_byte ∷ bytes) (parsing Iac.none e)
        ≡ answer commands bytes (parsing Iac.cmd e)
  unfolding answer take
  answer_opens bytes e = prefixed_nothing _

  answer_cmd :
      (c : ℕ) (bytes : List ℕ) (e : Editor S)
      → answer commands (c ∷ bytes) (parsing Iac.cmd e)
        ≡ answer commands bytes (parsing (negotiate Iac.cmd c) e)
  unfolding answer take
  answer_cmd c bytes e = prefixed_nothing _

  answer_opt :
      (c : ℕ) (bytes : List ℕ) (e : Editor S)
      → answer commands (c ∷ bytes) (parsing Iac.opt e) ≡ answer commands bytes (parsing Iac.none e)
  unfolding answer take negotiate
  answer_opt c bytes e = prefixed_nothing _

  answer_sub :
      (body : List ℕ) (rest : List ℕ) (e : Editor S)
      → All (λ b. b ≢ 240) body
      → answer commands ((body ++ 240 ∷ []) ++ rest) (parsing Iac.sub e)
        ≡ answer commands rest (parsing Iac.none e)
  unfolding answer take negotiate
  answer_sub [] rest e h = prefixed_nothing _
  answer_sub (b ∷ body) rest e (first, others) =
      prefixed_nothing _
      ∙ ap (λ i. answer commands ((body ++ 240 ∷ []) ++ rest) (parsing i e))
          (negotiate_body b first)
      ∙ answer_sub body rest e others

  answer_negotiation :
      (n : Negotiation) (rest : List ℕ) (e : Editor S)
      → IsFormed n
      → answer commands (bytes_of n ++ rest) (parsing Iac.none e)
        ≡ answer commands rest (parsing Iac.none e)
  answer_negotiation (standalone c) rest e h =
      answer_opens (c ∷ rest) e
      ∙ answer_cmd c rest e
      ∙ ap (λ i. answer commands rest (parsing i e)) (negotiate_standalone c h)
  answer_negotiation (option c choice) rest e (lo, hi) =
      answer_opens (c ∷ choice ∷ rest) e
      ∙ answer_cmd c (choice ∷ rest) e
      ∙ ap (λ i. answer commands (choice ∷ rest) (parsing i e)) (negotiate_option c lo hi)
      ∙ answer_opt choice rest e
  answer_negotiation (subnegotiation body) rest e h =
      answer_opens (250 ∷ (body ++ 240 ∷ []) ++ rest) e
      ∙ answer_cmd 250 ((body ++ 240 ∷ []) ++ rest) e
      ∙ ap (λ i. answer commands ((body ++ 240 ∷ []) ++ rest) (parsing i e)) negotiate_sub
      ∙ answer_sub body rest e h

  -- Wherever a negotiation stands between two keys, the text, the signal and the state after it are
  -- those without it: no byte of it is echoed or gets into the line. The negotiation is a command that
  -- takes no option, a command that does with its option, or a subnegotiation up to its first byte
  -- 240: what follows such a byte is read as keys, whether or not telnet has the body end there.
  pub feed-strips :
      (n : Negotiation) (rest : List ℕ) (e : Editor S)
      → IsFormed n
      → feed commands (bytes_of n ++ rest) (parsing Iac.none e)
        ≡ feed commands rest (parsing Iac.none e)
  feed-strips n rest e h =
      feed-answer commands (bytes_of n ++ rest) (parsing Iac.none e)
      ∙ answer_negotiation n rest e h
      ∙ sym (feed-answer commands rest (parsing Iac.none e))

  drop_last-All : (line : List ℕ) → All IsPrintable line → All IsPrintable (drop_last line)
  drop_last-All [] h = h
  drop_last-All (c ∷ []) h = tt
  drop_last-All (c ∷ d ∷ rest) (first, others) = (first, drop_last-All (d ∷ rest) others)

  abbrev pub IsClean : Editor S → Type 0
  IsClean e = All IsPrintable e.line

  abbrev Clean : Turn S → Type 0
  Clean turn = IsClean turn.2

  key-IsClean : (byte : ℕ) (e : Editor S) → IsClean e → IsClean (key commands byte e).2
  unfolding key
  key-IsClean byte e h =
      if_either Clean (byte == 13) _ _ (λ _. tt)
        (λ _.
          if_either Clean (byte == 10 || (byte == 0)) _ _ (λ _. h)
            (λ _.
              if_either Clean (byte == 8 || (byte == 127)) _ _
                (λ _. if_either Clean (is_typed e.line) _ _ (λ _. drop_last-All e.line h) (λ _. h))
                (λ _.
                  if_either Clean (byte == 3) _ _ (λ _. tt)
                    (λ _.
                      if_either Clean (ltb byte 32 || ltb 126 byte) _ _ (λ _. h)
                        (λ shown.
                          All-append IsPrintable e.line (byte ∷ []) h
                            (ground (arith, shown), tt))))))

  take-IsClean : (byte : ℕ) (e : Editor S) → IsClean e → IsClean (take commands byte e).2
  unfolding take
  take-IsClean byte e h =
      if_either Clean (is_idle e.iac) _ _
        (λ _. if_either Clean (byte == iac_byte) _ _ (λ _. h) (λ _. key-IsClean byte e h)) (λ _. h)

  -- The line of a session never holds anything but printable characters, whatever the bytes are.
  pub feed-IsClean : (bytes : List ℕ) (e : Editor S) → IsClean e → IsClean (feed commands bytes e).1
  feed-IsClean bytes e h = feed_keeps commands IsClean take-IsClean bytes e h

  -- what every command keeps of the session
  record Holds (P : S → Type 0) (turn : Turn S) : Type 0 where
    holds : P turn.2.session

  key-Holds :
      (P : S → Type 0)
      → ((raw : String) (s : S) → P s → P (commands.run raw s).1)
      → (byte : ℕ) (e : Editor S) → P e.session
      → Holds P (key commands byte e)
  unfolding key
  key-Holds P keeps byte e h =
      if_either (Holds P) (byte == 13) _ _
        (λ _. record { holds = keeps (commands.text_of e.line) e.session h })
        (λ _.
          if_either (Holds P) (byte == 10 || (byte == 0)) _ _ (λ _. record { holds = h })
            (λ _.
              if_either (Holds P) (byte == 8 || (byte == 127)) _ _
                (λ _.
                  if_either (Holds P) (is_typed e.line) _ _ (λ _. record { holds = h })
                    (λ _. record { holds = h }))
                (λ _.
                  if_either (Holds P) (byte == 3) _ _ (λ _. record { holds = h })
                    (λ _.
                      if_either (Holds P) (ltb byte 32 || ltb 126 byte) _ _
                        (λ _. record { holds = h }) (λ _. record { holds = h })))))

  take-Holds :
      (P : S → Type 0)
      → ((raw : String) (s : S) → P s → P (commands.run raw s).1)
      → (byte : ℕ) (e : Editor S) → P e.session
      → P (take commands byte e).2.session
  unfolding take
  take-Holds P keeps byte e h =
      (if_either (Holds P) (is_idle e.iac) _ _
        (λ _.
          if_either (Holds P) (byte == iac_byte) _ _ (λ _. record { holds = h })
            (λ _. key-Holds P keeps byte e h))
        (λ _. record { holds = h })).holds

  -- What every command keeps of the session, every buffer keeps.
  pub feed_session :
      (P : S → Type 0)
      → ((raw : String) (s : S) → P s → P (commands.run raw s).1)
      → (bytes : List ℕ) (e : Editor S) → P e.session
      → P (feed commands bytes e).1.session
  feed_session P keeps bytes e h =
      feed_keeps commands (λ f. P f.session) (take-Holds P keeps) bytes e h
