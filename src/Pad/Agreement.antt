-- ===== src/Pad/Agreement.antt =====
-- packages/pad-telnet/src/session.ts: how the mode, the board and the service of a session agree, and
-- that the verbs of the PAD keep it.
use omnidat.Prelude.{
  String, Bool, true, false, find, join, Option, none, some, List, ◌≡◌, ◌≢◌, refl, subst, ◌∙◌, ◌==◌,
  ◌||◌, if_either, string_eq, ne_of_==, Bool-cases, Option-cases, inl, inr, arith,
}
use omnidat.Pad.Client.{Outcome, value, cleared, thrown, Call, BoardDef, Catalog, Bridge}
use omnidat.Pad.Messaging.{run_msg, Resolved, board, mail}
use omnidat.Pad.Session.{
  Mode, pad_mode, session_mode, board_mode, RiotEntry, Session, Config, Reply, given, bridged,
  ensure_catalog, fetched, first_of, args_of, verb_of, upper,
}
use omnidat.Pad.Verbs.{
  read_mail, attract, relay, send_message, show_sent, enter_board, connect, call, execute, run_pad,
  reached, found_in, call_or_execute, is_vt100, is_clear,
}

-- A session is on a board exactly in the board's mode, and has a service's address exactly in the
-- session's mode.
abbrev pub Agreed : Mode → Option BoardDef → String → Type 0
Agreed pad_mode b x121 = (b ≡ none) × (x121 ≡ "")
Agreed session_mode b x121 = (b ≡ none) × (x121 ≢ "")
Agreed board_mode b x121 = (b ≢ none) × (x121 ≡ "")

abbrev pub Agrees : {W : Type 0} → Session W → Type 0
Agrees s = Agreed s.mode s.board s.session_x121

abbrev pub is_pad : Mode → Bool
is_pad pad_mode = true
is_pad session_mode = false
is_pad board_mode = false

module _ {W : Type 0} (config : Config W) where
  -- what is left of a session that the bridge and the catalog change
  abbrev SameMode : Session W → Session W → Type 0
  SameMode s s1 = (s1.mode ≡ s.mode) × ((s1.board ≡ s.board) × (s1.session_x121 ≡ s.session_x121))

  SameMode-Agrees : (s s1 : Session W) → SameMode s s1 → Agrees s → Agrees s1
  SameMode-Agrees s s1 (m, (b, x)) h = rw (m, b, x) h

  bridged-SameMode :
      (f : Bridge W → Call W String) (s : Session W) → SameMode s (bridged config f s).1
  unfolding bridged
  bridged-SameMode f s = elim (Option-cases config.bridge) [
    | inl absent ↦ rw (bridged, absent) (refl, (refl, refl))
    | inr (b, present) ↦ rw (bridged, present) (refl, (refl, refl))
  ]

  ensure_catalog-SameMode : (s : Session W) → SameMode s (ensure_catalog config s).1
  unfolding ensure_catalog
  ensure_catalog-SameMode s = elim (Option-cases s.catalog) [
    | inr (c, cached) ↦ rw (ensure_catalog, cached) (refl, (refl, refl))
    | inl missing ↦ elim (Option-cases config.bridge) [
      | inl absent ↦ rw (ensure_catalog, missing, absent) (refl, (refl, refl))
      | inr (b, present) ↦ rw (ensure_catalog, missing, present) (fetched_lem (b.boards s.world))
    ]
  ]
    where
      fetched_lem : (o : Outcome Catalog × W) → SameMode s (fetched config s o).1
      fetched_lem (value c, w) = (refl, (refl, refl))
      fetched_lem (cleared e, w) = (refl, (refl, refl))
      fetched_lem (thrown, w) = (refl, (refl, refl))

  pub record Kept (r : Reply W) : Type 0 where
    pub kept : Agrees r.1

  pub bridged-Agrees :
      (f : Bridge W → Call W String) (s : Session W) → Agrees s → Agrees (bridged config f s).1
  bridged-Agrees f s h = SameMode-Agrees s (bridged config f s).1 (bridged-SameMode f s) h

  read_mail-Agrees : (s : Session W) → Agrees s → Kept (read_mail config s)
  unfolding read_mail
  read_mail-Agrees s h = record { kept = bridged-Agrees _ s h }

  send_message-Agrees :
      (args : List String) (s : Session W) → Agrees s → Kept (send_message config args s)
  unfolding send_message
  send_message-Agrees args s h = elim (Option-cases (given (first_of args))) [
    | inl absent ↦ rw (send_message, absent) (record { kept = h })
    | inr (to, present) ↦
        rw (send_message, present)
          (if_either Kept (join " " (args_of args) == "") _ _ (λ _. record { kept = h })
            (λ _. record {
              kept = bridged-Agrees (λ b. run_msg b config.dte to (join " " (args_of args))) s h;
            }))
  ]

  show_sent-Agrees :
      (args : List String) (s : Session W) → Agrees s → Kept (show_sent config args s)
  unfolding show_sent
  show_sent-Agrees args s h = elim (Option-cases (given (first_of args))) [
    | inl absent ↦ rw (show_sent, absent) (record { kept = h })
    | inr (rcpt, present) ↦ rw (show_sent, present) (record { kept = bridged-Agrees _ s h })
  ]

  enter_board-Agrees :
      (b : BoardDef) (s : Session W) → s.session_x121 ≡ "" → Kept (enter_board config b s)
  unfolding enter_board
  enter_board-Agrees b s h = record {
    kept = bridged-Agrees _ (record s { mode = board_mode; board = some b }) ((λ p. cc p), h);
  }

  connect-Agrees :
      (address : String) (s : Session W)
      → address ≢ ""
      → Agreed pad_mode s.board s.session_x121
      → Agrees s
      → Kept (connect config address s)
  unfolding connect
  connect-Agrees address s ne h k =
      if_either Kept (config.connect_screen address s.world).ended _ _ (λ _. record { kept = k })
        (λ _. record { kept = (h.0, ne) })

  reached-Agrees :
      (address : String) (found : Option Resolved) (s : Session W)
      → address ≢ ""
      → Agreed pad_mode s.board s.session_x121
      → Agrees s
      → Kept (reached config address found s)
  reached-Agrees address none s ne h k = connect-Agrees address s ne h k
  reached-Agrees address (some mail) s ne h k = read_mail-Agrees s k
  reached-Agrees address (some (board b)) s ne h k = enter_board-Agrees b s h.1

  pad-Agreed :
      (s : Session W) → s.mode ≡ pad_mode → Agrees s → Agreed pad_mode s.board s.session_x121
  pad-Agreed s m h = rw m at h

  call-Agrees :
      (address : String) (s : Session W)
      → address ≢ ""
      → s.mode ≡ pad_mode
      → Agrees s
      → Kept (call config address s)
  unfolding call
  call-Agrees address s ne m h =
      elim (Option-cases (find (λ (e : RiotEntry). e.address == address) config.riot_directory)) [
        | inr (entry, riot) ↦ rw (call, riot) (record { kept = h })
        | inl other ↦
            let s1 = (ensure_catalog config s).1 in
            let same = ensure_catalog-SameMode s in
            let k = SameMode-Agrees s s1 same h in
            rw (call, other)
              (reached-Agrees address (found_in config address (ensure_catalog config s).0) s1 ne
                (pad-Agreed s1 (same.0 ∙ m) k) k)
      ]

  execute-Agrees : (verb cmd : String) (s : Session W) → Agrees s → Kept (execute config verb cmd s)
  unfolding execute
  execute-Agrees verb cmd s h = record { kept = h }

  given_nonempty : (o : Option String) (a : String) → given o ≡ some a → a ≢ ""
  given_nonempty none a h = cc h
  given_nonempty (some arg) a h = elim (Bool-cases (arg == "")) [
    | inl nothing ↦ cc (rw nothing at h)
    | inr full ↦ subst (λ x. x ≢ "") (ground (arith, rw full at h)) (ne_of_== arg "" full)
  ]

  call_or_execute-Agrees :
      (verb : String) (arg : Option String) (cmd : String) (s : Session W)
      → s.mode ≡ pad_mode
      → Agrees s
      → Kept (call_or_execute config verb (given arg) cmd s)
  call_or_execute-Agrees verb arg cmd s m h = elim (Option-cases (given arg)) [
    | inl absent ↦ rw absent (execute-Agrees verb cmd s h)
    | inr (address, present) ↦ rw present (
        if_either Kept (verb == "CALL") _ _
          (λ _. call-Agrees address s (given_nonempty arg address present) m h)
          (λ _. execute-Agrees verb cmd s h))
  ]

  attract-Agrees : (s : Session W) → Agrees s → Kept (attract config s)
  unfolding attract
  attract-Agrees s h =
      if_either Kept (is_vt100 s.profile) _ _ (λ _. record { kept = h }) (λ _. record { kept = h })

  relay-Agrees : (s : Session W) → Agrees s → Kept (relay config s)
  unfolding relay
  relay-Agrees s h =
      if_either Kept config.riot_enabled _ _ (λ _. record { kept = h }) (λ _. record { kept = h })

  pub run_pad-Agrees :
      (cmd : String) (s : Session W) → s.mode ≡ pad_mode → Agrees s → Kept (run_pad config cmd s)
  unfolding run_pad
  run_pad-Agrees cmd s m h =
      let verb = upper config (verb_of (config.words cmd)) in
      if_either Kept (cmd == "") _ _ (λ _. record { kept = h })
        (λ _.
          if_either Kept (is_clear verb) _ _ (λ _. record { kept = h })
            (λ _.
              if_either Kept (verb == "ATTRACT") _ _ (λ _. attract-Agrees s h)
                (λ _.
                  if_either Kept (verb == "HELP" || (verb == "?")) _ _ (λ _. record { kept = h })
                    (λ _.
                      if_either Kept (verb == "RIOT") _ _ (λ _. relay-Agrees s h)
                        (λ _.
                          if_either Kept (verb == "MSG") _ _ (λ _. send_message-Agrees _ s h)
                            (λ _.
                              if_either Kept (verb == "MAIL") _ _ (λ _. read_mail-Agrees s h)
                                (λ _.
                                  if_either Kept (verb == "SENT") _ _ (λ _. show_sent-Agrees _ s h)
                                    (λ _.
                                      call_or_execute-Agrees verb
                                        (first_of (args_of (config.words cmd))) cmd s m h))))))))
