-- ===== src/Network/Commands.antt =====
-- packages/operator-core/src/omnidat.ts: the XOT commands, and what is read of the state.
use Prim.Native.String.{String, ◌++◌}
use omnidat.Prelude.{
  ℕ, ◌/◌, ◌%◌, Bool, false, not, Option, none, some, List, [], ◌∷◌, map, filter, find, ◌==◌, ◌||◌,
  if◌then◌else◌, string_eq, join, get_or, numeral,
}
use omnidat.Network.State.{
  Verb, Service, Circuit, BillingAccount, PadConfig, OperationalState, Words, append_audit,
  service_at, account_named,
}
use omnidat.Network.Devices.{pad_at}

pub record XotInput : Type 0 where
  pub source_x121 : String
  pub command : String

pub record XotReply : Type 0 where
  pub status : String
  pub transcript : String

abbrev verb_of : List String → String
verb_of [] = ""
verb_of (verb ∷ args) = verb

abbrev argument : List String → Option String
argument (verb ∷ arg ∷ args) = some arg
argument _ = none

-- `namespace?.toLowerCase() === "camp"`
abbrev is_camp : Words → Option String → Bool
is_camp js none = false
is_camp js (some namespace) = js.lower namespace == "camp"

abbrev service_line : Service → String
service_line s = s.x121 ++ ("  " ++ (s.name ++ ("  " ++ s.status)))

abbrev is_foreign : Service → Bool
is_foreign s = not (s.owner == "OMNIDAT")

-- `starts_error` is `startsWith("ERROR")` and `has_unknown` is `includes("UNKNOWN")`.
module _ (js : Words) (starts_error has_unknown : String → Bool) where
  pub service_directory : Option String → OperationalState → String
  service_directory namespace s =
      join "\n" (
        map service_line
          (if is_camp js namespace then filter is_foreign s.services else s.services))

  abbrev looked_up : String → Option Service → String
  looked_up x121 none = "CLEAR 13 UNKNOWN ADDRESS " ++ x121
  looked_up x121 (some service) = join "\n" (
      ("CALL " ++ x121)
      ∷ ("CONNECT " ++ js.upper service.name)
      ∷ ("OWNER " ++ service.owner)
      ∷ ("STATUS " ++ js.upper service.status)
      ∷ ("VERBS " ++ join ", " (map (λ (v : Verb). v.name) service.verbs))
      ∷ [])

  -- a loss in thousandths, as per cent with one digit after the point
  abbrev percent : ℕ → String
  percent loss = numeral 10 (loss / 10) ++ ("." ++ numeral 10 (loss % 10))

  abbrev circuit_status : String → Option Circuit → String
  circuit_status x121 none = "STATUS " ++ (x121 ++ " UNKNOWN")
  circuit_status x121 (some c) =
      "STATUS "
      ++ (x121
          ++ (" "
              ++ (js.upper c.status
                  ++ (" "
                      ++ (c.transport
                          ++ (" "
                              ++ (numeral 10 c.latency_ms
                                  ++ ("MS LOSS " ++ (percent c.packet_loss ++ "%")))))))))

  abbrev pad_status : String → Option PadConfig → String
  pad_status x121 none = "PAD " ++ (x121 ++ " NOT CONFIGURED")
  pad_status x121 (some p) =
      join "\n"
        (("PAD " ++ (x121 ++ (" " ++ (js.upper p.status ++ (" " ++ p.pad_kind))))) ∷ p.profile ∷ [])

  abbrev bill : String → Option BillingAccount → String
  bill account_id none = "BILL " ++ (account_id ++ " UNKNOWN")
  bill account_id (some a) =
      "BILL " ++ (a.account_id ++ (" BALANCE " ++ (js.show a.balance ++ (" " ++ a.currency))))

  abbrev pub xot_help : String
  xot_help =
      "VERBS: DIR [NAMESPACE], LOOKUP <X121>, CALL <X121>, STATUS <X121>, PAD <X121>, BILL <ACCOUNT>"

  -- the transcript of a command
  unfoldable pub transcript_of : XotInput → OperationalState → String
  transcript_of input s =
      let words = js.words (js.trim input.command) in
      let verb = js.upper (verb_of words) in
      let here = get_or (argument words) input.source_x121 in
      let named = get_or (argument words) "" in
      if verb == "HELP" || (verb == "?")
      then xot_help
      else if verb == "DIR"
      then service_directory (argument words) s
      else if verb == "LOOKUP" || (verb == "CALL")
      then looked_up named (service_at named s.services)
      else if verb == "STATUS"
      then circuit_status here (find (λ (c : Circuit). c.x121 == here) s.circuits)
      else if verb == "PAD"
      then pad_status here (pad_at here s.pads)
      else if verb == "BILL"
      then bill named (account_named named s.billing_accounts)
      else "ERROR UNKNOWN VERB " ++ (if verb == "" then "(EMPTY)" else verb)

  unfoldable pub execute_xot_command : XotInput → OperationalState → XotReply × OperationalState
  execute_xot_command input s =
      let text = transcript_of input s in
      (
        record {
          status = if starts_error text || has_unknown text then "error" else "ok";
          transcript = text;
        },
        append_audit "xot.command" "x121" input.source_x121
            (("command", js.trim input.command)
              ∷ ("verb", js.upper (verb_of (js.words (js.trim input.command))))
              ∷ [])
            s,
      )
