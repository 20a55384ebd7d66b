-- ===== src/Pad/Line.antt =====
-- packages/pad-telnet/src/session.ts: `feed`, the line editor over the commands of a session.
use Prim.Native.String as Text
use omnidat.Prelude.{
  ℕ, String, Bool, true, false, Option, none, some, List, [], ◌∷◌, ◌++◌, ltb, nat_eq, ◌==◌, ◌||◌,
  if◌then◌else◌,
}
use omnidat.Pad.Telnet.{Iac, is_idle, negotiate, iac_byte}

-- `FeedResult`
pub record FeedResult : Type 0 where
  pub output : String
  pub close : Bool
  pub start_attract : Bool
  pub start_relay : Bool
  pub relay_initial : Option String

-- What the editor uses of the session under it: its commands, its prompt and the echo of a key.
-- `text_of` is the text of character codes, as `String.fromCharCode` makes it.
pub record Commands (S : Type 0) : Type 0 where
  pub run : String → S → FeedResult × S
  pub prompt : S → String
  pub echo : ℕ → S → String
  pub text_of : List ℕ → String

-- `line` holds the character codes of the text typed so far.
pub record Editor (S : Type 0) : Type 0 where
  pub iac : Iac
  pub line : List ℕ
  pub session : S

abbrev pub crlf : String
crlf = "\r\n"

-- a result with text alone
abbrev pub said : String → FeedResult
said text = record {
  output = text;
  close = false;
  start_attract = false;
  start_relay = false;
  relay_initial = none;
}

-- `result.close || result.startAttract || result.startRelay`
abbrev pub signals : FeedResult → Bool
signals r = r.close || (r.start_attract || r.start_relay)

abbrev pub stops : Option FeedResult → Bool
stops none = false
stops (some r) = signals r

-- `line.slice(0, -1)`
abbrev pub drop_last : List ℕ → List ℕ
drop_last [] = []
drop_last (c ∷ []) = []
drop_last (c ∷ d ∷ rest) = c ∷ drop_last (d ∷ rest)

-- `this.line.length > 0`
abbrev pub is_typed : List ℕ → Bool
is_typed [] = false
is_typed (c ∷ rest) = true

-- what one byte does: the text it adds, the result of a command it runs, and the editor afterwards
abbrev pub Turn : Type 0 → Type 0
Turn S = String × Option FeedResult × Editor S

abbrev pub later : Option FeedResult → Option FeedResult → Option FeedResult
later none before = before
later (some r) before = some r

module _ {S : Type 0} where
  -- the object that `feed` returns
  abbrev pub replied : Turn S → FeedResult × Editor S
  replied (out, none, e) = (said out, e)
  replied (out, some r, e) = (if signals r then record r { output = out } else said out, e)

module _ {S : Type 0} (commands : Commands S) where
  -- CR: the line is taken out and run.
  abbrev pub ran : Editor S → FeedResult × S → Turn S
  ran e (result, session) =
      (Text.◌++◌ crlf result.output, some result, record e { line = []; session = session })

  -- a byte outside a negotiation
  unfoldable pub key : ℕ → Editor S → Turn S
  key byte e =
      if byte == 13
      then ran e (commands.run (commands.text_of e.line) e.session)
      else if byte == 10 || (byte == 0)
      then ("", none, e)
      else if byte == 8 || (byte == 127)
      then (if is_typed e.line
          then ("\u{8} \u{8}", none, record e { line = drop_last e.line })
          else ("", none, e))
      else if byte == 3
      then (Text.◌++◌ crlf (commands.prompt e.session), none, record e { line = [] })
      else if ltb byte 32 || ltb 126 byte
      then ("", none, e)
      else (commands.echo byte e.session, none, record e { line = e.line ++ byte ∷ [] })

  unfoldable pub take : ℕ → Editor S → Turn S
  take byte e =
      if is_idle e.iac
      then (if byte == iac_byte then ("", none, record e { iac = Iac.cmd }) else key byte e)
      else ("", none, record e { iac = negotiate e.iac byte })

  -- The loop over the bytes, which a command that signals leaves; `out` and `result` are the text
  -- and the last result so far.
  unfoldable pub each_byte : List ℕ → String → Option FeedResult → Editor S → Turn S
  each_byte [] out result e = (out, result, e)
  each_byte (byte ∷ bytes) out result e =
      let turn = take byte e in
      let rest = each_byte bytes (Text.◌++◌ out turn.0) (later turn.1 result) turn.2 in
      if stops turn.1 then (Text.◌++◌ out turn.0, turn.1, turn.2) else rest

  unfoldable pub feed : List ℕ → Editor S → FeedResult × Editor S
  feed bytes e = replied (each_byte bytes "" none e)
