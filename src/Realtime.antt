-- ===== src/Realtime.antt =====
-- packages/realtime/src/index.ts: the channels that listeners share over one client.
pub mod Counting
use omnidat.Prelude.{
  ℕ, ◌+◌, ◌-◌, String, Bool, true, false, Option, none, some, get_or, List, [], ◌∷◌, ◌==◌,
  if◌then◌else◌, leb, nat_eq, string_eq,
}

-- a listener on the client, and the channel of its subscription
pub record Listener : Type 0 where
  pub id : ℕ
  pub channel : String

-- `channelRefCounts`, the listeners of the client and the channels that it is subscribed to. `next`
-- names the next listener.
pub record Channels : Type 0 where
  pub ref_counts : String → Option ℕ
  pub listeners : List Listener
  pub is_subscribed : String → Bool
  pub next : ℕ

abbrev pub put : {A : Type 0} → String → A → (String → A) → String → A
put channel a f c = if channel == c then a else f c

-- `subscribe`, which gives the listener that its closure takes off
unfoldable pub subscribe : String → Channels → Listener × Channels
subscribe channel s =
    let ref_count = get_or (s.ref_counts channel) 0 in
    let listener : Listener = record { id = s.next; channel = channel } in
    (
      listener,
      record {
        ref_counts = put channel (some (ref_count + 1)) s.ref_counts;
        listeners = listener ∷ s.listeners;
        is_subscribed =
            if ref_count == 0 then put channel true s.is_subscribed else s.is_subscribed;
        next = s.next + 1;
      },
    )

-- `off`
abbrev pub take_off : ℕ → List Listener → List Listener
take_off id [] = []
take_off id (l ∷ ls) = if l.id == id then ls else l ∷ take_off id ls

-- the closure that `subscribe` returns
unfoldable pub unsubscribe : Listener → Channels → Channels
unsubscribe listener s =
    let current = get_or (s.ref_counts listener.channel) 1 in
    let last = leb current 1 in
    record {
      ref_counts = put listener.channel (if last then none else some (current - 1)) s.ref_counts;
      listeners = take_off listener.id s.listeners;
      is_subscribed = if last then put listener.channel false s.is_subscribed else s.is_subscribed;
      next = s.next;
    }

abbrev pub no_channels : Channels
no_channels = record {
  ref_counts = λ c. none;
  listeners = [];
  is_subscribed = λ c. false;
  next = 0;
}
