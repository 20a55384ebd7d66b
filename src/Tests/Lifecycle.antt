-- ===== src/Tests/Lifecycle.antt =====
-- Runs of a provisioning request's lifecycle, and of the channels of listeners.
use omnidat.Prelude.{
  ◌≤◌, String, true, false, none, some, ◌↔◌, List, [], ◌∷◌, ◌≡◌, refl, nat_eq, string_eq,
}
use omnidat.Lifecycle.{
  provisioning_states, index_of, is_terminal, is_legal_provisioning_transition,
  next_provisioning_status, ProvisioningRow, row_named, status_or_requested, advance_all,
}
use omnidat.Lifecycle.Offers.{next_provisioning_status-some_iff}
use omnidat.Lifecycle.Activation.{behind, advance_all-activates}
use omnidat.Lifecycle.Advances.{room, advance_all-ends}
use omnidat.Realtime.{Listener, Channels, subscribe, unsubscribe, no_channels}
use omnidat.Realtime.Counting.{stay, subscribes, unsubscribes, Live, IsCounted, Steps-IsCounted}

abbrev asked : ProvisioningRow
asked = record { id = "PV-1"; status = "requested"; verification_transcript = none }

abbrev wanted : List String
wanted = "reviewed" ∷ "active" ∷ "approved" ∷ "revoked" ∷ "requested" ∷ []

advance_all-ends_example :
    ((advance_all "PV-1" wanted (asked ∷ [])).0 ≤ room asked.status) × (room asked.status ≤ 7)
advance_all-ends_example = advance_all-ends "PV-1" wanted (asked ∷ []) asked refl

advance_all-activates_example :
    status_or_requested (
      row_named "PV-1"
        (advance_all "PV-1" (behind provisioning_states asked.status) (asked ∷ [])).1)
    ≡ "active"
unfolding index_of
advance_all-activates_example = advance_all-activates "PV-1" (asked ∷ []) asked 0 refl refl

next_provisioning_status-some_iff_example :
    (next_provisioning_status "verified" ≡ some "active") ↔ (
      (is_legal_provisioning_transition "verified" "active" ≡ true)
      × (is_terminal "active" ≡ false))
next_provisioning_status-some_iff_example = next_provisioning_status-some_iff "verified" "active"

no_channels-IsCounted : IsCounted no_channels
no_channels-IsCounted = record { counted = λ c. refl; opened = λ c. refl }

-- two listeners on the news
abbrev two_on : Channels
two_on = (subscribe "news" (subscribe "news" no_channels).1).1

abbrev first : Listener
first = record { id = 0; channel = "news" }

first-Live : Live first two_on
unfolding subscribe
first-Live = refl

Steps-IsCounted_example : IsCounted (unsubscribe first two_on)
Steps-IsCounted_example =
    Steps-IsCounted (unsubscribes first first-Live (subscribes "news" (subscribes "news" stay)))
      no_channels-IsCounted

-- A closure called twice takes the channel from the other listener.
twice_runs : (unsubscribe first (unsubscribe first two_on)).is_subscribed "news" ≡ false
unfolding subscribe unsubscribe
twice_runs = refl
