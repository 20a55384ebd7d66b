-- ===== src/Network/Pads.antt =====
-- packages/operator-core/src/omnidat.ts: the PADs of the network, one at an address.
use omnidat.Prelude.{
  String, some, List, [], ◌∷◌, ◌≡◌, refl, ◌==◌, if◌then◌else◌, string_eq, Bool-cases, Option-cases,
  inl, inr,
}
use omnidat.Network.State.{OperationalState, Words, Service, PadConfig, service_at, append_audit}
use omnidat.Network.Accounts.{same_name, other_name}
use omnidat.Network.Provisioning.{value}
use omnidat.Network.Devices.{PadInput, pad_at, pad_for, assign_pad, configure_pad}

pad_at-assign_pad :
    (x : String) (new old : PadConfig) (pads : List PadConfig)
    → pad_at new.x121 pads ≡ some old
    → pad_at x (assign_pad new pads) ≡ (if new.x121 == x then some new else pad_at x pads)
pad_at-assign_pad x new old [] h = cc
pad_at-assign_pad x new old (p ∷ pads) h = elim (Bool-cases (p.x121 == new.x121)) [
  | inl own ↦ rw own (
      rw (same_name p.x121 new.x121 x own)
        (elim (Bool-cases (new.x121 == x)) [ inl here ↦ rw here refl | inr there ↦ rw there refl ]))
  | inr not_own ↦ rw not_own (elim (Bool-cases (p.x121 == x)) [
    | inl here ↦ rw (here, other_name p.x121 new.x121 x not_own here) refl
    | inr there ↦ rw there (pad_at-assign_pad x new old pads (rw not_own at h))
  ])
]

module _ (js : Words) where
  -- Once a PAD is configured, its address has that PAD and every other address the one it had.
  pub configure_pad-at :
      (input : PadInput) (x : String) (service : Service) (s : OperationalState)
      → service_at input.x121 s.services ≡ some service
      → let pad = pad_for js input (pad_at input.x121 s.pads) in
        ((configure_pad js input s).0 ≡ value pad)
        × (pad_at x (configure_pad js input s).1.pads
            ≡ (if input.x121 == x then some pad else pad_at x s.pads))
  unfolding configure_pad append_audit
  configure_pad-at input x service s h = rw h (
    refl,
    elim (Option-cases (pad_at input.x121 s.pads)) [
      | inl absent ↦ rw absent refl
      | inr (old, present) ↦
          rw present (pad_at-assign_pad x (pad_for js input (some old)) old s.pads present)
    ],
  )
