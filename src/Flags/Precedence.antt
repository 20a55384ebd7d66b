-- ===== src/Flags/Precedence.antt =====
-- An override decides a flag until it is cleared, and decides no other flag.
use omnidat.Prelude.{
  ℕ, String, Option, none, some, List, ◌≡◌, refl, ap, ◌==◌, if◌then◌else◌, string_eq, eq_iff,
  Bool-cases, ◌∙◌, inl, inr, fun_ext, Option-cases,
}
use omnidat.Flags.{
  Value, FlagDefinition, FlagContext, override, FlagStore, set_override, clear_override, field,
  evaluate, get_flag,
}

module _ (units : String → List ℕ) (to_upper to_number : String → String)
    (env : String → Option String) (definitions : List (String × FlagDefinition)) where
  -- An override of a defined flag decides it, whatever the environment variables, the environment
  -- and the rollout say; every other flag is as it was; and clearing an override leaves every flag
  -- as it is without one.
  pub get_flag-set_override :
      (store : FlagStore) (flag_name other : String) (value : Value) (flag_def : FlagDefinition)
      (context : Option FlagContext)
      → field flag_name definitions ≡ some flag_def
      → (get_flag units to_upper to_number env definitions
            (set_override flag_name value store)
            other
            context
          ≡ (if other == flag_name
              then some (record { value = value; reason = override; flag_name = other })
              else get_flag units to_upper to_number env definitions store other context))
        × (get_flag units to_upper to_number env definitions
              (clear_override flag_name (set_override flag_name value store))
              other
              context
            ≡ get_flag units to_upper to_number env definitions
                (clear_override flag_name store)
                other
                context)
  unfolding get_flag evaluate set_override clear_override
  get_flag-set_override store flag_name other value flag_def context defined = (
    elim (Bool-cases (other == flag_name)) [
      | inl own ↦
          let here : field other definitions ≡ some flag_def =
            ap (λ k. field k definitions) ((eq_iff other flag_name).0 own) ∙ defined in
          rw (get_flag, here) (rw (evaluate, own) refl)
      | inr away ↦ elim (Option-cases (field other definitions)) [
        | inl undefined ↦ rw away (rw (get_flag, undefined) refl)
        | inr (d, found) ↦ rw away (rw (get_flag, found) (rw (evaluate, away) refl))
      ]
    ],
    ap
        (λ overrides.
          get_flag units to_upper to_number env definitions (record store { overrides = overrides })
            other context)
        (fun_ext cleared),
  )
    where
      cleared :
          (k : String)
          → (if k == flag_name
              then none
              else if k == flag_name
              then some value
              else store.overrides k)
            ≡ (if k == flag_name then none else store.overrides k)
      cleared k = elim (Bool-cases (k == flag_name)) [
        | inl here ↦ rw here refl
        | inr there ↦ rw there refl
      ]
