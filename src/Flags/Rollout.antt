-- ===== src/Flags/Rollout.antt =====
-- A percentage rollout: where a user falls, and what changing the percentage does.
use omnidat.Prelude.{
  ℕ, ◌+◌, ◌-◌, ◌*◌, ◌%◌, ◌^◌, ◌≤◌, ◌<◌, String, true, Option, none, some, List, [], ◌∷◌, ◌≡◌, inl,
  inr, refl, ap, ◌∙◌, arith, if◌then◌else◌, ltb, Bool-cases,
}
use Prim.Native.String as Text
use omnidat.Flags.{
  RolloutConfig, FlagDefinition, FlagContext, rollout, allowlist, blocklist, FlagEvaluationResult,
  hash_step, hash_units, percentage_of, identifier, listed, enabled_value, hash_to_percentage,
  bucket, rollout_for, rollout_of, evaluate_rollout,
}

hash_step_lem : (hash char : ℕ) → hash < 2 ^ 32 → hash_step hash char ≡ (31 * hash + char) % 2 ^ 32
unfolding hash_step
hash_step_lem hash char h = omega (arith, h)

-- The hash of a text's char codes is their value in base 31, modulo 2 ^ 32.
abbrev pub base_31 : ℕ → List ℕ → ℕ
base_31 acc [] = acc
base_31 acc (char ∷ chars) = base_31 (31 * acc + char) chars

base_31-mod :
    (a b : ℕ) (chars : List ℕ)
    → a % 2 ^ 32 ≡ b % 2 ^ 32
    → base_31 a chars % 2 ^ 32 ≡ base_31 b chars % 2 ^ 32
base_31-mod a b [] h = h
base_31-mod a b (char ∷ chars) h =
    base_31-mod (31 * a + char) (31 * b + char) chars (omega (arith, h))

hash_step_small : (hash char : ℕ) → hash_step hash char < 2 ^ 32
unfolding hash_step
hash_step_small hash char = omega arith

hash_units-base_31 :
    (hash : ℕ) (chars : List ℕ)
    → hash < 2 ^ 32
    → hash_units hash chars ≡ base_31 hash chars % 2 ^ 32
unfolding hash_units
hash_units-base_31 hash [] h = omega (arith, h)
hash_units-base_31 hash (char ∷ chars) h =
    hash_units-base_31 (hash_step hash char) chars (hash_step_small hash char)
    ∙ base_31-mod (hash_step hash char) (31 * hash + char) chars
        (ap (λ x. x % 2 ^ 32) (hash_step_lem hash char h) ∙ omega arith)

module _ (units : String → List ℕ) where
  -- The hash is the value of the char codes in base 31, as a signed 32-bit number, and the bucket,
  -- the remainder of its magnitude, is below 100.
  pub hash_to_percentage_lem :
      (input : String)
      → let value = base_31 0 (units input) % 2 ^ 32 in
        (hash_to_percentage units input
          ≡ (if ltb value (2 ^ 31) then value % 100 else (2 ^ 32 - value) % 100))
        × (hash_to_percentage units input < 100)
  unfolding hash_to_percentage percentage_of
  hash_to_percentage_lem input = (
    rw (hash_units-base_31 0 (units input) (omega arith)) refl,
    small (hash_units 0 (units input)),
  )
    where
      small : (h : ℕ) → (if ltb h (2 ^ 31) then h % 100 else (2 ^ 32 - h) % 100) < 100
      small h = ground arith

  -- Raising the percentage takes the flag from no user: what a rollout decided for a user it still
  -- decides, with the same reason.
  rollout_for-monotone :
      (flag_def : FlagDefinition) (flag_name : String) (config : RolloutConfig) (p : ℕ)
      (id : String) (r : FlagEvaluationResult)
      → config.percentage ≤ p
      → rollout_for units flag_def flag_name config id ≡ some r
      → rollout_for units flag_def flag_name (record config { percentage = p }) id ≡ some r
  unfolding rollout_for
  rollout_for-monotone flag_def flag_name config p id r le e =
      elim (Bool-cases (listed config.blocklist id)) [
        | inl blocked ↦ rw blocked (rw blocked at e)
        | inr free ↦ rw free (elim (Bool-cases (listed config.allowlist id)) [
          | inl allowed ↦ rw allowed (rw allowed at (rw free at e))
          | inr drawn ↦ rw drawn (raise (bucket units flag_name id) (rw drawn at (rw free at e)))
        ])
      ]
    where
      result : Option FlagEvaluationResult
      result = some (record {
        value = enabled_value flag_def.default_value;
        reason = rollout;
        flag_name = flag_name;
      })

      raise :
          (b : ℕ)
          → (if ltb b config.percentage then result else none) ≡ some r
          → (if ltb b p then result else none) ≡ some r
      raise b k = ground (arith, k, le)

  -- At 100 percent or more every identified user gets the enabled value, for being on the
  -- allowlist or by the rollout, except a blocked one, who gets the default.
  pub evaluate_rollout-full :
      (flag_def : FlagDefinition) (flag_name : String) (context : Option FlagContext)
      (config : RolloutConfig) (id : String)
      → flag_def.rollout ≡ some config
      → identifier context ≡ some id
      → 100 ≤ config.percentage
      → evaluate_rollout units flag_def flag_name context
        ≡ some (record {
          value =
              if listed config.blocklist id
              then flag_def.default_value
              else enabled_value flag_def.default_value;
          reason =
              if listed config.blocklist id
              then blocklist
              else if listed config.allowlist id
              then allowlist
              else rollout;
          flag_name = flag_name;
        })
  unfolding evaluate_rollout rollout_for
  evaluate_rollout-full flag_def flag_name context config id configured identified full =
      elim (Bool-cases (listed config.blocklist id)) [
        | inl blocked ↦ decided ∙ rw blocked refl
        | inr free ↦ elim (Bool-cases (listed config.allowlist id)) [
          | inl allowed ↦ decided ∙ rw free (rw allowed refl)
          | inr drawn ↦
              let inside : ltb (bucket units flag_name id) config.percentage ≡ true =
                ground (arith, (hash_to_percentage_lem (text_of id)).1, full) in
              decided ∙ rw free (rw drawn (rw inside refl))
        ]
      ]
    where
      text_of : String → String
      text_of i = Text.◌++◌ flag_name (Text.◌++◌ ":" i)

      decided :
          evaluate_rollout units flag_def flag_name context
          ≡ rollout_for units flag_def flag_name config id
      decided =
          ap (λ c. rollout_of units flag_def flag_name c (identifier context)) configured
          ∙ ap (rollout_of units flag_def flag_name (some config)) identified
