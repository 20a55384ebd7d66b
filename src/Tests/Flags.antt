-- ===== src/Tests/Flags.antt =====
-- Runs of the feature flags.
use omnidat.Prelude.{
  ℕ, ◌-◌, ◌%◌, ◌^◌, ◌<◌, String, true, false, none, some, List, [], ◌∷◌, ◌≡◌, refl, if◌then◌else◌,
  ltb,
}
use omnidat.Flags.{
  boolean, RolloutConfig, FlagDefinition, FlagContext, rollout, FlagEvaluationResult, FlagStore,
  hash_step, hash_units, percentage_of, hash_to_percentage, rollout_for,
}
use omnidat.Flags.Rollout.{base_31, hash_to_percentage_lem}

-- two codes for every text
abbrev two_units : String → List ℕ
two_units s = 97 ∷ 98 ∷ []

hash_to_percentage_lem_example :
    let value = base_31 0 (two_units "beta:ada") % 2 ^ 32 in
    (hash_to_percentage two_units "beta:ada"
      ≡ (if ltb value (2 ^ 31) then value % 100 else (2 ^ 32 - value) % 100))
    × (hash_to_percentage two_units "beta:ada" < 100)
hash_to_percentage_lem_example = hash_to_percentage_lem two_units "beta:ada"

-- 97 * 31 + 98 is 3105
hash_runs : hash_to_percentage two_units "beta:ada" ≡ 5
unfolding hash_to_percentage hash_units hash_step percentage_of
hash_runs = refl

abbrev half : RolloutConfig
half = record { percentage = 50; allowlist = none; blocklist = some ("eve" ∷ []) }

abbrev beta : FlagDefinition
beta = record { default_value = boolean false; rollout = some half; environments = none }

abbrev on_by_rollout : FlagEvaluationResult
on_by_rollout = record { value = boolean true; reason = rollout; flag_name = "beta" }

half_runs : rollout_for two_units beta "beta" half "ada" ≡ some on_by_rollout
unfolding rollout_for hash_to_percentage hash_units hash_step percentage_of
half_runs = refl

abbrev ada : FlagContext
ada = record { user_id = some "ada"; organization_id = none; email = none }

abbrev same_text : String → String
same_text s = s

abbrev definitions : List (String × FlagDefinition)
definitions = ("beta", beta) ∷ []

abbrev fresh : FlagStore
fresh = record { overrides = λ k. none; current_environment = "development" }
