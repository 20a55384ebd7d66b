-- ===== src/Flags.antt =====
-- packages/flags/src/store.ts: feature flags, their overrides and their percentage rollouts.
pub mod Rollout
pub mod Precedence
use Prim.Native.String as Text
use omnidat.Prelude.{
  ℕ, suc, ◌+◌, ◌-◌, ◌*◌, ◌%◌, ◌^◌, String, Bool, true, false, not, Option, none, some, get_or, List,
  [], ◌∷◌, map, ◌==◌, ◌&&◌, ◌||◌, if◌then◌else◌, ltb, includes, string_eq,
}

-- A flag's value. A number is kept as the text that JavaScript gives it.
pub data Value : Type 0 where
  boolean : Bool → Value
  number : String → Value
  text : String → Value

-- the configuration of a rollout
pub record RolloutConfig : Type 0 where
  pub percentage : ℕ
  pub allowlist : Option (List String)
  pub blocklist : Option (List String)

-- `FlagDefinition`
pub record FlagDefinition : Type 0 where
  pub default_value : Value
  pub rollout : Option RolloutConfig
  pub environments : Option (List (String × Value))

-- the fields of `FlagContext` that are read
pub record FlagContext : Type 0 where
  pub user_id : Option String
  pub organization_id : Option String
  pub email : Option String

pub data Reason : Type 0 where
  default override environment rollout allowlist blocklist : Reason

-- `FlagEvaluationResult`
pub record FlagEvaluationResult : Type 0 where
  pub value : Value
  pub reason : Reason
  pub flag_name : String

-- One round of the hash, on the 32 bits of the number: `(hash << 5) - hash + char`, wrapped.
unfoldable pub hash_step : ℕ → ℕ → ℕ
hash_step hash char = (hash * 2 ^ 5 % 2 ^ 32 + (2 ^ 32 - hash) + char) % 2 ^ 32

unfoldable pub hash_units : ℕ → List ℕ → ℕ
hash_units hash [] = hash
hash_units hash (char ∷ chars) = hash_units (hash_step hash char) chars

-- `Math.abs(hash % 100)` of a signed 32-bit number: the remainder of its magnitude
unfoldable pub percentage_of : ℕ → ℕ
percentage_of hash = if ltb hash (2 ^ 31) then hash % 100 else (2 ^ 32 - hash) % 100

-- `a ?? b`
abbrev pub or_else : Option String → Option String → Option String
or_else none b = b
or_else (some a) b = some a

-- the identifier, when it is there and not empty
abbrev pub truthy : Option String → Option String
truthy none = none
truthy (some s) = if s == "" then none else some s

unfoldable pub identifier : Option FlagContext → Option String
identifier none = none
identifier (some context) =
    truthy (or_else context.user_id (or_else context.organization_id context.email))

-- `list?.includes(id)`
abbrev pub listed : Option (List String) → String → Bool
listed none id = false
listed (some ids) id = includes ids id

abbrev pub enabled_value : Value → Value
enabled_value (boolean b) = boolean true
enabled_value (number n) = number n
enabled_value (text t) = text t

-- `units` gives the char codes of a text.
module _ (units : String → List ℕ) where
  unfoldable pub hash_to_percentage : String → ℕ
  hash_to_percentage input = percentage_of (hash_units 0 (units input))

  abbrev pub bucket : String → String → ℕ
  bucket flag_name id = hash_to_percentage (Text.◌++◌ flag_name (Text.◌++◌ ":" id))

  -- the three tests for a user who is identified
  unfoldable pub rollout_for :
      FlagDefinition → String → RolloutConfig → String → Option FlagEvaluationResult
  rollout_for flag_def flag_name config id =
      if listed config.blocklist id
      then some
          (record { value = flag_def.default_value; reason = blocklist; flag_name = flag_name })
      else if listed config.allowlist id
      then some (record {
        value = enabled_value flag_def.default_value;
        reason = allowlist;
        flag_name = flag_name;
      })
      else if ltb (bucket flag_name id) config.percentage
      then some (record {
        value = enabled_value flag_def.default_value;
        reason = rollout;
        flag_name = flag_name;
      })
      else none

  abbrev pub rollout_of :
      FlagDefinition → String → Option RolloutConfig → Option String → Option FlagEvaluationResult
  rollout_of flag_def flag_name none id = none
  rollout_of flag_def flag_name (some config) none = none
  rollout_of flag_def flag_name (some config) (some id) = rollout_for flag_def flag_name config id

  pub evaluate_rollout : FlagDefinition → String → Option FlagContext → Option FlagEvaluationResult
  evaluate_rollout flag_def flag_name context =
      rollout_of flag_def flag_name flag_def.rollout (identifier context)

-- what `createFlagStore` keeps
pub record FlagStore : Type 0 where
  pub overrides : String → Option Value
  pub current_environment : String

pub set_environment : String → FlagStore → FlagStore
set_environment env store = record store { current_environment = env }

pub get_environment : FlagStore → String
get_environment store = store.current_environment

pub set_override : String → Value → FlagStore → FlagStore
set_override flag_name value store = record store {
  overrides = λ k. if k == flag_name then some value else store.overrides k;
}

pub clear_override : String → FlagStore → FlagStore
clear_override flag_name store = record store {
  overrides = λ k. if k == flag_name then none else store.overrides k;
}

pub clear_all_overrides : FlagStore → FlagStore
clear_all_overrides store = record store { overrides = λ k. none }

-- `record[key]`
unfoldable pub field : {A : Type 0} → String → List (String × A) → Option A
field key [] = none
field key ((k, v) ∷ rest) = if k == key then some v else field key rest

-- `.replace(/-/g, "_")`
pub underscores : String → String
underscores Text.[] = ""
underscores (Text.◌∷◌ c s) =
    if Text.◌∷◌ c Text.[] == "-" then Text.◌++◌ "_" (underscores s) else Text.◌∷◌ c (underscores s)

-- `flagDef.environments?.[env]`
abbrev pub environment_value : Option (List (String × Value)) → String → Option Value
environment_value none env = none
environment_value (some values) env = field env values

-- `Boolean(value)`
pub is_truthy : Value → Bool
is_truthy (boolean b) = b
is_truthy (number n) = not (n == "0" || (n == "-0" || n == "NaN"))
is_truthy (text t) = not (t == "")

-- `to_upper` and `to_number` are `toUpperCase` and `Number`, `env` is `process.env`.
module _ (units : String → List ℕ) (to_upper to_number : String → String)
    (env : String → Option String) where
  pub env_key : String → String
  env_key flag_name = Text.◌++◌ "FLAG_" (underscores (to_upper flag_name))

  pub parse_env : Value → String → Value
  parse_env (boolean b) env_value = boolean (env_value == "true" || env_value == "1")
  parse_env (number n) env_value = number (to_number env_value)
  parse_env (text t) env_value = text env_value

  abbrev or_result : Option FlagEvaluationResult → FlagEvaluationResult → FlagEvaluationResult
  or_result none other = other
  or_result (some result) other = result

  abbrev given : Reason → String → Option Value → Option FlagEvaluationResult
  given reason flag_name none = none
  given reason flag_name (some value) =
      some (record { value = value; reason = reason; flag_name = flag_name })

  abbrev pub env_override : FlagDefinition → String → Option Value
  env_override flag_def flag_name = elim (env (env_key flag_name)) [
    | none ↦ none
    | some env_value ↦ some (parse_env flag_def.default_value env_value)
  ]

  -- the five steps for a flag that is defined
  pub evaluate : FlagStore → FlagDefinition → String → Option FlagContext → FlagEvaluationResult
  evaluate store flag_def flag_name context =
      or_result (given override flag_name (store.overrides flag_name)) (
        or_result (given override flag_name (env_override flag_def flag_name)) (
          or_result
            (given environment flag_name
              (environment_value flag_def.environments store.current_environment))
            (or_result (evaluate_rollout units flag_def flag_name context) (record {
              value = flag_def.default_value;
              reason = default;
              flag_name = flag_name;
            }))))

  module _ (definitions : List (String × FlagDefinition)) where
    -- `none` is the error for an unknown flag
    pub get_flag : FlagStore → String → Option FlagContext → Option FlagEvaluationResult
    get_flag store flag_name context = elim (field flag_name definitions) [
      | none ↦ none
      | some flag_def ↦ some (evaluate store flag_def flag_name context)
    ]

    pub get_flag_value : FlagStore → String → Option FlagContext → Option Value
    get_flag_value store flag_name context = elim (get_flag store flag_name context) [
      | none ↦ none
      | some result ↦ some result.value
    ]

    pub get_all_flags : FlagStore → Option FlagContext → List (String × Option Value)
    get_all_flags store context =
        map (λ (d : String × FlagDefinition). (d.0, get_flag_value store d.0 context)) definitions

    pub is_enabled : FlagStore → String → Option FlagContext → Option Bool
    is_enabled store flag_name context = elim (get_flag_value store flag_name context) [
      | none ↦ none
      | some value ↦ some (is_truthy value)
    ]
