-- ===== src/Json/Api.antt =====
-- What src/common/json_utils/JsonUtils.cpp calls of jsoncons and of std::filesystem.
use mavlink_hub.Base.{String, Bool, Option, List}
use mavlink_hub.Base.Dict.{Dict}
use mavlink_hub.Sdk.{AgentState, EndpointState}

-- `none` is an exception where the result is an `Option`. `contains` is false for what is no object,
-- and `as_string` gives the text of a string and the JSON text of any other value.
pub record JsonApi : Type 1 where
  pub Json : Type 0
  -- `json::parse`; the exception is a ser_error.
  pub parse : String → Option Json
  pub is_array : Json → Bool
  pub is_object : Json → Bool
  pub is_bool : Json → Bool
  pub is_string : Json → Bool
  pub is_number : Json → Bool
  pub contains : Json → String → Bool
  -- `j[key]`, for a key that is there.
  pub at : Json → String → Json
  pub as_string : Json → String
  pub as_bool : Json → Option Bool
  -- `static_cast<AgentState>(j.as<int>())`, and so for endpoints.
  pub as_agent_state : Json → AgentState
  pub as_endpoint_state : Json → EndpointState
  pub array_range : Json → List Json
  pub object_range : Json → Dict Json
  -- `json j;` and `json{json_array_arg}`
  pub empty_object : Json
  pub empty_array : Json
  -- `j[key] = value`
  pub set : Json → String → Json → Json
  pub push_back : Json → Json → Json
  pub of_string : String → Json
  pub of_bool : Bool → Json
  pub of_agent_state : AgentState → Json
  pub of_endpoint_state : EndpointState → Json
  -- `std::filesystem::weakly_canonical(path).string()`
  pub weakly_canonical : String → Option String

-- A parser's result: an exception that leaves it, std::nullopt, or a value.
pub data Decoded {ℓ} (A : Type ℓ) : Type ℓ where
  thrown : Decoded A
  nothing : Decoded A
  just : A → Decoded A

infixl 5 ◌>>=◌
abbrev pub ◌>>=◌ {ℓ κ} : {A : Type ℓ} {B : Type κ} → Decoded A → (A → Decoded B) → Decoded B
thrown >>= f = thrown
nothing >>= f = nothing
just a >>= f = f a

-- A call that may throw.
abbrev pub call {ℓ} : {A : Type ℓ} → Option A → Decoded A
call o = elim o [ Option.none ↦ thrown | Option.some a ↦ just a ]
