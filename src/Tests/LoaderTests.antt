-- ===== src/Tests/LoaderTests.antt =====
-- src/agent_registry, src/app/lib_loader: the theorems at concrete inputs.
use mavlink_hub.Base.{
  List, [], ◌∷◌, String, ◌≡◌, refl, true, false, not, ◌==◌, ◌&&◌, none, some, [], ◌∷◌,
  if◌then◌else◌, is_some,
}
use mavlink_hub.Base.Dict.{NodupKeys, lookup}
use mavlink_hub.Registry.Admin.{create_user}
use mavlink_hub.Registry.User
use mavlink_hub.Registry.Refinement.{
  AdminCall, adds, removes, call_all, promised_all, registry_refines,
}
use mavlink_hub.Loader.{DynamicLibraries, LibLoader, LibInfo, opened, load_agent_lib}
use mavlink_hub.Loader.Balance.{Load, agent_lib, all_lost}
use mavlink_hub.Base.Dict
use mavlink_hub.Loader.Laws.{load_agent_lib_loaded, load_agent_lib_taken}
use mavlink_hub.Tests.Fixtures.{demo_sdk, demo_registry, demo_memory}

demo_memory-NodupKeys : NodupKeys (demo_memory 0)
unfolding lookup
demo_memory-NodupKeys = (refl, tt)

-- A taken key, a free key, a removal.
abbrev demo_calls : List (AdminCall String)
demo_calls = adds "logger" "again" ∷ adds "camera" "takes pictures" ∷ removes "logger" ∷ []

registry_refines_example :
    ((
      User.at (create_user demo_registry) (call_all demo_registry demo_calls demo_memory).0,
      (call_all demo_registry demo_calls demo_memory).1,
    )
      ≡ promised_all demo_calls (User.at (create_user demo_registry) demo_memory))
    × NodupKeys ((call_all demo_registry demo_calls demo_memory).0 0)
registry_refines_example =
    registry_refines demo_registry demo_calls demo_memory demo_memory-NodupKeys

-- Loader: the one library is "liblog.so", with the one symbol "get".
abbrev pub libraries : DynamicLibraries demo_sdk
libraries = record {
  LibHandle = String;
  Symbol = String;
  dlopen = λ path. if path == "liblog.so" then some path else none;
  dlsym = λ handle sym. if sym == "get" then some sym else none;
  get_agent_definition = λ symbol. some "logs messages";
  get_transport_definition = λ symbol. none;
}

abbrev log_lib : LibInfo
log_lib = record { name = "logger"; path = "liblog.so"; sym = "get" }

abbrev pub camera_lib : LibInfo
camera_lib = record { name = "camera"; path = "liblog.so"; sym = "get" }

abbrev broken_lib : LibInfo
broken_lib = record { name = "camera"; path = "liblog.so"; sym = "no_such_symbol" }

abbrev pub loader : LibLoader libraries
loader = record {
  agent_lib_handles = ("logger", "liblog.so") ∷ [];
  transport_lib_handles = [];
  memory = demo_memory;
  transport_registry = [];
  dl_calls = opened "liblog.so" ∷ [];
}

broken_load : (load_agent_lib libraries demo_registry broken_lib loader).1.success ≡ false
unfolding load_agent_lib
broken_load = refl

load_agent_lib_loaded_example :
    let view = create_user demo_registry in
    let after = (load_agent_lib libraries demo_registry camera_lib loader).0 in
    (User.at view after.memory "camera" ≡ (
      if "camera" == "camera" && not (User.is_registered view demo_memory "camera")
      then some "logs messages"
      else User.at view demo_memory "camera"))
    × (lookup "camera" after.agent_lib_handles ≡ (
        if "camera" == "camera" && not (is_some (lookup "camera" loader.agent_lib_handles))
        then some "liblog.so"
        else lookup "camera" loader.agent_lib_handles))
    × (after.dl_calls ≡ opened "liblog.so" ∷ loader.dl_calls)
load_agent_lib_loaded_example =
    load_agent_lib_loaded libraries camera_lib loader demo_registry "liblog.so" "logs messages"
      "camera" ("get", refl, refl, refl)

logger_registered : User.is_registered (create_user demo_registry) demo_memory "logger" ≡ true
unfolding User.is_registered create_user lookup
logger_registered = refl

logger_stored : is_some (lookup "logger" loader.agent_lib_handles) ≡ true
unfolding lookup
logger_stored = refl

load_agent_lib_taken_example :
    ((load_agent_lib libraries demo_registry log_lib loader).1.success ≡ true)
    × ((load_agent_lib libraries demo_registry log_lib loader).0
        ≡ record loader { dl_calls = opened "liblog.so" ∷ loader.dl_calls })
load_agent_lib_taken_example =
    load_agent_lib_taken libraries log_lib loader demo_registry "liblog.so" "logs messages"
      ("get", refl, refl, refl) logger_registered logger_stored

-- The library is loaded twice under one name, and once without its symbol.
abbrev new_loader : LibLoader libraries
new_loader = record loader { agent_lib_handles = []; dl_calls = [] }

abbrev loads : List Load
loads = agent_lib camera_lib ∷ agent_lib camera_lib ∷ agent_lib broken_lib ∷ []

-- Three handles are opened, and one is never closed.
one_lost : all_lost libraries (λ handle. true) demo_registry loads new_loader ≡ 1
unfolding all_lost load_agent_lib lookup Dict.emplace Dict.insert
one_lost = refl
