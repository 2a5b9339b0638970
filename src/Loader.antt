-- ===== src/Loader.antt =====
-- src/app/lib_loader/LibLoader.cpp: plugin libraries, opened by dlopen. What dlopen, dlsym and the
-- getter behind a symbol give is a parameter; the calls of dlopen that gave a handle and those of
-- dlclose are logged, newest first.
pub mod Laws
pub mod Balance
pub mod Kept
use mavlink_hub.Base.{String, ◌<>◌, true, false, Option, none, some, List, [], ◌∷◌, if◌then◌else◌}
use mavlink_hub.Base.Dict
use mavlink_hub.Base.Dict.{Dict}
use mavlink_hub.Common.{OperationResult, fresh, merge, report_of}
use mavlink_hub.Sdk.{Sdk}
use mavlink_hub.Registry.Admin.{AgentRegistry, add_agent_definition}
use mavlink_hub.Registry.User.{Memory}

-- src/app/lib_loader/LibInfo.h
pub record LibInfo : Type 0 where
  pub name : String
  pub path : String
  pub sym : String

-- dlfcn.h and the exported getters; `none` is a null pointer.
pub record DynamicLibraries (S : Sdk) : Type 1 where
  pub LibHandle : Type 0
  pub Symbol : Type 0
  pub dlopen : String → Option LibHandle
  pub dlsym : LibHandle → String → Option Symbol
  pub get_agent_definition : Symbol → Option S.AgentDefinition
  pub get_transport_definition : Symbol → Option S.TransportDefinition

pub data DlCall (H : Type 0) : Type 0 where
  opened closed : H → DlCall H

module _ {S : Sdk} (L : DynamicLibraries S) where
  -- The loader, the two registries that it fills, and the log.
  pub record LibLoader : Type 0 where
    pub agent_lib_handles : Dict L.LibHandle
    pub transport_lib_handles : Dict L.LibHandle
    pub memory : Memory S.AgentDefinition
    pub transport_registry : S.TransportRegistry
    pub dl_calls : List (DlCall L.LibHandle)

  abbrev pub log : DlCall L.LibHandle → LibLoader → LibLoader
  log call l = record l { dl_calls = call ∷ l.dl_calls }

  -- The tails of `loadAgentLib`, from the last null check backwards.
  unfoldable pub register_agent :
      AgentRegistry
      → LibInfo
      → L.LibHandle
      → Option S.AgentDefinition
      → LibLoader
      → LibLoader × OperationResult
  register_agent registry info handle none l = (
    log (closed handle) l,
    merge fresh (
        report_of false (
          "[LibLoader::loadAgentLib]: The lib " <> info.path <> " and the symbol " <> info.sym
          <> " are found but there is no AgentDefinition")),
  )
  register_agent registry info handle (some definition) l = (
    record l {
      memory = (add_agent_definition registry info.name definition l.memory).0;
      agent_lib_handles = Dict.emplace info.name handle l.agent_lib_handles;
    },
    merge fresh (
        report_of true (
          "[LibLoader::loadAgentLib]: The symbol " <> info.sym <> " at lib " <> info.path
          <> " has been successfully loaded")),
  )

  unfoldable pub load_agent_lib : AgentRegistry → LibInfo → LibLoader → LibLoader × OperationResult
  unfolding register_agent
  load_agent_lib registry info l = elim (L.dlopen info.path) [
    | none ↦ (
      l,
      merge fresh (
          report_of false
            ("[LibLoader::loadAgentLib]: The lib - " <> info.path <> " cannot be found")),
    )
    | some handle ↦ elim (L.dlsym handle info.sym) [
      | none ↦ (
        log (closed handle) (log (opened handle) l),
        merge fresh (
            report_of false (
              "[LibLoader::loadAgentLib]: The lib " <> info.path
              <> " is found but does not contain the symbol: " <> info.sym)),
      )
      | some symbol ↦
          register_agent registry info handle (L.get_agent_definition symbol)
            (log (opened handle) l)
    ]
  ]

  -- The tail of `loadTransportLib`.
  unfoldable pub register_transport :
      LibInfo → L.LibHandle → Option S.TransportDefinition → LibLoader → LibLoader × OperationResult
  register_transport info handle none l = (
    log (closed handle) l,
    merge fresh (
        report_of false (
          "[LibLoader::loadTransportLib]: The lib " <> info.path <> " and the symbol " <> info.sym
          <> " are found but there is no TransportDefinition")),
  )
  register_transport info handle (some definition) l = (
    record l {
      transport_registry = (S.add_transport_definition l.transport_registry info.name definition).0;
      transport_lib_handles = Dict.emplace info.name handle l.transport_lib_handles;
    },
    merge fresh (
        report_of true (
          "[LibLoader::loadTransportLib]: The symbol " <> info.sym <> " at lib " <> info.path
          <> " has been successfully loaded")),
  )

  unfoldable pub load_transport_lib : LibInfo → LibLoader → LibLoader × OperationResult
  unfolding register_transport
  load_transport_lib info l = elim (L.dlopen info.path) [
    | none ↦ (
      l,
      merge fresh (
          report_of false
            ("[LibLoader::loadTransportLib]: The lib - " <> info.path <> " cannot be found")),
    )
    | some handle ↦ elim (L.dlsym handle info.sym) [
      | none ↦ (
        log (closed handle) (log (opened handle) l),
        merge fresh (
            report_of false (
              "[LibLoader::loadTransportLib]: The lib " <> info.path
              <> " is found but does not contain the symbol: " <> info.sym)),
      )
      | some symbol ↦
          register_transport info handle (L.get_transport_definition symbol) (log (opened handle) l)
    ]
  ]

  -- A loop of `~LibLoaderImpl`.
  unfoldable pub close_all :
      Dict L.LibHandle → List (DlCall L.LibHandle) → List (DlCall L.LibHandle)
  close_all [] calls = calls
  close_all ((name, handle) ∷ handles) calls = close_all handles (closed handle ∷ calls)

  unfoldable pub destroy_loader : LibLoader → List (DlCall L.LibHandle)
  unfolding close_all
  destroy_loader l = close_all l.transport_lib_handles (close_all l.agent_lib_handles l.dl_calls)
