-- ===== src/Loader/Kept.antt =====
-- What a load by src/app/lib_loader/LibLoader.cpp puts into the loader and the registries stays there.
use mavlink_hub.Base.{String, ◌≡◌, eq_iff, true, is_some, List, [], ◌∷◌, arith}
use mavlink_hub.Base.Dict.{lookup, lookup-emplace}
use mavlink_hub.Sdk.{Sdk}
use mavlink_hub.Registry.Admin.{AgentRegistry, create_user}
use mavlink_hub.Registry.User
use mavlink_hub.Registry.Laws.{view-add}
use mavlink_hub.Loader.{DynamicLibraries, LibLoader, LibInfo, load_agent_lib, load_transport_lib}
use mavlink_hub.Loader.Laws.{loading, missing, no_symbol, no_definition, provided}
use mavlink_hub.Loader.Balance.{Load, agent_lib, transport_lib, load_all}

-- What the transport registry promises of an add: the type is registered then, and those before are.
pub record KeepsTransports (S : Sdk) : Type 0 where
  pub added :
      (registry : S.TransportRegistry) (name : String) (definition : S.TransportDefinition)
      → is_some (S.transport_at (S.add_transport_definition registry name definition).0 name) ≡ true
  pub kept :
      (registry : S.TransportRegistry) (name : String) (definition : S.TransportDefinition)
      (j : String)
      → is_some (S.transport_at registry j) ≡ true
      → is_some (S.transport_at (S.add_transport_definition registry name definition).0 j) ≡ true

module _ {S : Sdk} (L : DynamicLibraries S) (registry : AgentRegistry) where
  -- The loader holds a handle under the name, and every view of the registry has a definition there.
  pub record HasAgentLib (l : LibLoader L) (name : String) : Type 0 where
    pub defined : is_some (User.at (create_user registry) l.memory name) ≡ true
    pub handle : is_some (lookup name l.agent_lib_handles) ≡ true

  pub record HasTransportLib (l : LibLoader L) (name : String) : Type 0 where
    pub defined : is_some (S.transport_at l.transport_registry name) ≡ true
    pub handle : is_some (lookup name l.transport_lib_handles) ≡ true

  pub load_agent_lib-HasAgentLib :
      (info : LibInfo) (l : LibLoader L)
      → (load_agent_lib L registry info l).1.success ≡ true
      → HasAgentLib (load_agent_lib L registry info l).0 info.name
  unfolding load_agent_lib User.at User.is_registered
  load_agent_lib-HasAgentLib info l h = elim (loading L info l L.get_agent_definition) [
    | missing e ↦ absurd (ground (arith, e))
    | no_symbol handle e f ↦ absurd (ground (arith, e, f))
    | no_definition handle s e f g ↦ absurd (ground (arith, e, f, g))
    | provided handle s definition e f g ↦ record {
      defined = ground (
        arith,
        eq_iff info.name info.name,
        view-add registry info.name l.memory definition info.name,
      );
      handle = ground (
        arith,
        eq_iff info.name info.name,
        lookup-emplace info.name info.name handle l.agent_lib_handles,
      );
    }
  ]

  agent_lib-keeps :
      (info : LibInfo) (l : LibLoader L) (name : String)
      → HasAgentLib l name
      → HasAgentLib (load_agent_lib L registry info l).0 name
  unfolding load_agent_lib User.at User.is_registered
  agent_lib-keeps info l name h = elim (loading L info l L.get_agent_definition) [
    | missing e ↦ record { defined = ground (arith, h.defined); handle = ground (arith, h.handle) }
    | no_symbol handle e f ↦ record {
      defined = ground (arith, h.defined);
      handle = ground (arith, h.handle);
    }
    | no_definition handle s e f g ↦ record {
      defined = ground (arith, h.defined);
      handle = ground (arith, h.handle);
    }
    | provided handle s definition e f g ↦ record {
      defined = ground (
        arith,
        h.defined,
        eq_iff info.name name,
        view-add registry info.name l.memory definition name,
      );
      handle = ground (
        arith,
        h.handle,
        eq_iff info.name name,
        lookup-emplace info.name name handle l.agent_lib_handles,
      );
    }
  ]

  transport_lib-keeps_agents :
      (info : LibInfo) (l : LibLoader L) (name : String)
      → HasAgentLib l name
      → HasAgentLib (load_transport_lib L info l).0 name
  unfolding load_transport_lib
  transport_lib-keeps_agents info l name h = elim (loading L info l L.get_transport_definition) [
    | missing e ↦ record { defined = ground (arith, h.defined); handle = ground (arith, h.handle) }
    | no_symbol handle e f ↦ record {
      defined = ground (arith, h.defined);
      handle = ground (arith, h.handle);
    }
    | no_definition handle s e f g ↦ record {
      defined = ground (arith, h.defined);
      handle = ground (arith, h.handle);
    }
    | provided handle s definition e f g ↦ record {
      defined = ground (arith, h.defined);
      handle = ground (arith, h.handle);
    }
  ]

  pub load_all-keeps_agents :
      (loads : List Load) (l : LibLoader L) (name : String)
      → HasAgentLib l name
      → HasAgentLib (load_all L registry loads l) name
  unfolding load_all
  load_all-keeps_agents [] l name h = h
  load_all-keeps_agents (agent_lib info ∷ loads) l name h =
      load_all-keeps_agents loads _ name (agent_lib-keeps info l name h)
  load_all-keeps_agents (transport_lib info ∷ loads) l name h =
      load_all-keeps_agents loads _ name (transport_lib-keeps_agents info l name h)

  module _ (keeps : KeepsTransports S) where
    pub load_transport_lib-HasTransportLib :
        (info : LibInfo) (l : LibLoader L)
        → (load_transport_lib L info l).1.success ≡ true
        → HasTransportLib (load_transport_lib L info l).0 info.name
    unfolding load_transport_lib
    load_transport_lib-HasTransportLib info l h =
        elim (loading L info l L.get_transport_definition) [
          | missing e ↦ absurd (ground (arith, e))
          | no_symbol handle e f ↦ absurd (ground (arith, e, f))
          | no_definition handle s e f g ↦ absurd (ground (arith, e, f, g))
          | provided handle s definition e f g ↦ record {
            defined = ground (arith, keeps.added l.transport_registry info.name definition);
            handle = ground (
              arith,
              eq_iff info.name info.name,
              lookup-emplace info.name info.name handle l.transport_lib_handles,
            );
          }
        ]

    transport_lib-keeps :
        (info : LibInfo) (l : LibLoader L) (name : String)
        → HasTransportLib l name
        → HasTransportLib (load_transport_lib L info l).0 name
    unfolding load_transport_lib
    transport_lib-keeps info l name h = elim (loading L info l L.get_transport_definition) [
      | missing e ↦ record {
        defined = ground (arith, h.defined);
        handle = ground (arith, h.handle);
      }
      | no_symbol handle e f ↦ record {
        defined = ground (arith, h.defined);
        handle = ground (arith, h.handle);
      }
      | no_definition handle s e f g ↦ record {
        defined = ground (arith, h.defined);
        handle = ground (arith, h.handle);
      }
      | provided handle s definition e f g ↦ record {
        defined =
            ground (arith, keeps.kept l.transport_registry info.name definition name h.defined);
        handle = ground (
          arith,
          h.handle,
          eq_iff info.name name,
          lookup-emplace info.name name handle l.transport_lib_handles,
        );
      }
    ]

    agent_lib-keeps_transports :
        (info : LibInfo) (l : LibLoader L) (name : String)
        → HasTransportLib l name
        → HasTransportLib (load_agent_lib L registry info l).0 name
    unfolding load_agent_lib
    agent_lib-keeps_transports info l name h = elim (loading L info l L.get_agent_definition) [
      | missing e ↦ record {
        defined = ground (arith, h.defined);
        handle = ground (arith, h.handle);
      }
      | no_symbol handle e f ↦ record {
        defined = ground (arith, h.defined);
        handle = ground (arith, h.handle);
      }
      | no_definition handle s e f g ↦ record {
        defined = ground (arith, h.defined);
        handle = ground (arith, h.handle);
      }
      | provided handle s definition e f g ↦ record {
        defined = ground (arith, h.defined);
        handle = ground (arith, h.handle);
      }
    ]

    pub load_all-keeps_transports :
        (loads : List Load) (l : LibLoader L) (name : String)
        → HasTransportLib l name
        → HasTransportLib (load_all L registry loads l) name
    unfolding load_all
    load_all-keeps_transports [] l name h = h
    load_all-keeps_transports (agent_lib info ∷ loads) l name h =
        load_all-keeps_transports loads _ name (agent_lib-keeps_transports info l name h)
    load_all-keeps_transports (transport_lib info ∷ loads) l name h =
        load_all-keeps_transports loads _ name (transport_lib-keeps info l name h)
