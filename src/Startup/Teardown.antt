-- ===== src/Startup/Teardown.antt =====
-- `~App` of src/app/App.cpp: the members of AppImpl are destroyed in the reverse of their order. The
-- signal handler and the interface have been stopped, the service owns no other part, then the
-- manager goes, and after it the loader.
use mavlink_hub.Base.{List}
use mavlink_hub.Sdk.{Sdk}
use mavlink_hub.Registry.Admin.{AgentRegistry}
use mavlink_hub.Loader.{DynamicLibraries, DlCall, destroy_loader}
use mavlink_hub.Manager.State.{Manager}
use mavlink_hub.Manager.Destroy.{destroy_agents}
use mavlink_hub.Json.Api.{JsonApi}
use mavlink_hub.Service.Execute.{Outside}
use mavlink_hub.Startup.{Hub}
use mavlink_hub.Startup.Running.{manager_of}

module _ {S : Sdk} (J : JsonApi) (L : DynamicLibraries S) (outside : Outside)
    (registry : AgentRegistry) where
  -- The manager as the destructors of the agents leave it, and all calls on libraries.
  unfoldable pub destroy_app : Hub J L outside registry → Manager S × List (DlCall L.LibHandle)
  unfolding destroy_agents destroy_loader
  destroy_app hub =
      let m = manager_of J L outside registry hub in
      (destroy_agents S m.agents m, destroy_loader L hub.lib_loader)
