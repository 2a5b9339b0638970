-- ===== src/Startup/Mapped.antt =====
-- How long the plugin libraries of the whole program stay open, from src/app/App.cpp to the destructor
-- of src/app/lib_loader/LibLoader.cpp.
use mavlink_hub.Base.{◌+◌, ◌≤◌, String, ◌≡◌, ◌∙◌, Bool, Option, some, List, []}
use mavlink_hub.Sdk.{Sdk}
use mavlink_hub.Registry.Admin.{AgentRegistry}
use mavlink_hub.Loader.{DynamicLibraries}
use mavlink_hub.Loader.Balance.{
  opens, closes, held, Load, load_all, all_lost, load_all-held, destroy_loader-balance,
}
use mavlink_hub.Json.Api.{JsonApi}
use mavlink_hub.Service.Execute.{Outside}
use mavlink_hub.Service.Laws.{Answers-elim}
use mavlink_hub.Startup.{Hub}
use mavlink_hub.Startup.Args.{Arguments}
use mavlink_hub.Startup.Begin.{begin_run, goes_on, begin_run_iff}
use mavlink_hub.Startup.Libraries.{LoadedFrom, HubLoaded, apply_config-HubLoaded, Serves-lib_loader}
use mavlink_hub.Startup.Program.{Serves}
use mavlink_hub.Startup.Teardown.{destroy_app}

module _ {S : Sdk} (J : JsonApi) (L : DynamicLibraries S) (outside : Outside)
    (registry : AgentRegistry) (canonical : String → Option String) (args : Arguments) where
  started-LoadedFrom :
      (initial started now : Hub J L outside registry)
      → begin_run J L outside registry canonical args initial ≡ some (goes_on started)
      → Serves J L outside registry started now
      → LoadedFrom J L outside registry initial.lib_loader now.lib_loader
  started-LoadedFrom initial started now starts serves =
      let applied =
        ((begin_run_iff J L outside registry canonical args initial).1 started).0 starts in
      let loaded =
        Answers-elim (HubLoaded J L outside registry initial.lib_loader) _ (started, applied.0)
          (apply_config-HubLoaded J L outside registry applied.1.0 initial) applied.1.2 in
      (loaded.0, Serves-lib_loader J L outside registry started now serves ∙ loaded.1)

  -- The program is started with a loader that has nothing. As long as it serves, every library is
  -- open as often as the loader holds a handle on it, so no code of a plugin that it has loaded is
  -- unmapped. At the end every handle has been closed as often as it was opened, but for the opens
  -- of the successful loads under a name that the loader had a handle for.
  pub libraries_stay_open :
      (chosen : L.LibHandle → Bool) (initial started now : Hub J L outside registry)
      → initial.lib_loader.agent_lib_handles ≡ []
      → initial.lib_loader.transport_lib_handles ≡ []
      → initial.lib_loader.dl_calls ≡ []
      → begin_run J L outside registry canonical args initial ≡ some (goes_on started)
      → Serves J L outside registry started now
      → let l = now.lib_loader in
        let calls = (destroy_app J L outside registry now).1 in
        (held chosen l.agent_lib_handles
            + held chosen l.transport_lib_handles
            + closes chosen l.dl_calls
          ≤ opens chosen l.dl_calls)
        × ((loads : List Load) × (l ≡ load_all L registry loads initial.lib_loader)
            × (opens chosen calls
                ≡ closes chosen calls + all_lost L chosen registry loads initial.lib_loader))
  unfolding destroy_app
  libraries_stay_open chosen initial started now a t e starts serves =
      let loaded = started-LoadedFrom initial started now starts serves in
      let l = initial.lib_loader in
      (
        rw loaded.1 (load_all-held L chosen registry loaded.0 l a t e),
        (
          loaded.0,
          loaded.1,
          rw loaded.1 (destroy_loader-balance L chosen registry loaded.0 l a t e),
        ),
      )
