-- ===== src/Tests/ArgsTests.antt =====
-- src/app/startup/ArgsParser.cpp: the theorems at concrete inputs.
use mavlink_hub.Base.{String, ◌≡◌, ◌↔◌, ◌⊎◌, none, ◌≢◌, some, eq_iff, arith}
use mavlink_hub.Startup.Args.{given, parse_args}
use mavlink_hub.Common.{OperationResult}
use mavlink_hub.Startup.{Hub}
use mavlink_hub.Startup.Begin.{begin_run, goes_on, Applies, begin_run_iff}
use mavlink_hub.Tests.Fixtures.{demo_registry}
use mavlink_hub.Tests.LoaderTests.{libraries}
use mavlink_hub.Tests.ServiceTests.{outside, start}
use mavlink_hub.Tests.JsonTests.{J}

path_given : ◌≢◌ {A = String} "plan.json" ""
path_given = ground (arith, eq_iff "plan.json" "")

-- No config file is named, so the default configuration is applied.
begin_run_iff_example :
    ((begin_run J libraries outside demo_registry some (given "") start ≡ none) ↔ (
      (parse_args J outside some (given "") ≡ none)
      ⊎ Applies J libraries outside demo_registry some (given "") start none))
    × ((after : Hub J libraries outside demo_registry)
        → (begin_run J libraries outside demo_registry some (given "") start ≡ some (goes_on after))
          ↔ ((result : OperationResult) × Applies J libraries outside demo_registry some
                (given "")
                start
                (some (after, result))))
begin_run_iff_example = begin_run_iff J libraries outside demo_registry some (given "") start
