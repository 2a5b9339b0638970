-- ===== src/Json.antt =====
-- src/common/json_utils/JsonUtils.cpp. The library jsoncons and the path function of the standard
-- library are parameters: `JsonApi` has the calls that the code makes of them. `Decode` reads plans,
-- `Config` reads the app config, `Encode` writes reports, `Status` reads status lists.
pub mod Api
pub mod Decode
pub mod Config
pub mod Encode
pub mod Status
pub mod PlanLaws
pub mod LibLaws
pub mod ConfigLaws
pub mod PlanKeys
pub mod RoundTrip
