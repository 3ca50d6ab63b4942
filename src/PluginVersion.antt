-- ===== src/PluginVersion.antt =====
-- src/plugin-version/policy.ts: the versions of the plugin that the API supports.
pub mod Policy
pub mod Prints
pub mod Order
mod Tests
