-- ===== src/Config.antt =====
-- config/: the configuration file, from YAML to a verified configuration.
pub mod Types
pub mod Yaml
pub mod Error
pub mod Url
pub mod Verify
pub mod Loader
