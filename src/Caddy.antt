-- ===== src/Caddy.antt =====
-- caddy/module.go: the Caddy module, from the lines of a Caddyfile to the options of the cache.
pub mod ByteSize
pub mod Caddyfile
pub mod Provision
