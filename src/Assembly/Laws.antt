-- ===== src/Assembly/Laws.antt =====
-- What `assemble` makes.
use seismic.Json
use seismic.Json.{Json, Fields, as_object}
use seismic.Toml
use seismic.Toml.{Table}
