-- ===== src/Context/Commands/Run/Laws.antt =====
-- The context file through a sequence of commands.
use seismic.Prelude.{◌≡◌, Bool, Option, List, ok}
use seismic.Prelude.Text.{Text}
use seismic.Json.{Json}
use seismic.Descriptors.{Descriptors}
use seismic.Context.Config.{Config}
use seismic.Context.Select.{load}
use seismic.Context.Document.{Doc, from_toml}
use seismic.Context.Commands.{Component}
use seismic.Context.Commands.Run.{suggest}

module _ (parse : Text → Option Doc) (render : Doc → Text)
    (std_absolute : Text → Option (List Component)) (spell : List Component → Text)
    (from_slice : Text → Option Json) (exists : Text → Bool) where
  -- The file loads: every command can act on it.
  abbrev pub Loads : Option Text → Type 0
  Loads file = (c : Config) × (load (from_toml parse) file ≡ ok c)

  suggest-Loads :
      (name : Text) (file : Option Text)
      → Loads file
      → Loads ((suggest parse render std_absolute spell from_slice exists name file).0)
  unfolding suggest
  suggest-Loads name file before = before
