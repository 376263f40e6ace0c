-- ===== src/Context/Write/Laws.antt =====
-- What the file reads as after the selection is set, cleared, or its network removed.
pub mod Networks
pub mod Register
pub mod Removal
pub mod Edit
use seismic.Prelude.{
  ◌≡◌, refl, sym, ap, ◌∙◌, inl, inr, Bool, true, false, Option, none, some, List, [], ◌∷◌, arith,
  Result, ok, err, ◌>>=◌, >>=-eq-ok, Option-cases, Bool-cases, if◌then◌else◌,
}
use seismic.Prelude.Text.{Text, codes, text_eq}
use seismic.Prelude.Map.{Map, lookup}
use seismic.Context.Selection.{Selection, from_str, display}
use seismic.Context.Config.{Network, Config}
use seismic.Context.Select.{or_else}
use seismic.Context.Document.{
  Item, string, other, inline, table, Doc, end, get, put, remove, as_str, optional, map_of,
  map_or_default, entries, network_of, config_of,
}
use seismic.Context.Document.Laws.{
  get-put, get-remove, read_at, lookup-map_of, map_of-remove, IsConfig, config_of-IsConfig,
  IsConfig-config_of,
}
use seismic.Context.Document.Edits.{
  optional-as_str, put_current-IsConfig, put_previous-IsConfig, put_networks-IsConfig,
  remove_current-IsConfig, remove_previous-IsConfig,
}
use seismic.Context.Write.{
  set_current, clear_current, selects, forget, drop_network, remove_network,
}

-- A configuration with `s` selected, and what was selected as the previous selection.
abbrev pub switched : Selection → Config → Config
switched s c = record {
  current = some (display s);
  previous = or_else c.current c.previous;
  networks = c.networks;
}

set_current-IsConfig :
    (s : Selection) (d : Doc) (c : Config)
    → IsConfig d c
    → IsConfig (set_current s d) (switched s c)
unfolding set_current
set_current-IsConfig s d c r =
    let old : as_str (get (codes "current") d) ≡ c.current =
      optional-as_str (get (codes "current") d) c.current r.reads_current in
    elim (Option-cases c.current) [
      | inl nothing ↦ rw (old, nothing) (put_current-IsConfig d c r (display s))
      | inr (text, something) ↦
          rw (old, something)
            (put_current-IsConfig (put (codes "previous") (string text) d)
              (record c { previous = some text }) (put_previous-IsConfig d c r text) (display s))
    ]

-- A file that reads as a configuration reads, after `set_current`, as that configuration with the
-- selection as its current one, what was current before as its previous one when there was one, and the
-- same networks.
pub set_current-switched :
    (s : Selection) (d : Doc) (c : Config)
    → config_of d ≡ ok c
    → config_of (set_current s d) ≡ ok (switched s c)
set_current-switched s d c h =
    IsConfig-config_of (set_current s d) (switched s c)
      (set_current-IsConfig s d c (config_of-IsConfig d c h))

pub clear_current-unset :
    (d : Doc) (c : Config)
    → config_of d ≡ ok c
    → config_of (clear_current d) ≡ ok (record c { current = none })
unfolding clear_current
clear_current-unset d c h =
    IsConfig-config_of (clear_current d) (record c { current = none })
      (remove_current-IsConfig d c (config_of-IsConfig d c h))
