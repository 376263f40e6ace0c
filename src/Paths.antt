-- ===== src/Paths.antt =====
-- Paths as texts, joined as `Path::join` joins them, and the layout of a network directory:
-- tee/cli/common/src/network_dir.rs.
pub mod Laws
use seismic.Prelude.{ℕ, Bool, true, false, List, [], ◌∷◌, ◌++◌, ◌==◌, if◌then◌else◌}
use seismic.Prelude.Text.{Text, codes}

unfoldable pub is_absolute : Text → Bool
is_absolute [] = false
is_absolute (c ∷ s) = c == b'/'

unfoldable pub ends_with_slash : Text → Bool
ends_with_slash [] = false
ends_with_slash (c ∷ []) = c == b'/'
ends_with_slash (c ∷ d ∷ s) = ends_with_slash (d ∷ s)

-- `base.join(path)`.
unfoldable pub join : Text → Text → Text
unfolding is_absolute ends_with_slash
join [] path = path
join base path =
    if is_absolute path
    then path
    else if ends_with_slash base
    then base ++ path
    else base ++ b'/' ∷ path

-- `NetworkDir`: every path is under its root.
pub record NetworkDir : Type 0 where
  pub root : Text

unfoldable pub manifest : NetworkDir → Text
manifest d = join d.root (codes "network-manifest.json")

unfoldable pub policy : NetworkDir → Text
policy d = join d.root (codes "measurement-policy-bootstrap.json")

unfoldable pub reth_genesis : NetworkDir → Text
reth_genesis d = join d.root (codes "reth-genesis.json")

unfoldable pub summit_genesis : NetworkDir → Text
summit_genesis d = join d.root (codes "summit-genesis.toml")

unfoldable pub inputs : NetworkDir → Text
inputs d = join d.root (codes "inputs")

unfoldable pub input_measurements : NetworkDir → Text
unfolding inputs
input_measurements d = join (inputs d) (codes "measurements.json")

unfoldable pub founders : NetworkDir → Text
unfolding inputs
founders d = join (inputs d) (codes "founder-withdrawal-credentials.json")

unfoldable pub harvest : NetworkDir → Text
unfolding inputs
harvest d = join (inputs d) (codes "harvest")

unfoldable pub harvest_record : NetworkDir → Text → Text
unfolding harvest
harvest_record d node = join (harvest d) (node ++ codes ".json")

unfoldable pub nodes : NetworkDir → Text
nodes d = join d.root (codes "nodes")

-- `top_level`: the entries of the directory that the layout owns.
unfoldable pub top_level : NetworkDir → List Text
unfolding inputs manifest policy reth_genesis summit_genesis nodes
top_level d = inputs d ∷ manifest d ∷ policy d ∷ reth_genesis d ∷ summit_genesis d ∷ nodes d ∷ []

unfoldable pub bootnodes : NetworkDir → Text
unfolding nodes
bootnodes d = join (nodes d) (codes "bootnodes.json")

unfoldable pub init_config : NetworkDir → Text → Text
unfolding nodes
init_config d node = join (nodes d) (node ++ codes ".init-config.toml")
