-- ===== src/Bootnodes.antt =====
-- Enode URLs and the founding bootnode set: tee/cli/network/src/bootnodes.rs. What a node's RPC
-- returns and when a round of polls ends are inputs. A failure is a value in place of its message.
pub mod Laws
pub mod Ends
pub mod Tests
use seismic.Prelude.{
  ℕ, Bool, true, false, not, ◌&&◌, ◌||◌, Option, none, some, List, [], ◌∷◌, ◌++◌, Result, ok, err,
  ◌>>=◌, ◌>>◌, bail_if, some_or, map_err, if◌then◌else◌, length, all, ◌==◌, leb, is_empty, map,
}
use seismic.Prelude.Text.{Text, codes}
use seismic.Prelude.Map.{Map, lookup, insert, contains_key}
use seismic.Prelude.Split.{contains, split_once, rsplit_once, strip_prefix}
use seismic.Prelude.Hex.{is_hexdigit}
use seismic.Prelude.Decimal.{digits, parse_u16}
use seismic.Json.{Json, get, as_str}

pub record Bootnode : Type 0 where
  pub name : Text
  pub enode : Text

-- `Enode`: the pieces of an enode URL.
pub record Enode : Type 0 where
  pub id : Text
  pub host : Text
  pub port : ℕ
  pub query : Option Text

pub data EnodeError : Type 0 where
  not_an_enode : EnodeError
  no_host : EnodeError
  bad_id : EnodeError
  no_port : EnodeError
  bad_port : EnodeError

-- The host and the port's text: `[host]:port`, or `host:port` split at the last colon.
unfoldable pub host_and_port : Text → Result EnodeError (Text × Text)
host_and_port hostport = elim (strip_prefix (b'[' ∷ []) hostport) [
  | some inside ↦ do
    parts ← some_or (split_once b']' inside) no_host
    port ← some_or (strip_prefix (b':' ∷ []) parts.1) no_port
    ok (parts.0, port)
  | none ↦ some_or (rsplit_once b':' hostport) no_port
]

abbrev pub split_query : Text → Text × Option Text
split_query rest = elim (split_once b'?' rest) [
  | none ↦ (rest, none)
  | some (hostport, query) ↦ (hostport, some query)
]

unfoldable pub is_node_id : Text → Bool
is_node_id id = length id == 128 && all is_hexdigit id

unfoldable pub parse_enode : Text → Result EnodeError Enode
unfolding host_and_port is_node_id
parse_enode enode = do
  rest ← some_or (strip_prefix (codes "enode://") enode) not_an_enode
  parts ← some_or (split_once b'@' rest) no_host
  bail_if (not (is_node_id parts.0)) bad_id
  hp ← host_and_port (split_query parts.1).0
  bail_if (is_empty hp.0) no_host
  port ← some_or (parse_u16 hp.1) bad_port
  ok (record { id = parts.0; host = hp.0; port = port; query = (split_query parts.1).1 })

unfoldable pub render_host : Text → Text
render_host host = if contains b':' host then b'[' ∷ (host ++ b']' ∷ []) else host

-- `enode://<id>@<host>:<port>`.
unfoldable pub render_enode : Text → Text → ℕ → Text
unfolding render_host
render_enode id host port =
    codes "enode://" ++ (id ++ b'@' ∷ (render_host host ++ b':' ∷ digits port))

unfoldable pub normalize_enode : Text → Result EnodeError Text
unfolding parse_enode render_enode
normalize_enode enode = do p ← parse_enode enode; ok (render_enode p.id p.host p.port)

-- `fetch_enode`: what the RPC's result holds; none is a failed call or a result without an enode.
unfoldable pub fetch_enode : Option Json → Option Text
fetch_enode none = none
fetch_enode (some result) = elim (as_str (get (codes "enode") result)) [
  | none ↦ none
  | some [] ↦ none
  | some (c ∷ s) ↦ some (c ∷ s)
]

-- One pass of the polling loop: what each node's RPC returns, and when the pass is over.
pub record Round : Type 0 where
  pub result : Text → Option Json
  pub now : ℕ

pub data EnodesError : Type 0 where
  malformed : Text → EnodeError → EnodesError
  never_returned : List Text → EnodesError

-- The body of the loop over the targets, by their labels.
unfoldable pub poll_one : (Text → Option Json) → Text → Map Text → Result EnodesError (Map Text)
unfolding fetch_enode
poll_one result label enodes =
    if contains_key label enodes then ok enodes else elim (fetch_enode (result label)) [
      | none ↦ ok enodes
      | some raw ↦ elim (normalize_enode raw) [
        | ok enode ↦ ok (insert label enode enodes)
        | err why ↦ err (malformed label why)
      ]
    ]

unfoldable pub sweep : (Text → Option Json) → List Text → Map Text → Result EnodesError (Map Text)
unfolding poll_one
sweep result [] enodes = ok enodes
sweep result (label ∷ labels) enodes = do
  enodes' ← poll_one result label enodes
  sweep result labels enodes'

unfoldable pub pending : List Text → Map Text → List Text
pending [] enodes = []
pending (label ∷ labels) enodes =
    let rest = pending labels enodes in if contains_key label enodes then rest else label ∷ rest

-- `collect_enodes` over its rounds; none while the rounds given do not end it.
unfoldable pub collect_enodes :
    ℕ → List Text → List Round → Map Text → Option (Result EnodesError (Map Text))
unfolding sweep pending
collect_enodes deadline labels [] enodes = none
collect_enodes deadline labels (r ∷ rounds) enodes = elim (sweep r.result labels enodes) [
  | err e ↦ some (err e)
  | ok enodes' ↦
      let later = collect_enodes deadline labels rounds enodes' in
      let waiting = pending labels enodes' in
      if is_empty waiting
      then some (ok enodes')
      else if leb deadline r.now
      then some (err (never_returned waiting))
      else later
]
