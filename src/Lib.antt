-- ===== src/Lib.antt =====
-- The operator tool of the TEE network, tee/cli: founding a network from a cohort of boxes.
--
-- The program. `network harvest` reads each box's freshly made keys with a quote over them, verifies
-- every quote, and archives the records. `network assemble` pairs the records with the founders'
-- credentials. `network configure` delivers a config to every node, watches the first-boot disk wipe,
-- appraises the node, and hands the genesis node's enode to the joiners. The node table and the
-- directory come from the context file unless flags give them; the `ctx` commands edit that file,
-- `network rm` deletes a network with its entry, and `verify-founding` re-verifies a founding offline.
--
-- The files, with the paths of the code they are about:
--   Prelude       shared helpers: texts as lists of bytes, `BTreeMap<String, V>` as a sorted list of
--                 entries (`insert`, `lookup`), results with `>>=` for `?`, the `str`
--                 functions that split, hex digits, and decimal numbers of 16 bits
--   Json, Toml    values as the code reads them; parsing is serde_json's and toml's, a parameter
--   Paths         tee/cli/common/src/network_dir.rs: `NetworkDir`
--   Descriptors   tee/cli/common/src/descriptor.rs: `parse_descriptors`, `select_descriptor`
--   Context       tee/cli/context/src: Selection (`Selection` of lib.rs), Config (config.rs), Select
--                 (`Context::load`, `Context::select`, `Selected` of lib.rs; path.rs), Document (a
--                 TOML document and the derived readers of the schema), Write (write.rs), Commands
--                 (cmd.rs: `run_use`, `run_unset`; Run has `run_set_network`, `run_set_nodes` and
--                 sequences of commands; Suggest is about `next_after_registration`, Collapse about
--                 `absolute` of path.rs)
--   Removal       tee/cli/network/src/rm.rs: `remove`, with Forget about the entry
--   Manifest      tee/cli/common/src/manifest.rs: the checks of the artifacts it pins
--   Audit         tee/cli/network/src/verify_founding.rs: `run`, `audit_founding`, and
--                 `verify_harvest_records` of tee/cli/network/src/assemble.rs
--   Gates         tee/cli/network/src/gates.rs: `validate_registry_account`; Inject is
--                 `inject_registry_genesis_storage` (Judged: what the gate says of it), Run is `run_validation_gates`
--   Assembly      tee/cli/network/src/assemble.rs: `assemble`, `fill_eth_genesis_hash` (Fill, Refill); Files is about
--                 `write_artifact_set` and `check_artifact_set`
--   Watch         tee/cli/node/src/status.rs: `ProvisioningWatch::observe` and `poll_provisioning`;
--                 Decode is `LuksProvisioningStatus::from_result`
--   Unique        the check that no key is served twice, shared by Harvest and Founding
--   Founding      tee/cli/network/src/founding.rs: the credentials, the harvest records, the founding
--                 set; Files is about the files of the records, Seats about the set
--   Harvest       tee/cli/network/src/harvest.rs: `fetch_quote`, `collect_quotes`; Run is the command
--   Bootnodes     tee/cli/network/src/bootnodes.rs: `normalize_enode`, `collect_enodes`
--   Cohort        tee/cli/network/src/configure.rs: `build_cohort`; Facts is about the loop of
--                 `load_founding_facts`; Delivery is `configure_node` with `appraise`;
--                 Run is `run_cohort`, `bootstrap_greenfield`,
--                 `persist_founding_bootnodes` and `report`; Splice is `splice_validator_ips`
--   Launch        tee/cli/network/src/launch.rs: `assert_cohort_genesis_hash`, with Pause about its
--                 deadline; Holders is `assert_cohort_holder_keys`
--
-- The model. State is passed explicitly: a watch is a record that `observe` maps to the next one and
-- an update, the disk is a map from paths to texts. What comes from outside is input: the polls of a
-- watch, the rounds of replies of a collection with the instant at which each is over, the events of
-- the tasks of a run, and the outcome of each step of a delivery. A loop over such a sequence gives
-- none when the sequence ends before the loop does, so no fuel is chosen; there are theorems
-- on when each loop ends. Instants and durations are natural numbers, and
-- `duration_since` is the truncated difference. A failure is a value, one for each kind of message,
-- in place of its text.
--
-- Not modelled: the text of messages, progress lines and the dashboard; the verification of quotes
-- and the compilation of policies (parameters `verify` and `promote`); making the harvest directory,
-- which is taken to succeed, and a write that fails after it has begun: `can_write` says of a path
-- whether its write succeeds, and one that fails leaves the file. The clients of a collection are
-- taken to be built, and the last failure of each node is left out of the enode collection's
-- timeout. Comments and layout of the context file are toml_edit's and are not looked into: a document
-- is its entries in the order in which they were set, which toml_edit does not print them in, and a
-- table without entries may not be printed, so nothing depends on either; theorems on written files
-- suppose that what is printed reads back as no other configuration than the document's. An array
-- that stands for a struct of the schema, which serde reads, is refused. The file system, git and the sibling binaries are parameters of Removal, Gates and Assembly. Of `network
-- assemble` the promotion of the policy and the summary are left out.
pub mod Prelude
pub mod Json
pub mod Paths
pub mod Watch
pub mod Removal
pub mod Descriptors
pub mod Context
pub mod Toml
pub mod Unique
pub mod Founding
pub mod Harvest
pub mod Bootnodes
pub mod Cohort
pub mod Launch
pub mod Manifest
pub mod Audit
pub mod Gates
pub mod Assembly
