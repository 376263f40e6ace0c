-- ===== src/Cohort/Tests.antt =====
-- A cohort of two nodes, built and founded.
use seismic.Prelude.{
  ◌≡◌, ◌≢◌, arith, ◌⊎◌, refl, Bool, true, false, none, some, List, [], ◌∷◌, ok, All, map,
}
use seismic.Prelude.Text.{Text, codes, text_eq, text_lt}
use seismic.Prelude.Map.{Map, lookup, insert}
use seismic.Prelude.Split.{contains, strip_prefix, split_once, rsplit_once}
use seismic.Prelude.Hex.{is_hexdigit}
use seismic.Prelude.Decimal.{digits, parse_u16}
use seismic.Json.{null, string, object, end, field, get_field}
use seismic.Descriptors.{Descriptors}
use seismic.Watch.{status, idle, provisioning}
use seismic.Bootnodes
use seismic.Bootnodes.{Bootnode, collect_enodes, normalize_enode}
use seismic.Founding.{FoundingRecords}
use seismic.Cohort.Facts.{IsCurrent, founding_ips-IsCurrent}
use seismic.Cohort.{founding_ips, Node, others, joiners_of, build_cohort}
use seismic.Cohort.Laws.{HasOneGenesis, IsNodeOf, IsDistinct, build_cohort-HasOneGenesis}
use seismic.Cohort.Delivery.{Steps}
use seismic.Cohort.Run.{
  Event, joined, crashed, run_cohort, persist_founding_bootnodes, bootstrap_greenfield,
}
use seismic.Cohort.Run.Ends.{run_cohort_ends}
use seismic.Cohort.Run.Laws.{JoinedWell, run_cohort-JoinedWell}
use seismic.Cohort.Run.Stages.{
  AllMadeIt, as_genesis, IsStaged, persist_founding_bootnodes-AllMadeIt,
  bootstrap_greenfield-IsStaged,
}

abbrev table : Descriptors
table =
    (codes "a", record { public_ip = codes "1.1.1.1"; fqdn = codes "a.org" })
    ∷ (codes "b", record { public_ip = codes "2.2.2.2"; fqdn = codes "b.org" })
    ∷ []

abbrev node_b : Node
node_b = record {
  name = codes "b";
  public_ip = codes "2.2.2.2";
  fqdn = codes "b.org";
  genesis = true;
  bootnodes = [];
}

abbrev node_a : Node
node_a = record {
  name = codes "a";
  public_ip = codes "1.1.1.1";
  fqdn = codes "a.org";
  genesis = false;
  bootnodes = [];
}

abbrev both : List Node
both = node_b ∷ node_a ∷ []

both_built : build_cohort table (codes "b") none ≡ ok both
unfolding build_cohort lookup text_eq insert text_lt others
both_built = refl

build_cohort-HasOneGenesis_example :
    (map (λ (n : Node). n.name) both ≡ codes "b" ∷ joiners_of table (codes "b") none)
    × HasOneGenesis both
    × All (IsNodeOf table) both
    × IsDistinct (map (λ (n : Node). n.name) both)
    × IsDistinct (map (λ (n : Node). n.public_ip) both)
build_cohort-HasOneGenesis_example =
    build_cohort-HasOneGenesis table (codes "b") none both both_built

abbrev steps : Steps
steps = record {
  built = true;
  recorded = true;
  client_made = true;
  posted = true;
  polls = (0, status (provisioning 1 9 none)) ∷ (3, status idle) ∷ [];
  verdicts = false ∷ true ∷ [];
}

abbrev one_crash : List Event
one_crash = joined (codes "b") true ∷ crashed ∷ []

abbrev after_crash : Map Bool
after_crash = (codes "a", false) ∷ (codes "b", true) ∷ []

crash_runs : run_cohort both one_crash ≡ some (ok after_crash)
unfolding run_cohort lookup text_eq insert text_lt
crash_runs = refl

run_cohort-JoinedWell_example :
    All
      (λ (n : Node).
        (lookup n.name after_crash ≡ some false)
        ⊎ ((lookup n.name after_crash ≡ some true) × JoinedWell n.name one_crash))
      both
run_cohort-JoinedWell_example = run_cohort-JoinedWell both one_crash after_crash crash_runs

abbrev all_ok : Map Bool
all_ok = (codes "a", true) ∷ (codes "b", true) ∷ []

abbrev enode : Text
enode =
    codes
      "enode://0123456789abcdef0123456789abcdef0123456789abcdef0123456789abcdef0123456789abcdef0123456789abcdef0123456789abcdef0123456789abcdef@2.2.2.2:30303"

abbrev rounds : List Bootnodes.Round
rounds =
    record { result = λ name. some (object (field (codes "enode") (string enode) end)); now = 1 }
    ∷ []

abbrev set : List Bootnode
set = record { name = codes "b"; enode = enode } ∷ record { name = codes "a"; enode = enode } ∷ []

set_persisted : persist_founding_bootnodes both all_ok 9 rounds ≡ some set
unfolding persist_founding_bootnodes lookup text_eq collect_enodes get_field normalize_enode
    strip_prefix split_once is_hexdigit rsplit_once parse_u16 insert text_lt contains digits
set_persisted = refl

persist_founding_bootnodes-AllMadeIt_example :
    AllMadeIt both all_ok
    × (map (λ (b : Bootnode). b.name) set ≡ map (λ (n : Node). n.name) both)
    × ((enodes : Map Text) × (collect_enodes 9 (map (λ (n : Node). n.name) both) rounds []
          ≡ some (ok enodes))
        × All (λ (b : Bootnode). lookup b.name enodes ≡ some b.enode) set)
persist_founding_bootnodes-AllMadeIt_example =
    persist_founding_bootnodes-AllMadeIt both all_ok 9 rounds set set_persisted

abbrev b_joins : List Event
b_joins = joined (codes "b") true ∷ []

abbrev a_joins : List Event
a_joins = joined (codes "a") true ∷ []

bootstrap_greenfield-IsStaged_example :
    ((bootstrap_greenfield node_b (node_a ∷ []) 9 b_joins rounds a_joins).started
      ≡ (as_genesis node_b ∷ []) ∷ [])
    ⊎ IsStaged node_b
        (node_a ∷ [])
        9
        b_joins
        rounds
        (bootstrap_greenfield node_b (node_a ∷ []) 9 b_joins rounds a_joins).started
bootstrap_greenfield-IsStaged_example =
    bootstrap_greenfield-IsStaged node_b (node_a ∷ []) 9 b_joins rounds a_joins
      (bootstrap_greenfield node_b (node_a ∷ []) 9 b_joins rounds a_joins) refl

run_cohort_ends_example : run_cohort both one_crash ≢ none
run_cohort_ends_example = run_cohort_ends both one_crash (omega arith)

abbrev record_of_b : FoundingRecords
record_of_b =
    (
      codes "b",
      record { node_public_key = codes "k"; consensus_public_key = codes "c"; document = null },
    )
    ∷ []

abbrev ip_of_b : Map Text
ip_of_b = (codes "k", codes "2.2.2.2:18551") ∷ []

b_is_there : founding_ips table record_of_b [] ≡ ok ip_of_b
unfolding founding_ips lookup text_eq insert
b_is_there = refl

founding_ips-IsCurrent_example : All (IsCurrent table ip_of_b) record_of_b
founding_ips-IsCurrent_example =
    founding_ips-IsCurrent table record_of_b ip_of_b (tt, tt) b_is_there
