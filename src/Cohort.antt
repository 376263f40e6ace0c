-- ===== src/Cohort.antt =====
-- The founding cohort: tee/cli/network/src/configure.rs. This file has the nodes and the facts that
-- a run starts from, `Cohort.Delivery` what happens to one node, `Cohort.Run` the run over all of
-- them. Failures are values in place of messages.
pub mod Delivery
pub mod Run
pub mod Splice
pub mod Laws
pub mod Facts
mod Tests
use seismic.Prelude.{
  ℕ, Bool, true, false, not, Option, none, some, List, [], ◌∷◌, ◌++◌, Result, ok, err, ◌>>=◌, ◌>>◌,
  bail_if, some_or, if◌then◌else◌, ltb, is_empty, map, ◌+◌,
}
use seismic.Prelude.Text.{Text, text_eq}
use seismic.Prelude.Map.{Map, lookup, insert, contains_key, keys}
use seismic.Descriptors.{NodeDescriptor, Descriptors}
use seismic.Founding.{FoundingRecord, FoundingRecords, with_consensus_port}

-- `Node`.
pub record Node : Type 0 where
  pub name : Text
  pub public_ip : Text
  pub fqdn : Text
  pub genesis : Bool
  pub bootnodes : List Text

pub data CohortError : Type 0 where
  no_such_nodes : List Text → CohortError
  duplicate_names : List Text → CohortError
  duplicate_ips : List Text → CohortError
  gone_from_cohort : Text → CohortError

-- Every other name of the map, or the names given.
unfoldable pub others : Text → List Text → List Text
others genesis [] = []
others genesis (name ∷ names) =
    let rest = others genesis names in if text_eq name genesis then rest else name ∷ rest

abbrev pub joiners_of : Descriptors → Text → Option (List Text) → List Text
joiners_of ds genesis none = others genesis (keys ds)
joiners_of ds genesis (some join) = join

-- The set of names that the map does not hold.
unfoldable pub unknown : Descriptors → List Text → Map (Unit {0})
unknown ds [] = []
unknown ds (name ∷ names) =
    let rest = unknown ds names in if contains_key name ds then rest else insert name tt rest

-- The nodes of the names, each with its descriptor; the first name is the genesis node's.
unfoldable pub seat : Descriptors → Bool → List Text → Result CohortError (List Node)
seat ds genesis [] = ok []
seat ds genesis (name ∷ names) = do
  d ← some_or (lookup name ds) (no_such_nodes (name ∷ []))
  rest ← seat ds false names
  ok (
      record {
        name = name;
        public_ip = d.public_ip;
        fqdn = d.fqdn;
        genesis = genesis;
        bootnodes = [];
      }
      ∷ rest)

abbrev pub or_default : Option ℕ → ℕ
or_default none = 0
or_default (some n) = n

-- How often each key occurs.
unfoldable pub tally : List Text → Map ℕ → Map ℕ
tally [] counts = counts
tally (k ∷ ks) counts = tally ks (insert k (1 + or_default (lookup k counts)) counts)

unfoldable pub dupes : Map ℕ → List Text
dupes [] = []
dupes ((k, c) ∷ counts) = let rest = dupes counts in if ltb 1 c then k ∷ rest else rest

unfoldable pub check_duplicates :
    List Text → (List Text → CohortError) → Result CohortError (Unit {0})
unfolding tally dupes
check_duplicates ks why =
    let repeated = dupes (tally ks []) in bail_if (not (is_empty repeated)) (why repeated)

unfoldable pub build_cohort :
    Descriptors → Text → Option (List Text) → Result CohortError (List Node)
unfolding unknown seat check_duplicates
build_cohort ds genesis join = do
  bail_if (not (is_empty (unknown ds (genesis ∷ joiners_of ds genesis join))))
      (no_such_nodes (keys (unknown ds (genesis ∷ joiners_of ds genesis join))))
  nodes ← seat ds true (genesis ∷ joiners_of ds genesis join)
  check_duplicates (map (λ (n : Node). n.name) nodes) duplicate_names
  check_duplicates (map (λ (n : Node). n.public_ip) nodes) duplicate_ips
  ok nodes

-- The loop of `load_founding_facts`: each pinned node key with the current address of its box.
unfoldable pub founding_ips :
    Descriptors → FoundingRecords → Map Text → Result CohortError (Map Text)
unfolding with_consensus_port
founding_ips ds [] ips = ok ips
founding_ips ds ((name, r) ∷ records) ips = do
  d ← some_or (lookup name ds) (gone_from_cohort name)
  founding_ips ds records (insert r.node_public_key (with_consensus_port d.public_ip) ips)
