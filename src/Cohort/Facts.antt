-- ===== src/Cohort/Facts.antt =====
-- The current addresses of the pinned node keys.
use seismic.Prelude.{
  ◌≡◌, ◌∙◌, false, some, [], ◌∷◌, arith, ok, >>=-eq-ok, some_or, some_or-eq-ok, All,
}
use seismic.Prelude.Text.{Text, text_eq, text_eq_refl, text_eq_comm}
use seismic.Prelude.Map.{Map, lookup, insert, lookup-insert}
use seismic.Descriptors.{NodeDescriptor, Descriptors}
use seismic.Founding.{FoundingRecord, FoundingRecords, with_consensus_port}
use seismic.Unique.Laws.{HasDistinctKeys}
use seismic.Cohort.{founding_ips, gone_from_cohort}

-- The box of the record is in the cohort, and its node key has the box's address.
abbrev pub IsCurrent : Descriptors → Map Text → Text × FoundingRecord → Type 0
IsCurrent ds ips e =
    (d : NodeDescriptor) × (lookup e.0 ds ≡ some d)
    × (lookup e.1.node_public_key ips ≡ some (with_consensus_port d.public_ip))

-- A key of none of the records keeps its address.
founding_ips_other :
    (ds : Descriptors) (records : FoundingRecords) (before ips : Map Text) (k : Text)
    → All (λ e. text_eq k e.1.node_public_key ≡ false) records
    → founding_ips ds records before ≡ ok ips
    → lookup k ips ≡ lookup k before
unfolding founding_ips
founding_ips_other ds [] before ips k a h = ground arith
founding_ips_other ds ((name, r) ∷ records) before ips k a h =
    let (d, b, h₁) = >>=-eq-ok (some_or (lookup name ds) (gone_from_cohort name)) _ h in
    founding_ips_other ds records
      (insert r.node_public_key (with_consensus_port d.public_ip) before) ips k a.1 h₁
    ∙ ground (
      arith,
      a.0,
      text_eq_comm k r.node_public_key,
      lookup-insert r.node_public_key k (with_consensus_port d.public_ip) before,
    )

founding_ips-IsCurrent_onto :
    (ds : Descriptors) (records : FoundingRecords) (before ips : Map Text)
    → HasDistinctKeys (λ (r : FoundingRecord). r.node_public_key) records
    → founding_ips ds records before ≡ ok ips
    → All (IsCurrent ds ips) records
unfolding founding_ips
founding_ips-IsCurrent_onto ds [] before ips u h = tt
founding_ips-IsCurrent_onto ds ((name, r) ∷ records) before ips u h =
    let (d, b, h₁) = >>=-eq-ok (some_or (lookup name ds) (gone_from_cohort name)) _ h in
    let next = insert r.node_public_key (with_consensus_port d.public_ip) before in
    (
      (
        d,
        some_or-eq-ok (lookup name ds) (gone_from_cohort name) b,
        founding_ips_other ds records next ips r.node_public_key u.0 h₁
            ∙ ground (
              arith,
              text_eq_refl r.node_public_key,
              lookup-insert r.node_public_key r.node_public_key (with_consensus_port d.public_ip)
                  before,
            ),
      ),
      founding_ips-IsCurrent_onto ds records next ips u.1 h₁,
    )

-- The founding facts, where they load for records of different node keys, give every record's node key
-- the current address of the record's box in the cohort, with the consensus port.
pub founding_ips-IsCurrent :
    (ds : Descriptors) (records : FoundingRecords) (ips : Map Text)
    → HasDistinctKeys (λ (r : FoundingRecord). r.node_public_key) records
    → founding_ips ds records [] ≡ ok ips
    → All (IsCurrent ds ips) records
founding_ips-IsCurrent ds records ips u h = founding_ips-IsCurrent_onto ds records [] ips u h
