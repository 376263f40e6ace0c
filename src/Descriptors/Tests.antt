-- ===== src/Descriptors/Tests.antt =====
-- The descriptor map of a two-node cohort.
use seismic.Prelude.{◌≡◌, refl, Option, some, [], ◌∷◌, ok, All}
use seismic.Prelude.Text.{Text, codes, text_eq, text_lt}
use seismic.Prelude.Map.{lookup, insert, IsSorted}
use seismic.Json.{Json, string, object, Fields, end, field, get_field}
use seismic.Descriptors.{NodeDescriptor, Descriptors, parse_descriptors}
use seismic.Descriptors.Laws.{HasUniqueKeys, described, IsUsable, parse_descriptors-described}

abbrev pub node_fields : Text → Text → Json
node_fields ip fqdn =
    object (field (codes "public_ip") (string ip) (field (codes "fqdn") (string fqdn) end))

abbrev file : Fields
file =
    field (codes "b") (node_fields (codes "2.2.2.2") (codes "b.org"))
      (field (codes "a") (node_fields (codes "1.1.1.1") (codes "a.org")) end)

abbrev node_a : NodeDescriptor
node_a = record { public_ip = codes "1.1.1.1"; fqdn = codes "a.org" }

abbrev node_b : NodeDescriptor
node_b = record { public_ip = codes "2.2.2.2"; fqdn = codes "b.org" }

abbrev table : Descriptors
table = (codes "a", node_a) ∷ (codes "b", node_b) ∷ []

abbrev parse : Text → Option Json
parse bytes = some (object file)

file_unique : HasUniqueKeys file
unfolding get_field text_eq
file_unique = (refl, (refl, tt))

file_parses : parse_descriptors parse [] ≡ ok table
unfolding parse_descriptors get_field text_eq insert text_lt
file_parses = refl

parse_descriptors-described_example :
    IsSorted table
    × (lookup (codes "a") table ≡ described (get_field (codes "a") file))
    × All IsUsable table
parse_descriptors-described_example =
    parse_descriptors-described parse [] file table (codes "a") refl file_unique file_parses
