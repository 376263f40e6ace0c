-- ===== src/Cohort/Splice/Tests.antt =====
-- The splice of one address.
use seismic.Prelude.{◌≡◌, refl, Bool, ◌&&◌, Option, some, [], ◌∷◌, ◌++◌, ok, is_some, if◌then◌else◌}
use seismic.Prelude.Text.{Text, codes, text_eq}
use seismic.Prelude.Map.{Map, lookup, insert}
use seismic.Prelude.Split.{contains, strip_prefix}
use seismic.Toml
use seismic.Toml.{Toml, Table, get, set}
use seismic.Cohort.Splice.{is_ip_address_line, splice_validator_ips}
use seismic.Cohort.Splice.Laws.{IsSpliced, splice_validator_ips-IsSpliced}

abbrev quoted : Text → Text
quoted s = b'"' ∷ (s ++ b'"' ∷ [])

abbrev text_with : Text → Text
text_with ip = codes "n = 1" ++ 10 ∷ (codes "ip_address = " ++ (quoted ip ++ 10 ∷ codes "m = 2"))

abbrev document_with : Text → Table
document_with ip =
    Toml.entry (codes "validators")
      (Toml.array (
        Toml.cons
          (Toml.table (
            Toml.entry (codes "node_public_key") (Toml.string (codes "k"))
              (Toml.entry (codes "ip_address") (Toml.string ip) Toml.end)))
          Toml.nil))
      Toml.end

abbrev from_toml : Text → Option Table
from_toml s =
    if text_eq s (text_with (codes "x"))
    then some (document_with (codes "x"))
    else some (document_with (codes "y"))

abbrev has_validators : Table → Bool
has_validators t = is_some (get (codes "validators") t)

abbrev same : Table → Table → Bool
same a b = has_validators a && has_validators b

abbrev ips : Map Text
ips = (codes "k", codes "y") ∷ []

splices_one :
    splice_validator_ips from_toml same quoted (text_with (codes "x")) ips
    ≡ ok (text_with (codes "y"))
unfolding splice_validator_ips is_ip_address_line text_eq lookup insert contains strip_prefix get
    set
splices_one = refl

splice_validator_ips-IsSpliced_example :
    IsSpliced from_toml same quoted (text_with (codes "x")) ips (text_with (codes "y"))
splice_validator_ips-IsSpliced_example =
    splice_validator_ips-IsSpliced from_toml same quoted (text_with (codes "x")) ips
      (text_with (codes "y")) splices_one
