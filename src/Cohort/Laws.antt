-- ===== src/Cohort/Laws.antt =====
-- A cohort that is built has one genesis node and no node twice.
use seismic.Prelude.{
  ℕ, ◌≡◌, refl, ◌≤◌, ◌+◌, ◌∙◌, ap, Bool, true, false, not, Option, none, some, List, [], ◌∷◌, arith,
  All, All-imp, ok, >>=-eq-ok, some_or, some_or-eq-ok, bail_if, is_empty, ltb, map, Bool-cases,
  Option-cases, inl, inr,
}
use seismic.Prelude.Text.{Text, text_eq, text_eq_iff, text_eq_refl}
use seismic.Prelude.Map.{Map, lookup, insert, keys, lookup-insert, lookup-All}
use seismic.Descriptors.{Descriptors}
use seismic.Cohort.{
  Node, CohortError, no_such_nodes, duplicate_names, duplicate_ips, joiners_of, unknown, seat,
  tally, dupes, or_default, check_duplicates, build_cohort,
}

-- No text of the list occurs in it again.
abbrev pub IsDistinct : List Text → Type 0
IsDistinct [] = Unit {0}
IsDistinct (k ∷ ks) = All (λ j. text_eq k j ≡ false) ks × IsDistinct ks

-- A node as the descriptor map has it, with no bootnodes yet.
abbrev pub IsNodeOf : Descriptors → Node → Type 0
IsNodeOf ds n =
    (lookup n.name ds ≡ some (record { public_ip = n.public_ip; fqdn = n.fqdn }))
    × (n.bootnodes ≡ [])

abbrev pub HasOneGenesis : List Node → Type 0
HasOneGenesis [] = ⊥
HasOneGenesis (n ∷ nodes) = (n.genesis ≡ true) × All (λ (m : Node). m.genesis ≡ false) nodes

AtMostOnce : Map ℕ → Type 0
AtMostOnce counts = All (λ e. e.1 ≤ 1) counts

Occur : Map ℕ → Type 0
Occur counts = (k : Text) (n : ℕ) → lookup k counts ≡ some n → 1 ≤ n

dupes-AtMostOnce : (counts : Map ℕ) → is_empty (dupes counts) ≡ true → AtMostOnce counts
unfolding dupes AtMostOnce
dupes-AtMostOnce [] h = tt
dupes-AtMostOnce ((k, c) ∷ counts) h = elim (Bool-cases (ltb 1 c)) [
  | inl twice ↦ absurd (ground arith)
  | inr once ↦ (ground arith, dupes-AtMostOnce counts (ground arith))
]

tally_grows :
    (ks : List Text) (counts : Map ℕ) (k : Text) (n : ℕ)
    → lookup k counts ≡ some n
    → (m : ℕ) × (lookup k (tally ks counts) ≡ some m) × (n ≤ m)
unfolding tally
tally_grows [] counts k n h = (n, h, omega arith)
tally_grows (j ∷ ks) counts k n h = elim (Bool-cases (text_eq j k)) [
  | inr other ↦
      tally_grows ks (insert j (1 + or_default (lookup j counts)) counts) k n
        (lookup-insert j k (1 + or_default (lookup j counts)) counts ∙ rw other h)
  | inl same ↦
      let p : j ≡ k = (text_eq_iff j k).0 same in
      let c : or_default (lookup j counts) ≡ n = rw p (rw h refl) in
      let (m, e, b) =
        tally_grows ks (insert j (1 + or_default (lookup j counts)) counts) k
          (1 + or_default (lookup j counts))
          (lookup-insert j k (1 + or_default (lookup j counts)) counts ∙ rw same refl) in
      (m, e, omega arith)
]

Occur-lookup :
    (counts : Map ℕ) → Occur counts → (k : Text) (n : ℕ) → lookup k counts ≡ some n → 1 ≤ n
unfolding Occur
Occur-lookup counts o = o

insert-Occur : (k : Text) (n : ℕ) (counts : Map ℕ) → Occur counts → Occur (insert k (1 + n) counts)
unfolding Occur
insert-Occur k n counts o j m h = elim (Bool-cases (text_eq k j)) [
  | inl same ↦ ground (arith, lookup-insert k j (1 + n) counts)
  | inr other ↦ o j m (ground (arith, lookup-insert k j (1 + n) counts))
]

-- Where no count exceeds one, the keys were new and are distinct.
tally-IsDistinct :
    (ks : List Text) (counts : Map ℕ)
    → Occur counts
    → AtMostOnce (tally ks counts)
    → All (λ k. lookup k counts ≡ none) ks × IsDistinct ks
unfolding tally AtMostOnce
tally-IsDistinct [] counts o a = (tt, tt)
tally-IsDistinct (k ∷ ks) counts o a =
    let next = insert k (1 + or_default (lookup k counts)) counts in
    let (fresh, distinct) =
      tally-IsDistinct ks next (insert-Occur k (or_default (lookup k counts)) counts o) a in
    let (m, e, b) =
      tally_grows ks next k (1 + or_default (lookup k counts))
        (lookup-insert k k (1 + or_default (lookup k counts)) counts ∙ rw (text_eq_refl k) refl) in
    let once : m ≤ 1 = lookup-All (λ e. e.1 ≤ 1) k m (tally ks next) a e in
    ((new b once, All-imp _ _ later ks fresh), (All-imp _ _ apart ks fresh, distinct))
  where
    apart :
        (j : Text)
        → lookup j (insert k (1 + or_default (lookup k counts)) counts) ≡ none
        → text_eq k j ≡ false
    apart j h = ground (arith, lookup-insert k j (1 + or_default (lookup k counts)) counts)

    new : {m : ℕ} → 1 + or_default (lookup k counts) ≤ m → m ≤ 1 → lookup k counts ≡ none
    new b once = elim (Option-cases (lookup k counts)) [
      | inl n ↦ n
      | inr (n, p) ↦
          let one = Occur-lookup counts o k n p in
          let c : or_default (lookup k counts) ≡ n = rw p refl in absurd (omega arith)
    ]

    later :
        (j : Text)
        → lookup j (insert k (1 + or_default (lookup k counts)) counts) ≡ none
        → lookup j counts ≡ none
    later j h = ground (arith, lookup-insert k j (1 + or_default (lookup k counts)) counts)

check_duplicates-IsDistinct :
    (ks : List Text) (why : List Text → CohortError)
    → check_duplicates ks why ≡ ok tt
    → IsDistinct ks
unfolding check_duplicates
check_duplicates-IsDistinct ks why h =
    (tally-IsDistinct ks [] (unfold Occur lookup in λ k n e. absurd (ground arith))
      (dupes-AtMostOnce (tally ks []) (ground arith))).1

-- The nodes have the names in order, and each is the node of its name.
seat-IsNodeOf :
    (ds : Descriptors) (genesis : Bool) (names : List Text) (nodes : List Node)
    → seat ds genesis names ≡ ok nodes
    → (map (λ (n : Node). n.name) nodes ≡ names) × All (IsNodeOf ds) nodes
unfolding seat
seat-IsNodeOf ds genesis [] nodes h = let e : nodes ≡ [] = ground arith in rw e (refl, tt)
seat-IsNodeOf ds genesis (name ∷ names) nodes h =
    let (d, a, h₁) = >>=-eq-ok (some_or (lookup name ds) (no_such_nodes (name ∷ []))) _ h in
    let (rest, b, h₂) = >>=-eq-ok (seat ds false names) _ h₁ in
    let found = some_or-eq-ok (lookup name ds) (no_such_nodes (name ∷ [])) a in
    let same : nodes
        ≡ record {
          name = name;
          public_ip = d.public_ip;
          fqdn = d.fqdn;
          genesis = genesis;
          bootnodes = [];
        }
          ∷ rest =
      ground arith in
    let (named, each) = seat-IsNodeOf ds false names rest b in
    rw same (ap (λ l. name ∷ l) named, ((found, refl), each))

seat-joiners :
    (ds : Descriptors) (names : List Text) (nodes : List Node)
    → seat ds false names ≡ ok nodes
    → All (λ (n : Node). n.genesis ≡ false) nodes
unfolding seat
seat-joiners ds [] nodes h = let e : nodes ≡ [] = ground arith in rw e tt
seat-joiners ds (name ∷ names) nodes h =
    let (d, a, h₁) = >>=-eq-ok (some_or (lookup name ds) (no_such_nodes (name ∷ []))) _ h in
    let (rest, b, h₂) = >>=-eq-ok (seat ds false names) _ h₁ in
    let same : nodes
        ≡ record {
          name = name;
          public_ip = d.public_ip;
          fqdn = d.fqdn;
          genesis = false;
          bootnodes = [];
        }
          ∷ rest =
      ground arith in
    rw same (refl, seat-joiners ds names rest b)

seat-HasOneGenesis :
    (ds : Descriptors) (name : Text) (names : List Text) (nodes : List Node)
    → seat ds true (name ∷ names) ≡ ok nodes
    → HasOneGenesis nodes
unfolding seat
seat-HasOneGenesis ds name names nodes h =
    let (d, a, h₁) = >>=-eq-ok (some_or (lookup name ds) (no_such_nodes (name ∷ []))) _ h in
    let (rest, b, h₂) = >>=-eq-ok (seat ds false names) _ h₁ in
    let same : nodes
        ≡ record {
          name = name;
          public_ip = d.public_ip;
          fqdn = d.fqdn;
          genesis = true;
          bootnodes = [];
        }
          ∷ rest =
      ground arith in
    rw same (refl, seat-joiners ds names rest b)

-- A cohort that is built starts with the genesis node and has the joiners after it, in the order
-- given: every one given by name, or all others of the map. Only the first node is genesis, each
-- has the address and the domain of its descriptor and no bootnodes, and no two nodes have the same
-- name or the same address.
pub build_cohort-HasOneGenesis :
    (ds : Descriptors) (genesis : Text) (join : Option (List Text)) (nodes : List Node)
    → build_cohort ds genesis join ≡ ok nodes
    → (map (λ (n : Node). n.name) nodes ≡ genesis ∷ joiners_of ds genesis join)
      × HasOneGenesis nodes
      × All (IsNodeOf ds) nodes
      × IsDistinct (map (λ (n : Node). n.name) nodes)
      × IsDistinct (map (λ (n : Node). n.public_ip) nodes)
unfolding build_cohort
build_cohort-HasOneGenesis ds genesis join nodes h =
    let names = genesis ∷ joiners_of ds genesis join in
    let (_, _, h₁) =
      >>=-eq-ok
        (bail_if (not (is_empty (unknown ds names))) (no_such_nodes (keys (unknown ds names)))) _
        h in
    let (ns, a, h₂) = >>=-eq-ok (seat ds true names) _ h₁ in
    let (_, b, h₃) =
      >>=-eq-ok (check_duplicates (map (λ (n : Node). n.name) ns) duplicate_names) _ h₂ in
    let (_, c, h₄) =
      >>=-eq-ok (check_duplicates (map (λ (n : Node). n.public_ip) ns) duplicate_ips) _ h₃ in
    let same : nodes ≡ ns = ground arith in
    let (named, each) = seat-IsNodeOf ds true names ns a in
    rw same (
      named,
      seat-HasOneGenesis ds genesis (joiners_of ds genesis join) ns a,
      each,
      check_duplicates-IsDistinct (map (λ (n : Node). n.name) ns) duplicate_names b,
      check_duplicates-IsDistinct (map (λ (n : Node). n.public_ip) ns) duplicate_ips c,
    )
