-- ===== src/Bootnodes/Laws.antt =====
-- Normalising an enode URL keeps the endpoint and is stable.
use mathlib.Core.List.{append_assoc}
use seismic.Prelude.{
  ℕ, ◌≡◌, ◌≢◌, refl, ◌∙◌, ◌<◌, true, false, not, none, [], ◌∷◌, ◌++◌, arith, ok, >>=-eq-ok, some_or,
  some_or-eq-ok, bail_if, all, is_empty, Bool-cases, inl, inr,
}
use seismic.Prelude.Text.{Text, codes}
use seismic.Prelude.Split.{
  contains, split_once, rsplit_once, strip_prefix, strip_prefix-append, split_once-append,
  split_once-eq-none, rsplit_once-append, contains-append,
}
use seismic.Prelude.Hex.{is_digit, is_hexdigit}
use seismic.Prelude.Decimal.{digits, parse_u16, parse_u16-digits, parse_u16-lt, digits-contains}
use seismic.Bootnodes.{
  Enode, not_an_enode, no_host, bad_id, no_port, bad_port, host_and_port, split_query, is_node_id,
  parse_enode, render_host, render_enode, normalize_enode,
}

-- A host without the bytes that delimit it: brackets and the question mark.
abbrev pub IsPlainHost : Text → Type 0
IsPlainHost h = (contains b'[' h ≡ false) × (contains b']' h ≡ false) × (contains b'?' h ≡ false)

hex_contains-at : (id : Text) → all is_hexdigit id ≡ true → contains b'@' id ≡ false
unfolding contains is_hexdigit
hex_contains-at [] h = refl
hex_contains-at (c ∷ s) h = ground (arith, hex_contains-at s)

colon_not_digit : (is_digit b':' ≡ false) × (is_digit b'?' ≡ false)
unfolding is_digit
colon_not_digit = (refl, refl)

-- Without an opening bracket the split is at the last colon.
bare_host :
    (c : ℕ) (s t : Text)
    → contains b'[' (c ∷ s) ≡ false
    → host_and_port ((c ∷ s) ++ t) ≡ some_or (rsplit_once b':' ((c ∷ s) ++ t)) no_port
unfolding host_and_port strip_prefix contains
bare_host c s t h = ground arith

host_and_port-render :
    (host : Text) (port : ℕ)
    → IsPlainHost host
    → host ≢ []
    → host_and_port (render_host host ++ b':' ∷ digits port) ≡ ok (host, digits port)
unfolding host_and_port render_host strip_prefix
host_and_port-render [] port p n = absurd (n refl)
host_and_port-render (c ∷ s) port p n = elim (Bool-cases (contains b':' (c ∷ s))) [
  | inl colon ↦ rw colon (
      rw (append_assoc (c ∷ s) (b']' ∷ []) (b':' ∷ digits port))
        (rw (split_once-append b']' (c ∷ s) (b':' ∷ digits port) p.1) refl))
  | inr plain ↦ rw plain (
      bare_host c s (b':' ∷ digits port) p.0
      ∙ rw
          (rsplit_once-append b':' (c ∷ s) (digits port)
            (digits-contains port b':' colon_not_digit.0))
          refl)
]

render-no_query :
    (host : Text) (port : ℕ)
    → contains b'?' host ≡ false
    → contains b'?' (render_host host ++ b':' ∷ digits port) ≡ false
unfolding render_host
render-no_query host port h =
    contains-append b'?' (render_host host) (b':' ∷ digits port)
    ∙ elim (Bool-cases (contains b':' host)) [
      | inl colon ↦
          rw (colon, render_host)
            (unfold contains in
              ground (
                arith,
                contains-append b'?' host (b']' ∷ []),
                digits-contains port b'?' colon_not_digit.1,
              ))
      | inr plain ↦
          rw (plain, render_host)
            (unfold contains in ground (arith, digits-contains port b'?' colon_not_digit.1))
    ]

-- What parsing an enode establishes of its pieces.
parse_enode-parts :
    (enode : Text) (p : Enode)
    → parse_enode enode ≡ ok p
    → (is_node_id p.id ≡ true) × (p.host ≢ []) × (p.port < 65536)
unfolding parse_enode
parse_enode-parts enode p h =
    let (rest, a, h₁) =
      >>=-eq-ok (some_or (strip_prefix (codes "enode://") enode) not_an_enode) _ h in
    let (parts, b, h₂) = >>=-eq-ok (some_or (split_once b'@' rest) no_host) _ h₁ in
    let (_, c, h₃) = >>=-eq-ok (bail_if (not (is_node_id parts.0)) bad_id) _ h₂ in
    let (hp, d, h₄) = >>=-eq-ok (host_and_port (split_query parts.1).0) _ h₃ in
    let (_, e, h₅) = >>=-eq-ok (bail_if (is_empty hp.0) no_host) _ h₄ in
    let (port, f, h₆) = >>=-eq-ok (some_or (parse_u16 hp.1) bad_port) _ h₅ in
    (
      ground arith,
      ground arith,
      ground (arith, parse_u16-lt hp.1 port (some_or-eq-ok (parse_u16 hp.1) _ f)),
    )

parse-render :
    (id host : Text) (port : ℕ)
    → is_node_id id ≡ true
    → host ≢ []
    → port < 65536
    → IsPlainHost host
    → parse_enode (render_enode id host port)
      ≡ ok (record { id = id; host = host; port = port; query = none })
unfolding parse_enode render_enode
parse-render id host port n h b p =
    let clear : contains b'@' id ≡ false = hex_contains-at id (unfold is_node_id in ground arith) in
    rw
      (strip_prefix-append (codes "enode://")
        (id ++ b'@' ∷ (render_host host ++ b':' ∷ digits port)))
      (rw (split_once-append b'@' id (render_host host ++ b':' ∷ digits port) clear) (
        rw n (
          rw
            (
              split_once-eq-none b'?' (render_host host ++ b':' ∷ digits port)
                  (render-no_query host port p.2),
              split_query,
            )
            (rw (host_and_port-render host port p h)
              (rw (is_empty-eq-false host h) (rw (parse_u16-digits port b) refl))))))
  where
    is_empty-eq-false : (l : Text) → l ≢ [] → is_empty l ≡ false
    is_empty-eq-false [] k = absurd (k refl)
    is_empty-eq-false (x ∷ l) k = refl

-- An enode that parses, with a host free of brackets and question marks, normalises to a text that
-- parses to the same node id, host and port with no query; normalising that text changes nothing.
pub normalize_enode_stable :
    (enode : Text) (p : Enode)
    → parse_enode enode ≡ ok p
    → IsPlainHost p.host
    → (normalize_enode enode ≡ ok (render_enode p.id p.host p.port))
      × (parse_enode (render_enode p.id p.host p.port) ≡ ok (record p { query = none }))
      × (normalize_enode (render_enode p.id p.host p.port) ≡ ok (render_enode p.id p.host p.port))
unfolding normalize_enode
normalize_enode_stable enode p e plain =
    let (i, h, b) = parse_enode-parts enode p e in
    let again = parse-render p.id p.host p.port i h b plain in (rw e refl, again, rw again refl)
