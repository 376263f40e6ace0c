-- ===== src/Gates/Laws.antt =====
-- What the gate of the registry account accepts.
use seismic.Prelude.{
  ◌≡◌, ◌≢◌, refl, sym, ap, ap₂, ◌∙◌, inl, inr, true, false, not, Option, some, [], ◌∷◌, arith, ok,
  bail_if, >>=-eq-ok, bail_if-eq-ok, Bool-cases, All, is_empty, if◌then◌else◌,
}
use seismic.Prelude.Text.{Text, codes, text_eq, text_eq_iff, text_eq_refl}
use seismic.Prelude.Map.{Map, insert, lookup, contains_key, lookup-insert, insert-All}
use seismic.Json
use seismic.Json.{Json, Fields, end, field, fields}
use seismic.Audit.Laws.{Some}
use seismic.Gates.{
  slot_twice, wrong_code, empty_storage, CompileReport, words_eq, normalize_word, read_storage,
  storage_of, code_of, validate_registry_account,
}

pub words_eq-eq : (m n : Map Text) → words_eq m n ≡ true → m ≡ n
unfolding words_eq
words_eq-eq [] [] h = refl
words_eq-eq [] (e ∷ n) h = absurd (ground arith)
words_eq-eq (e ∷ m) [] h = absurd (ground arith)
words_eq-eq ((k, v) ∷ m) ((j, w) ∷ n) h =
    let p : k ≡ j = (text_eq_iff k j).0 (ground arith) in
    let q : v ≡ w = (text_eq_iff v w).0 (ground arith) in
    ap₂ (λ e l. e ∷ l) (ap₂ (λ a b. (a, b)) p q) (words_eq-eq m n (ground arith))

pub words_eq_refl : (m : Map Text) → words_eq m m ≡ true
unfolding words_eq
words_eq_refl [] = refl
words_eq_refl ((k, v) ∷ m) = ground (arith, text_eq_refl k, text_eq_refl v, words_eq_refl m)

nonempty : (m : Map Text) {u : Unit {0}} → bail_if (is_empty m) empty_storage ≡ ok u → m ≢ []
nonempty [] h none_left = absurd (ground arith)
nonempty (e ∷ m) h none_left = absurd (ground arith)

module _ (word_of : Text → Option Text) where
  -- An entry of the account's storage spells a slot and its word.
  abbrev pub Spells : Text × Json → Text × Text → Type 0
  Spells f e =
      (normalize_word word_of (Json.string f.0) ≡ ok e.0) × (normalize_word word_of f.1 ≡ ok e.1)

  -- An entry's slot holds its word in a map.
  abbrev pub IsHeld : Map Text → Text × Json → Type 0
  IsHeld m f = (slot : Text) × (word : Text) × Spells f (slot, word) × (lookup slot m ≡ some word)

  insert_keeps :
      (slot word probe held : Text) (m : Map Text)
      → contains_key slot m ≡ false
      → lookup probe m ≡ some held
      → lookup probe (insert slot word m) ≡ some held
  insert_keeps slot word probe held m fresh found = elim (Bool-cases (text_eq slot probe)) [
    | inl same ↦
        let e = (text_eq_iff slot probe).0 same in
        let clash : lookup slot m ≡ some held = ap (λ k. lookup k m) e ∙ found in
        absurd (ground arith)
    | inr other ↦
        lookup-insert slot probe word m
        ∙ (ap (λ b. if b then some word else lookup probe m) other ∙ found)
  ]

  -- What is held stays held as the rest is read.
  read_storage-keeps :
      (fs : Fields) (m actual : Map Text) (probe held : Text)
      → read_storage word_of fs m ≡ ok actual
      → lookup probe m ≡ some held
      → lookup probe actual ≡ some held
  unfolding read_storage
  read_storage-keeps end m actual probe held h found =
      let same : m ≡ actual = ground arith in ap (lookup probe) (sym same) ∙ found
  read_storage-keeps (field name v fs) m actual probe held h found =
      let (slot, e₁, h₁) = >>=-eq-ok (normalize_word word_of (Json.string name)) _ h in
      let (word, e₂, h₂) = >>=-eq-ok (normalize_word word_of v) _ h₁ in
      let (u, e₃, h₃) = >>=-eq-ok (bail_if (contains_key slot m) slot_twice) _ h₂ in
      let fresh : contains_key slot m ≡ false = ground arith in
      read_storage-keeps fs (insert slot word m) actual probe held h₃
        (insert_keeps slot word probe held m fresh found)

  -- Every entry that is read is held.
  pub read_storage-IsHeld :
      (fs : Fields) (m actual : Map Text)
      → read_storage word_of fs m ≡ ok actual
      → All (IsHeld actual) (fields fs)
  unfolding read_storage
  read_storage-IsHeld end m actual h = tt
  read_storage-IsHeld (field name v fs) m actual h =
      let (slot, e₁, h₁) = >>=-eq-ok (normalize_word word_of (Json.string name)) _ h in
      let (word, e₂, h₂) = >>=-eq-ok (normalize_word word_of v) _ h₁ in
      let (u, e₃, h₃) = >>=-eq-ok (bail_if (contains_key slot m) slot_twice) _ h₂ in
      (
        (
          slot,
          word,
          (e₁, e₂),
          read_storage-keeps fs (insert slot word m) actual slot word h₃ (
              lookup-insert slot slot word m
              ∙ ap (λ b. if b then some word else lookup slot m) (text_eq_refl slot)),
        ),
        read_storage-IsHeld fs (insert slot word m) actual h₃,
      )

  -- Whatever is in the map was there before or is spelled by an entry.
  pub read_storage-Spelled :
      (fs : Fields) (m actual : Map Text) (P : Text × Text → Type 0)
      → ((e : Text × Text) → Some (λ f. Spells f e) (fields fs) → P e)
      → All P m
      → read_storage word_of fs m ≡ ok actual
      → All P actual
  unfolding read_storage
  read_storage-Spelled end m actual P spelled a h =
      let same : m ≡ actual = ground arith in rw (← same) a
  read_storage-Spelled (field name v fs) m actual P spelled a h =
      let (slot, e₁, h₁) = >>=-eq-ok (normalize_word word_of (Json.string name)) _ h in
      let (word, e₂, h₂) = >>=-eq-ok (normalize_word word_of v) _ h₁ in
      let (u, e₃, h₃) = >>=-eq-ok (bail_if (contains_key slot m) slot_twice) _ h₂ in
      read_storage-Spelled fs (insert slot word m) actual P (λ e later. spelled e (inr later))
        (insert-All P slot word m (spelled (slot, word) (inl (e₁, e₂))) a) h₃

  module _ (decode : Text → Option Text) (keccak256 : Text → Text) where
    -- The account holds the canonical runtime, and exactly the compiled storage, which is not empty.
    pub record IsSeeded (account : Json) (report : CompileReport) : Type 0 where
      pub code : Text
      pub storage : Fields
      pub coded : code_of word_of decode keccak256 account ≡ ok code
      pub canonical : keccak256 code ≡ report.registry_runtime_code_hash
      pub stored : storage_of word_of (Json.get (codes "storage") account) ≡ ok storage
      pub expected : All (IsHeld report.registry_genesis_storage) (fields storage)
      pub complete :
          All (λ e. Some (λ f. Spells f e) (fields storage)) report.registry_genesis_storage
      pub seeded : report.registry_genesis_storage ≢ []

    pub validate_registry_account-IsSeeded :
        (account : Json) (report : CompileReport)
        → validate_registry_account word_of decode keccak256 account report ≡ ok tt
        → IsSeeded account report
    unfolding validate_registry_account
    validate_registry_account-IsSeeded account report h =
        let (code, e₁, h₁) = >>=-eq-ok (code_of word_of decode keccak256 account) _ h in
        let hash = report.registry_runtime_code_hash in
        let (u₂, e₂, h₂) =
          >>=-eq-ok (bail_if (not (text_eq (keccak256 code) hash)) (wrong_code (keccak256 code))) _
            h₁ in
        let (fs, e₃, h₃) =
          >>=-eq-ok (storage_of word_of (Json.get (codes "storage") account)) _ h₂ in
        let (actual, e₄, h₄) = >>=-eq-ok (read_storage word_of fs []) _ h₃ in
        let (u₅, e₅, h₅) = >>=-eq-ok (bail_if (is_empty actual) empty_storage) _ h₄ in
        let same =
          words_eq-eq actual report.registry_genesis_storage
            (bail_if-eq-ok (words_eq actual report.registry_genesis_storage) _ h₅) in
        record {
          code = code;
          storage = fs;
          coded = e₁;
          canonical =
              (text_eq_iff (keccak256 code) hash).0
                (bail_if-eq-ok (text_eq (keccak256 code) hash) _ e₂);
          stored = e₃;
          expected = rw (← same) (read_storage-IsHeld fs [] actual e₄);
          complete = rw (← same) (
              read_storage-Spelled fs [] actual (λ e. Some (λ f. Spells f e) (fields fs)) (λ e s. s)
                tt e₄);
          seeded = λ none_expected.
              let empty : actual ≡ [] = same ∙ none_expected in nonempty actual e₅ empty;
        }
