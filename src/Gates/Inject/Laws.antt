-- ===== src/Gates/Inject/Laws.antt =====
-- What the injection changes.
use seismic.Prelude.{
  ◌≡◌, ◌≢◌, ◌⊎◌, inl, inr, List, ◌∷◌, ◌++◌, All, All-imp, Bool-cases, refl, sym, ap, ◌∙◌, false,
  some, [], arith, ok, bail_if, some_or, >>=-eq-ok, some_or-eq-ok, is_empty, if◌then◌else◌,
}
use seismic.Prelude.Text.{Text, codes, text_eq, text_eq_iff, text_eq_refl}
use seismic.Json.{Json, Fields, end, field, fields, get_field}
use seismic.Gates.{no_compiled_storage, no_alloc, not_an_object, CompileReport}
use seismic.Gates.Run.{hex_0x}
use seismic.Gates.Inject.{set_field, object_at, spellings, only_spelling, storage_fields, inject}

pub get_field-set_field :
    (k probe : Text) (v : Json) (fs : Fields)
    → get_field probe (set_field k v fs) ≡ (if text_eq k probe then some v else get_field probe fs)
unfolding get_field set_field
get_field-set_field k probe v end = refl
get_field-set_field k probe v (field j w fs) = ground (
  arith,
  text_eq_iff k probe,
  text_eq_iff j k,
  text_eq_iff j probe,
  get_field-set_field k probe v fs,
)

set_here : (k : Text) (v fs : Fields) → object_at k (set_field k (Json.object v) fs) ≡ some v
unfolding object_at
set_here k v fs = rw (object_at, get_field-set_field k k (Json.object v) fs, text_eq_refl k) refl

module _ (encode to_lowercase : Text → Text) where
  -- The document with the registry's storage replaced: the account under `key`, the only key of `alloc`
  -- that spells the registry, the rest of the account and every other entry as they were.
  pub record IsInjected (genesis : Fields) (registry : Text) (report : CompileReport)
      (genesis' : Fields) : Type 0 where
    pub key : Text
    pub alloc : Fields
    pub alloc' : Fields
    pub account : Fields
    pub account' : Fields
    pub spelled : to_lowercase key ≡ codes "0x" ++ encode registry
    pub only :
        All (λ e. (to_lowercase e.0 ≢ codes "0x" ++ encode registry) ⊎ (e.0 ≡ key)) (fields alloc)
    pub alloc_before : object_at (codes "alloc") genesis ≡ some alloc
    pub account_before : object_at key alloc ≡ some account
    pub alloc_after : object_at (codes "alloc") genesis' ≡ some alloc'
    pub account_after : object_at key alloc' ≡ some account'
    pub alloc_set :
        (probe : Text)
        → get_field probe genesis' ≡ (
            if text_eq (codes "alloc") probe
            then some (Json.object alloc')
            else get_field probe genesis)
    pub account_set :
        (probe : Text)
        → get_field probe alloc'
          ≡ (if text_eq key probe then some (Json.object account') else get_field probe alloc)
    pub storage_set :
        (probe : Text)
        → get_field probe account' ≡ (
            if text_eq (codes "storage") probe
            then some
                (Json.object (storage_fields encode to_lowercase report.registry_genesis_storage))
            else get_field probe account)

  spellings-nil :
      (wanted : Text) (fs : Fields)
      → spellings encode to_lowercase wanted fs ≡ []
      → All (λ e. to_lowercase e.0 ≢ wanted) (fields fs)
  unfolding spellings
  spellings-nil wanted end h = tt
  spellings-nil wanted (field address v fs) h =
      elim (Bool-cases (text_eq (to_lowercase address) wanted)) [
        | inl same ↦ absurd (ground arith)
        | inr other ↦ (
          λ same. absurd (ground (arith, (text_eq_iff (to_lowercase address) wanted).1 same)),
          spellings-nil wanted fs (ground arith),
        )
      ]

  -- The only spelling is one, and no other key is.
  spellings-only :
      (wanted key : Text) (fs : Fields)
      → spellings encode to_lowercase wanted fs ≡ key ∷ []
      → (to_lowercase key ≡ wanted)
        × All (λ e. (to_lowercase e.0 ≢ wanted) ⊎ (e.0 ≡ key)) (fields fs)
  unfolding spellings
  spellings-only wanted key end h = absurd (ground arith)
  spellings-only wanted key (field address v fs) h =
      elim (Bool-cases (text_eq (to_lowercase address) wanted)) [
        | inl same ↦
            let is_key : address ≡ key = ground arith in
            let none_later : spellings encode to_lowercase wanted fs ≡ [] = ground arith in
            (
              ap to_lowercase (sym is_key) ∙ (text_eq_iff (to_lowercase address) wanted).0 same,
              (
                inr is_key,
                All-imp _ _ (λ e h. inl h) (fields fs) (spellings-nil wanted fs none_later),
              ),
            )
        | inr other ↦
            let (spelled, others) = spellings-only wanted key fs (ground arith) in
            (
              spelled,
              (
                inl (λ same.
                    absurd (ground (arith, (text_eq_iff (to_lowercase address) wanted).1 same))),
                others,
              ),
            )
      ]

  only_spelling-eq-ok :
      (wanted key : Text) (keys : List Text)
      → only_spelling encode to_lowercase wanted keys ≡ ok key
      → keys ≡ key ∷ []
  unfolding only_spelling
  only_spelling-eq-ok wanted key [] h = absurd (ground arith)
  only_spelling-eq-ok wanted key (k ∷ []) h = ground arith
  only_spelling-eq-ok wanted key (k ∷ j ∷ keys) h = absurd (ground arith)

  -- What an injection that succeeds makes, and that the storage it sets is not empty.
  pub inject-sets :
      (genesis : Fields) (registry : Text) (report : CompileReport) (genesis' : Fields)
      → inject encode to_lowercase genesis registry report ≡ ok genesis'
      → (i : IsInjected genesis registry report genesis') × (i.account'
          ≡ set_field
              (codes "storage")
              (Json.object (storage_fields encode to_lowercase report.registry_genesis_storage))
              i.account)
        × (is_empty report.registry_genesis_storage ≡ false)
  unfolding inject hex_0x
  inject-sets genesis registry report genesis' h =
      let m = report.registry_genesis_storage in
      let storage = Json.object (storage_fields encode to_lowercase m) in
      let (u, e₁, h₁) = >>=-eq-ok (bail_if (is_empty m) no_compiled_storage) _ h in
      let (alloc, e₂, h₂) = >>=-eq-ok (some_or (object_at (codes "alloc") genesis) no_alloc) _ h₁ in
      let wanted = hex_0x encode registry in
      let (key, e₃, h₃) =
        >>=-eq-ok
          (only_spelling encode to_lowercase wanted (spellings encode to_lowercase wanted alloc)) _
          h₂ in
      let (account, e₄, h₄) = >>=-eq-ok (some_or (object_at key alloc) (not_an_object key)) _ h₃ in
      let (spelled, only) =
        spellings-only wanted key alloc
          (only_spelling-eq-ok wanted key (spellings encode to_lowercase wanted alloc) e₃) in
      let account' = set_field (codes "storage") storage account in
      let alloc' = set_field key (Json.object account') alloc in
      let same : set_field (codes "alloc") (Json.object alloc') genesis ≡ genesis' = ground arith in
      (
        record {
          key = key;
          alloc = alloc;
          alloc' = alloc';
          account = account;
          account' = account';
          spelled = spelled;
          only = only;
          alloc_before = some_or-eq-ok (object_at (codes "alloc") genesis) no_alloc e₂;
          account_before = some_or-eq-ok (object_at key alloc) (not_an_object key) e₄;
          alloc_after =
              ap (object_at (codes "alloc")) (sym same) ∙ set_here (codes "alloc") alloc' genesis;
          account_after = set_here key account' alloc;
          alloc_set = λ probe.
              ap (get_field probe) (sym same)
              ∙ get_field-set_field (codes "alloc") probe (Json.object alloc') genesis;
          account_set = λ probe. get_field-set_field key probe (Json.object account') alloc;
          storage_set = λ probe. get_field-set_field (codes "storage") probe storage account;
        },
        refl,
        ground arith,
      )
