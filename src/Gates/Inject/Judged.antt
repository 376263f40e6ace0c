-- ===== src/Gates/Inject/Judged.antt =====
-- The gate accepts what the injection wrote.
use seismic.Prelude.{
  ◌≡◌, All, Result, ◌>>=◌, ◌>>◌, refl, ap, ◌∙◌, false, not, Option, some, [], ok, bail_if,
  >>=_of_ok, >>=-drop, is_empty, if◌then◌else◌,
}
use seismic.Prelude.Text.{Text, codes, text_eq, text_eq_refl}
use seismic.Prelude.Map.{Map, IsSorted}
use seismic.Json
use seismic.Json.{Json, Fields, end, field, get_field, as_object}
use seismic.Gates.{
  GateFailure, CompileReport, read_storage, storage_of, code_of, validate_registry_account,
  empty_storage, wrong_storage, wrong_code, words_eq,
}
use seismic.Gates.Laws.{words_eq_refl}
use seismic.Gates.Inject.Readback.{IsSpelled, above_none, read-storage_fields}
use seismic.Gates.Inject.{set_field, storage_fields, inject}
use seismic.Gates.Inject.Laws.{IsInjected, inject-sets, get_field-set_field}

module _ (encode to_lowercase : Text → Text) (word_of : Text → Option Text) where
  -- Each slot and each word of the compiled storage reads back from its hexadecimal.
  abbrev AllSpelled : CompileReport → Type 0
  AllSpelled report =
      All
        (λ e. IsSpelled encode to_lowercase word_of e.0 × IsSpelled encode to_lowercase word_of e.1)
        report.registry_genesis_storage

  module _ (decode : Text → Option Text) (keccak256 : Text → Text) where
    -- The gate's check of the code alone.
    abbrev pub check_code : Json → CompileReport → Result GateFailure Unit
    check_code account report = code_of word_of decode keccak256 account >>= λ code.
        bail_if (not (text_eq (keccak256 code) report.registry_runtime_code_hash))
          (wrong_code (keccak256 code))

    set_other :
        (k probe : Text) (v : Json) (fs : Fields)
        → text_eq k probe ≡ false
        → get_field probe (set_field k v fs) ≡ get_field probe fs
    set_other k probe v fs other =
        get_field-set_field k probe v fs ∙ ap (λ b. if b then some v else get_field probe fs) other

    code-set_field :
        (account : Fields) (v : Json)
        → code_of word_of decode keccak256 (Json.object (set_field (codes "storage") v account))
          ≡ code_of word_of decode keccak256 (Json.object account)
    unfolding code_of text_eq
    code-set_field account v = rw (set_other (codes "storage") (codes "code") v account refl) refl

    abbrev check_read : CompileReport → Map Text → Result GateFailure Unit
    check_read report actual =
        bail_if (is_empty actual) empty_storage
        >> bail_if (not (words_eq actual report.registry_genesis_storage)) wrong_storage

    abbrev check_fields : CompileReport → Fields → Result GateFailure Unit
    check_fields report raw = read_storage word_of raw [] >>= check_read report

    -- The gate's check of the storage alone.
    abbrev check_storage : Json → CompileReport → Result GateFailure Unit
    check_storage account report =
        storage_of word_of (Json.get (codes "storage") account) >>= check_fields report

    storage_passes :
        (account : Json) (report : CompileReport)
        → Json.get (codes "storage") account
          ≡ some (Json.object (storage_fields encode to_lowercase report.registry_genesis_storage))
        → AllSpelled report
        → IsSorted report.registry_genesis_storage
        → is_empty report.registry_genesis_storage ≡ false
        → check_storage account report ≡ ok tt
    unfolding storage_of
    storage_passes account report placed spelled sorted filled =
        let m = report.registry_genesis_storage in
        let fields = storage_fields encode to_lowercase m in
        let last : check_read report m ≡ ok tt =
          >>=_of_ok (bail_if (is_empty m) empty_storage)
            (λ u. bail_if (not (words_eq m m)) wrong_storage)
            (ap (λ b. bail_if b empty_storage) filled)
            (ap (λ b. bail_if (not b) wrong_storage) (words_eq_refl m)) in
        let read : check_fields report fields ≡ ok tt =
          >>=_of_ok (read_storage word_of fields []) (check_read report)
            (read-storage_fields encode to_lowercase word_of m [] spelled sorted (above_none m))
            last in
        >>=_of_ok (storage_of word_of (Json.get (codes "storage") account)) (check_fields report)
          (ap (storage_of word_of) placed) read

    drop_storage :
        (account : Json) (report : CompileReport)
        → check_storage account report ≡ ok tt
        → validate_registry_account word_of decode keccak256 account report
          ≡ check_code account report
    unfolding validate_registry_account
    drop_storage account report passes =
        >>=-drop (code_of word_of decode keccak256 account)
          (λ code.
            bail_if (not (text_eq (keccak256 code) report.registry_runtime_code_hash))
              (wrong_code (keccak256 code)))
          (check_storage account report) passes

    injected_judged :
        (account : Fields) (report : CompileReport)
        → AllSpelled report
        → IsSorted report.registry_genesis_storage
        → is_empty report.registry_genesis_storage ≡ false
        → validate_registry_account word_of decode keccak256
            (Json.object (
              set_field
                (codes "storage")
                (Json.object (storage_fields encode to_lowercase report.registry_genesis_storage))
                account))
            report
          ≡ check_code (Json.object account) report
    injected_judged account report spelled sorted filled =
        let storage =
          Json.object (storage_fields encode to_lowercase report.registry_genesis_storage) in
        let after = Json.object (set_field (codes "storage") storage account) in
        let placed : Json.get (codes "storage") after ≡ some storage =
          get_field-set_field (codes "storage") (codes "storage") storage account
          ∙ ap (λ b. if b then some storage else get_field (codes "storage") account)
              (text_eq_refl (codes "storage")) in
        drop_storage after report (storage_passes after report placed spelled sorted filled)
        ∙ ap
            (λ r. r >>= λ code.
              bail_if (not (text_eq (keccak256 code) report.registry_runtime_code_hash))
                (wrong_code (keccak256 code)))
            (code-set_field account storage)

    -- When the slots and the words of the compiled storage, which is in order, read back from their
    -- hexadecimal: the injection changes the storage of the one account that spells the registry and
    -- nothing else, and the gate then judges this account by its code alone.
    pub inject-IsInjected :
        (genesis : Fields) (registry : Text) (report : CompileReport) (genesis' : Fields)
        → AllSpelled report
        → IsSorted report.registry_genesis_storage
        → inject encode to_lowercase genesis registry report ≡ ok genesis'
        → (i : IsInjected encode to_lowercase genesis registry report genesis')
          × (validate_registry_account word_of decode keccak256 (Json.object i.account') report
              ≡ check_code (Json.object i.account) report)
    inject-IsInjected genesis registry report genesis' spelled sorted h =
        let (i, made, filled) =
          inject-sets encode to_lowercase genesis registry report genesis' h in
        (
          i,
          ap (λ x. validate_registry_account word_of decode keccak256 (Json.object x) report) made
              ∙ injected_judged i.account report spelled sorted filled,
        )
