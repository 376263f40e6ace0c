-- ===== src/Audit/Laws.antt =====
-- What the comparison of the archive with the pinned set, and the replay of the archive, accept.
use mathlib.Core.Path.{subst}
use seismic.Prelude.{
  ◌≡◌, refl, sym, ap, ap₂, ◌∙◌, inl, inr, ◌⊎◌, Bool, true, not, Option, none, some, List, [], ◌∷◌,
  arith, ok, bail_if, >>=-eq-ok, bail_if-eq-ok, Bool-cases, Option-cases, All, All-imp, is_empty,
  any, if◌then◌else◌,
}
use seismic.Prelude.Text.{Text, text_eq_iff}
use seismic.Prelude.Map.{lookup}
use seismic.Json.{Json}
use seismic.Founding.{FoundingRecord, FoundingRecords}
use seismic.Manifest.{}
use seismic.Audit.{
  ValidatorKeys, unverified, unpinned_records, keys_of, keys_eq, has_keys, unpinned, vouched,
  unvouched, check_records_are_the_pinned_set, verify_records, narrow,
}

-- A property of some element.
abbrev pub Some {ℓ} : {A : Type ℓ} → (A → Type 0) → List A → Type 0
Some P [] = ⊥
Some P (x ∷ xs) = P x ⊎ Some P xs

any-Some : {A : Type 0} (p : A → Bool) (xs : List A) → any p xs ≡ true → Some (λ x. p x ≡ true) xs
any-Some p [] h = absurd (ground arith)
any-Some p (x ∷ xs) h = elim (Bool-cases (p x)) [
  | inl here ↦ inl here
  | inr there ↦ inr (any-Some p xs (ground arith))
]

pub Some-imp :
    {A : Type 0} (P Q : A → Type 0) → ((x : A) → P x → Q x) → (xs : List A) → Some P xs → Some Q xs
Some-imp P Q f [] h = absurd h
Some-imp P Q f (x ∷ xs) (inl here) = inl (f x here)
Some-imp P Q f (x ∷ xs) (inr there) = inr (Some-imp P Q f xs there)

keys_eq-eq : (a b : ValidatorKeys) → keys_eq a b ≡ true → a ≡ b
keys_eq-eq a b h =
    ap₂ (λ x y. (x, y)) ((text_eq_iff a.0 b.0).0 (ground arith))
      ((text_eq_iff a.1 b.1).0 (ground arith))

has_keys-Some :
    (k : ValidatorKeys) (pinned : List ValidatorKeys)
    → has_keys k pinned ≡ true
    → Some (λ s. k ≡ s) pinned
has_keys-Some k pinned h =
    Some-imp _ _ (λ s e. keys_eq-eq k s e) pinned (any-Some (keys_eq k) pinned h)

-- Every record is seated.
abbrev pub AllSeated : FoundingRecords → List ValidatorKeys → Type 0
AllSeated records pinned = All (λ e. Some (λ s. keys_of e.1 ≡ s) pinned) records

-- Every seat is of some record.
abbrev pub AllVouched : FoundingRecords → List ValidatorKeys → Type 0
AllVouched records pinned = All (λ k. Some (λ e. keys_of e.1 ≡ k) records) pinned

is_empty-eq : {A : Type 0} (xs : List A) → is_empty xs ≡ true → xs ≡ []
is_empty-eq [] h = refl
is_empty-eq (x ∷ xs) h = absurd (ground arith)

unpinned-AllSeated :
    (records : FoundingRecords) (pinned : List ValidatorKeys)
    → unpinned records pinned ≡ []
    → AllSeated records pinned
unfolding unpinned
unpinned-AllSeated [] pinned h = tt
unpinned-AllSeated ((name, r) ∷ m) pinned h = elim (Bool-cases (has_keys (keys_of r) pinned)) [
  | inl seated ↦ (
    has_keys-Some (keys_of r) pinned seated,
    unpinned-AllSeated m pinned
        (ap (λ b. if b then unpinned m pinned else name ∷ unpinned m pinned) (sym seated) ∙ h),
  )
  | inr astray ↦
      let e =
        ap (λ b. if b then unpinned m pinned else name ∷ unpinned m pinned) (sym astray) ∙ h in
      absurd (ground arith)
]

vouched-Some :
    (records : FoundingRecords) (pinned : List ValidatorKeys) (k : ValidatorKeys)
    → Some (λ s. k ≡ s) (vouched records pinned)
    → Some (λ e. keys_of e.1 ≡ k) records
unfolding vouched
vouched-Some [] pinned k h = absurd h
vouched-Some ((name, r) ∷ m) pinned k h = elim (Bool-cases (has_keys (keys_of r) pinned)) [
  | inl seated ↦
      elim (subst
        (λ b. Some (λ s. k ≡ s) (if b then keys_of r ∷ vouched m pinned else vouched m pinned))
        seated h) [ inl here ↦ inl (sym here) | inr there ↦ inr (vouched-Some m pinned k there) ]
  | inr astray ↦ inr (
      vouched-Some m pinned k (
        subst
          (λ b. Some (λ s. k ≡ s) (if b then keys_of r ∷ vouched m pinned else vouched m pinned))
          astray h))
]

unvouched-All :
    (pinned by : List ValidatorKeys)
    → unvouched pinned by ≡ []
    → All (λ k. Some (λ s. k ≡ s) by) pinned
unfolding unvouched
unvouched-All [] by h = tt
unvouched-All (k ∷ pinned) by h = elim (Bool-cases (has_keys k by)) [
  | inl held ↦ (
    has_keys-Some k by held,
    unvouched-All pinned by
        (ap (λ b. if b then unvouched pinned by else k ∷ unvouched pinned by) (sym held) ∙ h),
  )
  | inr astray ↦
      let e =
        ap (λ b. if b then unvouched pinned by else k ∷ unvouched pinned by) (sym astray) ∙ h in
      absurd (ground arith)
]

-- What the comparison of the archive with the pinned set accepts.
pub check_records-Seated :
    (records : FoundingRecords) (pinned : List ValidatorKeys) (partial : Bool)
    → check_records_are_the_pinned_set records pinned partial ≡ ok tt
    → AllSeated records pinned × ((partial ≡ true) ⊎ AllVouched records pinned)
unfolding check_records_are_the_pinned_set
check_records-Seated records pinned partial h =
    let (u, e₁, h₁) =
      >>=-eq-ok
        (bail_if (not (is_empty (unpinned records pinned)))
          (unpinned_records (unpinned records pinned)))
        _ h in
    let seated =
      unpinned-AllSeated records pinned
        (is_empty-eq _ (bail_if-eq-ok (is_empty (unpinned records pinned)) _ e₁)) in
    elim (Bool-cases partial) [
      | inl part ↦ (seated, inl part)
      | inr whole ↦
          let none_left : is_empty (unvouched pinned (vouched records pinned)) ≡ true =
            ground arith in
          (
            seated,
            inr (
                All-imp _ _ (λ k held. vouched-Some records pinned k held) pinned
                  (unvouched-All pinned (vouched records pinned) (is_empty-eq _ none_left))),
          )
    ]

pub verify_records-All :
    {Policy : Type 0} (replay : Policy → Json → Bool) (policy : Policy) (records : FoundingRecords)
    → verify_records replay policy records ≡ ok tt
    → All (λ e. replay policy e.1.document ≡ true) records
unfolding verify_records
verify_records-All replay policy [] h = tt
verify_records-All replay policy ((name, r) ∷ m) h =
    let (u, e, h₁) = >>=-eq-ok (bail_if (not (replay policy r.document)) (unverified name)) _ h in
    (bail_if-eq-ok (replay policy r.document) _ e, verify_records-All replay policy m h₁)

-- The records that `--record` leaves: all of them, or the one of the name.
abbrev pub IsNarrowed : FoundingRecords → Option Text → FoundingRecords → Type 0
IsNarrowed records none archived = archived ≡ records
IsNarrowed records (some name) archived =
    (one : FoundingRecord) × (lookup name records ≡ some one) × (archived ≡ (name, one) ∷ [])

pub narrow-IsNarrowed :
    (records : FoundingRecords) (name : Option Text) (archived : FoundingRecords)
    → narrow records name ≡ ok archived
    → IsNarrowed records name archived
unfolding narrow
narrow-IsNarrowed records none archived h = ground arith
narrow-IsNarrowed records (some name) archived h = elim (Option-cases (lookup name records)) [
  | inl missing ↦ absurd (ground arith)
  | inr (one, found) ↦ (one, found, ground arith)
]
