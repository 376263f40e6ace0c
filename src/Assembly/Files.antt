-- ===== src/Assembly/Files.antt =====
-- The artifact set on the disk.
use seismic.Prelude.{
  ◌≡◌, ◌≢◌, refl, sym, ap, ◌∙◌, inl, inr, ◌⊎◌, Bool, true, false, not, ◌&&◌, some, List, [], ◌∷◌,
  arith, ok, err, Bool-cases, All, if◌then◌else◌,
}
use seismic.Prelude.Text.{Text, codes, text_eq, text_eq_iff, text_eq_refl}
use seismic.Prelude.Map.{Map, insert, lookup, contains_key, lookup-insert}
use seismic.Paths
use seismic.Paths.{NetworkDir, join, is_absolute}
use seismic.Paths.Laws.{join_inj}
use seismic.Assembly.{
  manifest_exists, not_written, Assembled, artifact_files, write_all, write_artifact_set, wrong_of,
  check_artifact_set,
}

-- The path is none of the files'.
abbrev Avoids : Text → List (Text × Text) → Type 0
Avoids path files = All (λ f. f.0 ≢ path) files

-- No two of the files have the same path.
abbrev HasDistinctPaths : List (Text × Text) → Type 0
HasDistinctPaths [] = Unit {0}
HasDistinctPaths ((path, bytes) ∷ files) = Avoids path files × HasDistinctPaths files

module _ (can_write : Text → Bool) where
  write_all-other :
      (disk : Map Text) (files : List (Text × Text)) (path : Text)
      → Avoids path files
      → lookup path ((write_all can_write disk files).0) ≡ lookup path disk
  unfolding write_all
  write_all-other disk [] path a = refl
  write_all-other disk ((p, bytes) ∷ files) path a = elim (Bool-cases (can_write p)) [
    | inl writable ↦
        let other : text_eq p path ≡ false = ground (arith, text_eq_iff p path, a.0) in
        rw (write_all, writable)
          (write_all-other (insert p bytes disk) files path a.1
            ∙ (lookup-insert p path bytes disk
                ∙ ap (λ b. if b then some bytes else lookup path disk) other))
    | inr refused ↦ rw (write_all, refused) refl
  ]

  write_all-checked :
      (disk : Map Text) (files : List (Text × Text))
      → HasDistinctPaths files
      → (write_all can_write disk files).1 ≡ ok tt
      → wrong_of ((write_all can_write disk files).0) files ≡ []
  unfolding write_all wrong_of
  write_all-checked disk [] a h = refl
  write_all-checked disk ((p, bytes) ∷ files) a h = elim (Bool-cases (can_write p)) [
    | inl writable ↦
        let acts : write_all can_write disk ((p, bytes) ∷ files)
            ≡ write_all can_write (insert p bytes disk) files =
          rw (write_all, writable) refl in
        let held : lookup p ((write_all can_write (insert p bytes disk) files).0) ≡ some bytes =
          write_all-other (insert p bytes disk) files p a.0
          ∙ (lookup-insert p p bytes disk
              ∙ ap (λ b. if b then some bytes else lookup p disk) (text_eq_refl p)) in
        let rest =
          write_all-checked (insert p bytes disk) files a.1 (ap (λ r. r.1) (sym acts) ∙ h) in
        ap (λ r. wrong_of (r.0) ((p, bytes) ∷ files)) acts
        ∙ here ((write_all can_write (insert p bytes disk) files).0) held rest
    | inr refused ↦
        let acts : write_all can_write disk ((p, bytes) ∷ files) ≡ (disk, err (not_written p)) =
          rw (write_all, refused) refl in
        let clash : err (not_written p) ≡ ok tt = ap (λ r. r.1) (sym acts) ∙ h in
        absurd (ground arith)
  ]
    where
      here :
          (after : Map Text)
          → lookup p after ≡ some bytes
          → wrong_of after files ≡ []
          → wrong_of after ((p, bytes) ∷ files) ≡ []
      here after held rest = rw (wrong_of, held, text_eq_refl bytes) rest

  -- The names of the files in the directory are relative and different.
  artifact_files-HasDistinctPaths :
      (dir : NetworkDir) (a : Assembled) → HasDistinctPaths (artifact_files dir a)
  unfolding artifact_files Paths.manifest Paths.policy Paths.reth_genesis Paths.summit_genesis
      is_absolute
  artifact_files-HasDistinctPaths dir a =
      let differ : (p q : Text)
          → is_absolute p ≡ false
          → is_absolute q ≡ false
          → p ≢ q
          → join dir.root p ≢ join dir.root q =
        λ p q hp hq other same. other (join_inj dir.root p q hp hq same) in
      (
        (
          differ (codes "measurement-policy-bootstrap.json") (codes "network-manifest.json") refl
              refl (λ h. absurd (ground arith)),
          (
            differ (codes "reth-genesis.json") (codes "network-manifest.json") refl refl
                (λ h. absurd (ground arith)),
            (
              differ (codes "summit-genesis.toml") (codes "network-manifest.json") refl refl
                  (λ h. absurd (ground arith)),
              tt,
            ),
          ),
        ),
        (
          (
            differ (codes "reth-genesis.json") (codes "measurement-policy-bootstrap.json") refl refl
                (λ h. absurd (ground arith)),
            (
              differ (codes "summit-genesis.toml") (codes "measurement-policy-bootstrap.json") refl
                  refl (λ h. absurd (ground arith)),
              tt,
            ),
          ),
          (
            (
              differ (codes "summit-genesis.toml") (codes "reth-genesis.json") refl refl
                  (λ h. absurd (ground arith)),
              tt,
            ),
            (tt, tt),
          ),
        ),
      )

  -- Where the manifest is there already and nothing is forced, the disk stays as it was.
  pub write_artifact_set_refuses :
      (disk : Map Text) (dir : NetworkDir) (a : Assembled) (force : Bool)
      → (contains_key (Paths.manifest dir) disk && not force) ≡ true
      → write_artifact_set can_write disk dir a force
        ≡ (disk, err (manifest_exists (Paths.manifest dir)))
  unfolding write_artifact_set
  write_artifact_set_refuses disk dir a force there = rw (write_artifact_set, there) refl

  -- An artifact set that is written leaves a disk on which the check of that set passes, and was written
  -- where no manifest was or by force.
  pub write_artifact_set-check :
      (disk : Map Text) (dir : NetworkDir) (a : Assembled) (force : Bool)
      → (write_artifact_set can_write disk dir a force).1 ≡ ok tt
      → (check_artifact_set ((write_artifact_set can_write disk dir a force).0) dir a ≡ ok tt)
        × ((contains_key (Paths.manifest dir) disk ≡ false) ⊎ (force ≡ true))
  unfolding write_artifact_set check_artifact_set
  write_artifact_set-check disk dir a force written =
      elim (Bool-cases (contains_key (Paths.manifest dir) disk && not force)) [
        | inl there ↦
            let clash : err (manifest_exists (Paths.manifest dir)) ≡ ok tt =
              ap (λ r. r.1) (sym (write_artifact_set_refuses disk dir a force there)) ∙ written in
            absurd (ground arith)
        | inr free ↦
            let acts = passage free in
            let none_wrong =
              write_all-checked disk (artifact_files dir a) (artifact_files-HasDistinctPaths dir a)
                (ap (λ r. r.1) (sym acts) ∙ written) in
            (
              ap (λ r. check_artifact_set r.0 dir a) acts ∙ none_wrong_checks _ none_wrong,
              allowed free,
            )
      ]
    where
      passage :
          (contains_key (Paths.manifest dir) disk && not force) ≡ false
          → write_artifact_set can_write disk dir a force
            ≡ write_all can_write disk (artifact_files dir a)
      passage free = rw (write_artifact_set, free) refl

      none_wrong_checks :
          (after : Map Text)
          → wrong_of after (artifact_files dir a) ≡ []
          → check_artifact_set after dir a ≡ ok tt
      none_wrong_checks after h = rw (check_artifact_set, h) refl

      allowed :
          (contains_key (Paths.manifest dir) disk && not force) ≡ false
          → (contains_key (Paths.manifest dir) disk ≡ false) ⊎ (force ≡ true)
      allowed free = ground arith
