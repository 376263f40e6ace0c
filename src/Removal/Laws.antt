-- ===== src/Removal/Laws.antt =====
-- What `network rm` deletes, and what it leaves of the context file.
use seismic.Prelude.{
  ◌≡◌, ◌≢◌, refl, sym, ap, ◌∙◌, inl, inr, ◌⊎◌, zero, suc, ℕ, Bool, true, not, Option, none, some,
  List, [], ◌∷◌, arith, Result, ok, err, bail_if, some_or, map_err, >>=-eq-ok, some_or-eq-ok,
  map_err-eq-ok, Option-cases, Result-cases, Bool-cases, All, All-imp, any, is_empty, if◌then◌else◌,
}
use seismic.Prelude.Text.{Text, text_eq}
use seismic.Prelude.Map.{lookup, keys}
use seismic.Paths.{join, top_level}
use seismic.Context.Config.{Network, Config, is_empty_map}
use seismic.Context.Select.{load, expand_tilde}
use seismic.Context.Document.{Doc, from_toml}
use seismic.Context.Write.{WriteError, remove_network, edit}
use seismic.Context.Write.Laws.Edit.{}
use seismic.Context.Write.Laws.Removal.{}
use seismic.Removal.{
  Metadata, missing, unreadable, not_dir, is_dir, Disk, RemoveError, context, unresolved,
  unreadable_dir, no_network, foreign, find, by_status, refuse_tree, delete_checked, remove_seen,
  unignored_work_tree, unowned, foreign_entries, check_removable, remove_dir, remove_entry_dir,
  removable, after_write, forget_network, target, remove,
}

module _ (disk : Disk) where
  -- The directory is outside every git work tree, or git ignores it.
  abbrev pub IsUncommitted : Text → Type 0
  IsUncommitted root =
      (path : Text) × (disk.canonicalize root ≡ some path)
      × ((find disk.has_git (disk.ancestors path) ≡ none) ⊎ (disk.check_ignore path ≡ some 0))

  -- Everything in the directory is of the layout.
  abbrev pub IsOwned : Text → Type 0
  IsOwned root =
      (names : List Text) × (disk.read_dir root ≡ some names)
      × All (λ name. any (text_eq (join root name)) (top_level (record { root = root })) ≡ true)
          names

  -- What allows a directory to be deleted.
  pub record IsDeletable (root : Text) : Type 0 where
    pub is_directory : disk.metadata root ≡ is_dir
    pub uncommitted : IsUncommitted root
    pub owned : IsOwned root

  by_status-ignored :
      (tree : Text) (status : Option ℕ) → by_status tree status ≡ ok none → status ≡ some 0
  unfolding by_status
  by_status-ignored tree none h = absurd (ground arith)
  by_status-ignored tree (some zero) h = refl
  by_status-ignored tree (some (suc zero)) h = absurd (ground arith)
  by_status-ignored tree (some (suc (suc n))) h = absurd (ground arith)

  unignored_work_tree-IsUncommitted :
      (root : Text) → unignored_work_tree disk root ≡ ok none → IsUncommitted root
  unfolding unignored_work_tree
  unignored_work_tree-IsUncommitted root h =
      let (path, e, h₁) = >>=-eq-ok (some_or (disk.canonicalize root) unresolved) _ h in
      let resolved = some_or-eq-ok (disk.canonicalize root) unresolved e in
      elim (Option-cases (find disk.has_git (disk.ancestors path))) [
        | inl outside ↦ (path, resolved, inl outside)
        | inr (tree, inside) ↦
            let asked : by_status tree (disk.check_ignore path) ≡ ok none = ground arith in
            (path, resolved, inr (by_status-ignored tree (disk.check_ignore path) asked))
      ]

  unowned-owned :
      (root : Text) (names : List Text)
      → unowned disk root names ≡ []
      → All
          (λ name. any (text_eq (join root name)) (top_level (record { root = root })) ≡ true)
          names
  unfolding unowned
  unowned-owned root [] h = tt
  unowned-owned root (name ∷ names) h =
      elim (Bool-cases (any (text_eq (join root name)) (top_level (record { root = root })))) [
        | inl mine ↦ (
          mine,
          unowned-owned root names (
              ap (λ b. if b then unowned disk root names else name ∷ unowned disk root names)
                (sym mine)
              ∙ h),
        )
        | inr other ↦
            let e =
              ap (λ b. if b then unowned disk root names else name ∷ unowned disk root names)
                (sym other)
              ∙ h in
            absurd (ground arith)
      ]

  refuse_tree-eq-ok : (tree : Option Text) → refuse_tree tree ≡ ok tt → tree ≡ none
  unfolding refuse_tree
  refuse_tree-eq-ok none h = refl
  refuse_tree-eq-ok (some t) h = absurd (ground arith)

  none_foreign :
      (names : List Text) → bail_if (not (is_empty names)) (foreign names) ≡ ok tt → names ≡ []
  none_foreign [] h = refl
  none_foreign (name ∷ names) h = absurd (ground arith)

  foreign_entries-IsOwned :
      (root : Text) (names : List Text)
      → foreign_entries disk root ≡ ok names
      → names ≡ []
      → IsOwned root
  unfolding foreign_entries
  foreign_entries-IsOwned root names h none_left =
      let (entries, e, h₁) = >>=-eq-ok (some_or (disk.read_dir root) unreadable_dir) _ h in
      let same : unowned disk root entries ≡ names = ground arith in
      (
        entries,
        some_or-eq-ok (disk.read_dir root) unreadable_dir e,
        unowned-owned root entries (same ∙ none_left),
      )

  check_removable-IsDeletable :
      (root : Text) (m : Metadata)
      → disk.metadata root ≡ m
      → m ≢ missing
      → check_removable disk root m ≡ ok tt
      → IsDeletable root
  unfolding check_removable
  check_removable-IsDeletable root is_dir seen there h =
      let (tree, e₁, h₁) = >>=-eq-ok (unignored_work_tree disk root) _ h in
      let (u, e₂, h₂) = >>=-eq-ok (refuse_tree tree) _ h₁ in
      let (names, e₃, h₃) = >>=-eq-ok (foreign_entries disk root) _ h₂ in
      record {
        is_directory = seen;
        uncommitted =
            unignored_work_tree-IsUncommitted root (e₁ ∙ ap ok (refuse_tree-eq-ok tree e₂));
        owned = foreign_entries-IsOwned root names e₃ (none_foreign names h₃);
      }
  check_removable-IsDeletable root missing seen there h = absurd (there refl)
  check_removable-IsDeletable root unreadable seen there h = absurd (ground arith)
  check_removable-IsDeletable root not_dir seen there h = absurd (ground arith)

  -- What `remove_dir` did: nothing to a path that is missing or refused, else a deletion.
  remove_present-All :
      (root : Text) (m : Metadata) (r : Result RemoveError Unit)
      → disk.metadata root ≡ m
      → m ≢ missing
      → check_removable disk root m ≡ r
      → All (λ x. (x ≡ root) × IsDeletable x) ((delete_checked disk root r).0)
  unfolding delete_checked
  remove_present-All root m (ok u) seen there h =
      ((refl, check_removable-IsDeletable root m seen there h), tt)
  remove_present-All root m (err e) seen there h = tt

  remove_dir-All : (root : Text) → All (λ x. (x ≡ root) × IsDeletable x) ((remove_dir disk root).0)
  unfolding remove_dir remove_seen
  remove_dir-All root = by_metadata (disk.metadata root) refl
    where
      by_metadata :
          (m : Metadata)
          → disk.metadata root ≡ m
          → All (λ x. (x ≡ root) × IsDeletable x) ((remove_seen disk root m).0)
      by_metadata missing seen = tt
      by_metadata is_dir seen =
          remove_present-All root is_dir _ seen (λ p. absurd (ground arith)) refl
      by_metadata unreadable seen =
          remove_present-All root unreadable _ seen (λ p. absurd (ground arith)) refl
      by_metadata not_dir seen =
          remove_present-All root not_dir _ seen (λ p. absurd (ground arith)) refl

  -- What allows the command to delete a directory: it is that of the network of the name in a file that
  -- loads, which has no nodes unless the command is forced, and it may be deleted.
  pub record IsRemovable (parse : Text → Option Doc) (home file : Option Text) (name : Text)
      (force : Bool) (root : Text) : Type 0 where
    pub config : Config
    pub network : Network
    pub dir : Text
    pub loads : load (from_toml parse) file ≡ ok config
    pub registered : lookup name config.networks ≡ some network
    pub torn_down : (is_empty_map network.nodes ≡ true) ⊎ (force ≡ true)
    pub named : network.dir ≡ some dir
    pub expanded : expand_tilde home dir ≡ ok root
    pub deletable : IsDeletable root

  pub removable-eq-ok :
      (c : Config) (name : Text) (force : Bool) (n : Network)
      → removable disk c name force ≡ ok n
      → (lookup name c.networks ≡ some n) × ((is_empty_map n.nodes ≡ true) ⊎ (force ≡ true))
  unfolding removable
  removable-eq-ok c name force n h =
      let (n', e, h₁) =
        >>=-eq-ok (some_or (lookup name c.networks) (no_network name (keys c.networks))) _ h in
      let same : n' ≡ n = ground arith in
      let found = some_or-eq-ok (lookup name c.networks) (no_network name (keys c.networks)) e in
      let allowed : (is_empty_map n'.nodes ≡ true) ⊎ (force ≡ true) = ground arith in
      (found ∙ ap some same, rw (← same) allowed)

  after_write-deleted :
      (file : Option Text) (c : Config) (name : Text) (deleted : List Text)
      (r : Result WriteError Text)
      → (after_write file c name deleted r).deleted ≡ deleted
  unfolding after_write
  after_write-deleted file c name deleted (ok text) = refl
  after_write-deleted file c name deleted (err e) = refl

  module _ (parse : Text → Option Doc) (render : Doc → Text) where
    pub target-eq-ok :
        (file : Option Text) (name : Text) (force : Bool) (c : Config) (n : Network)
        → target disk parse render file name force ≡ ok (c, n)
        → (load (from_toml parse) file ≡ ok c) × (removable disk c name force ≡ ok n)
    unfolding target
    target-eq-ok file name force c n h =
        let (c', e₁, h₁) = >>=-eq-ok (map_err context (load (from_toml parse) file)) _ h in
        let (n', e₂, h₂) = >>=-eq-ok (removable disk c' name force) _ h₁ in
        let same : c' ≡ c = ground arith in
        let same' : n' ≡ n = ground arith in
        (
          map_err-eq-ok context _ e₁ ∙ ap ok same,
          ap (λ x. removable disk x name force) (sym same) ∙ e₂ ∙ ap ok same',
        )

    forget_network-deleted :
        (file : Option Text) (c : Config) (name : Text) (t : List Text × Result RemoveError Unit)
        → (forget_network disk parse render file c name t).deleted ≡ t.0
    unfolding forget_network
    forget_network-deleted file c name (deleted, err e) = refl
    forget_network-deleted file c name (deleted, ok u) =
        after_write-deleted file c name deleted
          (edit parse render file (λ d. ok (remove_network name d)))

    remove_entry_dir-All :
        (home file : Option Text) (name : Text) (force : Bool) (c : Config) (n : Network)
        → load (from_toml parse) file ≡ ok c
        → lookup name c.networks ≡ some n
        → (is_empty_map n.nodes ≡ true) ⊎ (force ≡ true)
        → All (IsRemovable parse home file name force) ((remove_entry_dir disk home n.dir).0)
    unfolding remove_entry_dir
    remove_entry_dir-All home file name force c n loads found allowed = elim (Option-cases n.dir) [
      | inl nowhere ↦ rw (remove_entry_dir, nowhere) tt
      | inr (dir, named) ↦ elim (Result-cases (expand_tilde home dir)) [
        | inl (root, expanded) ↦
            rw (remove_entry_dir, named, expanded)
              (All-imp _ _
                (λ x deleted. record {
                  config = c;
                  network = n;
                  dir = dir;
                  loads = loads;
                  registered = found;
                  torn_down = allowed;
                  named = named;
                  expanded = expanded ∙ ap ok (sym deleted.0);
                  deletable = deleted.1;
                })
                ((remove_dir disk root).0) (remove_dir-All root))
        | inr (e, fails) ↦ rw (remove_entry_dir, named, fails) tt
      ]
    ]

    -- Every directory that `network rm` deletes, or begins to, is the directory of the named network in a
    -- context file that loads, with no nodes registered for it unless the command is forced; it is a
    -- directory, in no git work tree or ignored by git, and holds nothing that its layout does not own.
    pub remove-Removable :
        (home file : Option Text) (name : Text) (force : Bool)
        → All
            (IsRemovable parse home file name force)
            ((remove disk parse render home file name force).deleted)
    unfolding remove
    remove-Removable home file name force =
        elim (Result-cases (target disk parse render file name force)) [
          | inl ((c, n), found) ↦
              let (loads, allowed) = target-eq-ok file name force c n found in
              let (registered, torn_down) = removable-eq-ok c name force n allowed in
              rw (remove, found)
                (rw (forget_network-deleted file c name (remove_entry_dir disk home n.dir))
                  (remove_entry_dir-All home file name force c n loads registered torn_down))
          | inr (e, fails) ↦ rw (remove, fails) tt
        ]
