-- ===== src/Removal/Forget.antt =====
-- When `network rm` succeeds: the directory is gone, and then the entry.
use seismic.Prelude.{
  ◌≡◌, refl, sym, ap, ◌∙◌, inl, inr, ◌⊎◌, Bool, true, not, ◌&&◌, Option, none, some, List, [],
  arith, Result, ok, err, Result-cases, is_some, any,
}
use seismic.Prelude.Text.{Text, text_eq}
use seismic.Prelude.Map.{lookup, keys}
use seismic.Context.Config.{Network, Config, validate_all}
use seismic.Context.Select.{load, expand_tilde}
use seismic.Context.Document.{Doc, config_of, from_toml}
use seismic.Context.Commands.{current_in}
use seismic.Context.Write.{WriteError, remove_network, edit}
use seismic.Context.Write.Laws.Edit.{from_toml-eq-some, load-eq-ok, load_of, edit-IsEdit}
use seismic.Context.Write.Laws.Removal.{HasNoInlineNetworks, IsRemoved, remove_network-IsRemoved}
use seismic.Removal.{
  Metadata, missing, unreadable, not_dir, is_dir, Disk, RemoveError, context, check_removable,
  delete_checked, remove_seen, after_write, remove_dir, remove_entry_dir, forget_network, target,
  remove,
}
use seismic.Removal.Laws.{target-eq-ok, removable-eq-ok}

module _ (disk : Disk) where
  -- The entry has no directory, or its directory was missing, or it was deleted in full.
  abbrev pub IsGone : Option Text → Option Text → Type 0
  IsGone home dir =
      (dir ≡ none)
      ⊎ ((d : Text) × (root : Text) × (dir ≡ some d)
          × (expand_tilde home d ≡ ok root)
          × ((disk.metadata root ≡ missing) ⊎ (disk.remove_dir_all root ≡ true)))

  delete_checked-removed :
      (root : Text) (r : Result RemoveError Unit)
      → (delete_checked disk root r).1 ≡ ok tt
      → disk.remove_dir_all root ≡ true
  unfolding delete_checked
  delete_checked-removed root (ok u) h = ground arith
  delete_checked-removed root (err e) h = absurd (ground arith)

  remove_seen-gone :
      (root : Text) (m : Metadata)
      → (remove_seen disk root m).1 ≡ ok tt
      → (m ≡ missing) ⊎ (disk.remove_dir_all root ≡ true)
  unfolding remove_seen
  remove_seen-gone root missing h = inl refl
  remove_seen-gone root is_dir h =
      inr (delete_checked-removed root (check_removable disk root is_dir) h)
  remove_seen-gone root not_dir h =
      inr (delete_checked-removed root (check_removable disk root not_dir) h)
  remove_seen-gone root unreadable h =
      inr (delete_checked-removed root (check_removable disk root unreadable) h)

  remove_entry_dir-IsGone :
      (home dir : Option Text) → (remove_entry_dir disk home dir).1 ≡ ok tt → IsGone home dir
  unfolding remove_entry_dir remove_dir
  remove_entry_dir-IsGone home none h = inl refl
  remove_entry_dir-IsGone home (some d) h = elim (Result-cases (expand_tilde home d)) [
    | inl (root, expanded) ↦
        let seen = remove_seen-gone root (disk.metadata root) (
          ap
            (λ r.
              (elim r as (λ _. List Text × Result RemoveError Unit) [
                | err e ↦ ([], err (context e))
                | ok p ↦ remove_dir disk p
              ]).1)
            (sym expanded)
          ∙ h) in
        inr (d, root, refl, expanded, seen)
    | inr (e, fails) ↦ absurd (ground arith)
  ]

  -- What a removal that succeeds has done.
  pub record IsDone (parse : Text → Option Doc) (home : Option Text) (file name : Text)
      (after : Option Text) (again : Bool) : Type 0 where
    pub before : Config
    pub network : Network
    pub text : Text
    pub config : Config
    pub loaded : load (from_toml parse) (some file) ≡ ok before
    pub registered : lookup name before.networks ≡ some network
    pub gone : IsGone home network.dir
    pub left : after ≡ some text
    pub loads : load (from_toml parse) (some text) ≡ ok config
    pub removed : IsRemoved name before config
    pub advice : again ≡ (
        is_some (current_in name before.current)
        && any (λ other. not (text_eq other name)) (keys before.networks))

  module _ (parse : Text → Option Doc) (render : Doc → Text)
      (rereads : (text name : Text) (d : Doc) (c c' : Config)
        → parse text ≡ some d
        → config_of (remove_network name d) ≡ ok c
        → from_toml parse (render (remove_network name d)) ≡ some c'
        → c' ≡ c) where
    written-IsRemoved :
        (file text name : Text) (c : Config)
        → ((d : Doc) → parse file ≡ some d → HasNoInlineNetworks d)
        → load (from_toml parse) (some file) ≡ ok c
        → edit parse render (some file) (λ d. ok (remove_network name d)) ≡ ok text
        → (c' : Config) × (load (from_toml parse) (some text) ≡ ok c') × IsRemoved name c c'
    written-IsRemoved file text name c no_inline loads h =
        let e = edit-IsEdit parse render (some file) (λ d. ok (remove_network name d)) text h in
        let (d, parsed, is_c) = from_toml-eq-some parse file c (load-eq-ok parse file c loads) in
        let same : e.before ≡ d =
          (let p : some e.before ≡ some d = sym e.parsed ∙ parsed in ground arith) in
        let made : remove_network name e.before ≡ e.after =
          (let p : ok (remove_network name e.before) ≡ ok e.after = e.edited in ground arith) in
        let printed : render (remove_network name d) ≡ text =
          ap (λ x. render (remove_network name x)) (sym same) ∙ ap render made ∙ e.rendered in
        let (c', reads, removed) = remove_network-IsRemoved name d c (no_inline d parsed) is_c in
        let agrees : e.config ≡ c' =
          rereads file name d c' e.config parsed reads (ap (from_toml parse) printed ∙ e.reread) in
        let reread : from_toml parse text ≡ some c' = e.reread ∙ ap some agrees in
        (
          c',
          load_of parse text c' reread (ap (λ x. validate_all x.networks) (sym agrees) ∙ e.valid),
          removed,
        )

    -- Whether to pick another network.
    abbrev advised : Config → Text → Bool
    advised c name =
        is_some (current_in name c.current)
        && any (λ other. not (text_eq other name)) (keys c.networks)

    after_write-eq-ok :
        (file : Option Text) (c : Config) (name : Text) (deleted : List Text)
        (r : Result WriteError Text) (again : Bool)
        → (after_write file c name deleted r).result ≡ ok again
        → (text : Text) × (r ≡ ok text)
          × ((after_write file c name deleted r).file ≡ some text)
          × (again ≡ advised c name)
    unfolding after_write
    after_write-eq-ok file c name deleted (ok text) again h = (text, refl, refl, ground arith)
    after_write-eq-ok file c name deleted (err e) again h = absurd (ground arith)

    -- What a success of the last step says.
    forget_network-eq-ok :
        (file : Option Text) (c : Config) (name : Text) (t : List Text × Result RemoveError Unit)
        (again : Bool)
        → (forget_network disk parse render file c name t).result ≡ ok again
        → (text : Text) × (t.1 ≡ ok tt)
          × (edit parse render file (λ d. ok (remove_network name d)) ≡ ok text)
          × ((forget_network disk parse render file c name t).file ≡ some text)
          × (again ≡ advised c name)
    unfolding forget_network
    forget_network-eq-ok file c name (deleted, err e) again h = absurd (ground arith)
    forget_network-eq-ok file c name (deleted, ok u) again h =
        let (text, written, left, advice) =
          after_write-eq-ok file c name deleted
            (edit parse render file (λ d. ok (remove_network name d))) again h in
        (text, refl, written, left, advice)

    -- When an edited document that the crates print reads back as no other configuration than its own: `network rm` that
    -- succeeds on a context file, whose `networks` is no inline table, has found the network in it, whose directory is gone, and leaves a file
    -- that loads as the configuration without the network and the selections of it; it advises to pick
    -- another network exactly when the removed one was selected and another is left.
    pub remove-IsDone :
        (home : Option Text) (file name : Text) (force again : Bool)
        → ((d : Doc) → parse file ≡ some d → HasNoInlineNetworks d)
        → (remove disk parse render home (some file) name force).result ≡ ok again
        → IsDone parse home file name
            ((remove disk parse render home (some file) name force).file)
            again
    unfolding remove
    remove-IsDone home file name force again no_inline h =
        elim (Result-cases (target disk parse render (some file) name force)) [
          | inl ((c, n), found) ↦
              let (loads, allowed) =
                target-eq-ok disk parse render (some file) name force c n found in
              let (registered, torn_down) = removable-eq-ok disk c name force n allowed in
              let acts : remove disk parse render home (some file) name force
                  ≡ forget_network disk parse render (some file) c name
                      (remove_entry_dir disk home n.dir) =
                rw (remove, found) refl in
              let (text, dir_ok, written, left, advice) =
                forget_network-eq-ok (some file) c name (remove_entry_dir disk home n.dir) again
                  (ap (λ o. o.result) (sym acts) ∙ h) in
              let (c', reloads, removed) =
                written-IsRemoved file text name c no_inline loads written in
              record {
                before = c;
                network = n;
                text = text;
                config = c';
                loaded = loads;
                registered = registered;
                gone = remove_entry_dir-IsGone home n.dir dir_ok;
                left = ap (λ o. o.file) acts ∙ left;
                loads = reloads;
                removed = removed;
                advice = advice;
              }
          | inr (e, fails) ↦
              let stops : remove disk parse render home (some file) name force
                  ≡ record { file = some file; deleted = []; result = err e } =
                rw (remove, fails) refl in
              let clash : err e ≡ ok again = ap (λ o. o.result) (sym stops) ∙ h in
              absurd (ground arith)
        ]
