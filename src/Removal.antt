-- ===== src/Removal.antt =====
-- `network rm`: tee/cli/network/src/rm.rs. The file system and git are parameters, and the trace holds
-- the directories that `remove_dir_all` is called on. What is printed is left out.
pub mod Laws
pub mod Forget
mod Tests
use seismic.Prelude.{
  ℕ, zero, suc, Bool, true, false, not, ◌&&◌, Option, none, some, List, [], ◌∷◌, Result, ok, err,
  ◌>>=◌, ◌>>◌, bail_if, some_or, map_err, if◌then◌else◌, is_some, is_empty, any,
}
use seismic.Prelude.Text.{Text, text_eq}
use seismic.Prelude.Map.{Map, lookup, keys}
use seismic.Paths.{NetworkDir, join, top_level}
use seismic.Context.Selection.{Selection}
use seismic.Context.Config.{Network, Config, is_empty_map}
use seismic.Context.Select.{ContextError, load, expand_tilde}
use seismic.Context.Document.{Doc, from_toml}
use seismic.Context.Write.{WriteError, remove_network, edit}
use seismic.Context.Commands.{current_in}

-- What `symlink_metadata` says of a path.
pub data Metadata : Type 0 where
  missing : Metadata
  unreadable : Metadata
  not_dir : Metadata
  is_dir : Metadata

-- The file system and git, as the removal asks them. `check_ignore` is git's exit code, none when git could
-- not be run or was killed; `read_dir` is the names in a directory, none when it cannot be read.
pub record Disk : Type 0 where
  pub metadata : Text → Metadata
  pub canonicalize : Text → Option Text
  pub ancestors : Text → List Text
  pub has_git : Text → Bool
  pub check_ignore : Text → Option ℕ
  pub read_dir : Text → Option (List Text)
  pub remove_dir_all : Text → Bool

pub data RemoveError : Type 0 where
  context : ContextError → RemoveError
  no_network : Text → List Text → RemoveError
  nodes_registered : List Text → RemoveError
  unreadable_dir : RemoveError
  not_a_dir : RemoveError
  unresolved : RemoveError
  git_failed : Text → RemoveError
  unignored : Text → RemoveError
  foreign : List Text → RemoveError
  not_removed : RemoveError
  write : WriteError → RemoveError

-- The directories that were deleted, or begun to be, with the result.
abbrev pub Traced : Type 0 → Type 0
Traced A = List Text × Result RemoveError A

-- The context file that is left, the directories deleted, and whether to pick another network: the removed
-- one was selected, and others are left.
pub record Outcome : Type 0 where
  pub file : Option Text
  pub deleted : List Text
  pub result : Result RemoveError Bool

unfoldable pub find : (Text → Bool) → List Text → Option Text
find p [] = none
find p (x ∷ xs) = if p x then some x else find p xs

-- The match on the status of `git check-ignore`.
unfoldable pub by_status : Text → Option ℕ → Result RemoveError (Option Text)
by_status tree (some zero) = ok none
by_status tree (some (suc zero)) = ok (some tree)
by_status tree status = err (git_failed tree)

-- The file and the advice, once the entry is written off.
unfoldable pub after_write :
    Option Text → Config → Text → List Text → Result WriteError Text → Outcome
unfolding current_in
after_write file config name deleted (err e) = record {
  file = file;
  deleted = deleted;
  result = err (write e);
}
after_write file config name deleted (ok text) = record {
  file = some text;
  deleted = deleted;
  result = ok (
      is_some (current_in name config.current)
      && any (λ other. not (text_eq other name)) (keys config.networks));
}

unfoldable pub refuse_tree : Option Text → Result RemoveError Unit
refuse_tree none = ok tt
refuse_tree (some tree) = err (unignored tree)

module _ (disk : Disk) where
  unfoldable pub unignored_work_tree : Text → Result RemoveError (Option Text)
  unfolding find by_status
  unignored_work_tree root = do
    path ← some_or (disk.canonicalize root) unresolved
    elim (find disk.has_git (disk.ancestors path)) [
      | none ↦ ok none
      | some tree ↦ by_status tree (disk.check_ignore path)
    ]

  -- The names that the layout does not own; their sorting is for the message.
  unfoldable pub unowned : Text → List Text → List Text
  unfolding top_level join
  unowned root [] = []
  unowned root (name ∷ names) =
      let rest = unowned root names in
      if any (text_eq (join root name)) (top_level (record { root = root }))
      then rest
      else name ∷ rest

  unfoldable pub foreign_entries : Text → Result RemoveError (List Text)
  unfolding unowned
  foreign_entries root = do
    names ← some_or (disk.read_dir root) unreadable_dir
    ok (unowned root names)

  -- The refusals of `remove_dir` on a path that is there.
  unfoldable pub check_removable : Text → Metadata → Result RemoveError Unit
  unfolding unignored_work_tree refuse_tree foreign_entries
  check_removable root unreadable = err unreadable_dir
  check_removable root not_dir = err not_a_dir
  check_removable root missing = ok tt
  check_removable root is_dir = do
    tree ← unignored_work_tree root
    refuse_tree tree
    names ← foreign_entries root
    bail_if (not (is_empty names)) (foreign names)

  -- The deletion, once nothing refuses it.
  unfoldable pub delete_checked : Text → Result RemoveError Unit → Traced Unit
  delete_checked root (err e) = ([], err e)
  delete_checked root (ok u) = (root ∷ [], bail_if (not (disk.remove_dir_all root)) not_removed)

  -- `remove_dir`: a directory that is gone already is no error.
  unfoldable pub remove_seen : Text → Metadata → Traced Unit
  unfolding check_removable delete_checked
  remove_seen root missing = ([], ok tt)
  remove_seen root is_dir = delete_checked root (check_removable root is_dir)
  remove_seen root not_dir = delete_checked root (check_removable root not_dir)
  remove_seen root unreadable = delete_checked root (check_removable root unreadable)

  unfoldable pub remove_dir : Text → Traced Unit
  unfolding remove_seen
  remove_dir root = remove_seen root (disk.metadata root)

  -- The directory of the entry, when it has one.
  unfoldable pub remove_entry_dir : Option Text → Option Text → Traced Unit
  unfolding expand_tilde remove_dir
  remove_entry_dir home none = ([], ok tt)
  remove_entry_dir home (some dir) = elim (expand_tilde home dir) [
    | err e ↦ ([], err (context e))
    | ok root ↦ remove_dir root
  ]

  -- The network that `remove` acts on, past its first two refusals.
  unfoldable pub removable : Config → Text → Bool → Result RemoveError Network
  removable config name force = do
    n ← some_or (lookup name config.networks) (no_network name (keys config.networks))
    bail_if (not (is_empty_map n.nodes) && not force) (nodes_registered (keys n.nodes))
    ok n

  module _ (parse : Text → Option Doc) (render : Doc → Text) where
    unfoldable pub forget_network : Option Text → Config → Text → Traced Unit → Outcome
    unfolding after_write remove_network edit
    forget_network file config name (deleted, err e) = record {
      file = file;
      deleted = deleted;
      result = err e;
    }
    forget_network file config name (deleted, ok u) =
        after_write file config name deleted
          (edit parse render file (λ d. ok (remove_network name d)))

    -- What `remove` acts on: the file's configuration and its network.
    unfoldable pub target : Option Text → Text → Bool → Result RemoveError (Config × Network)
    unfolding load removable
    target file name force = do
      config ← map_err context (load (from_toml parse) file)
      n ← removable config name force
      ok (config, n)

    -- `remove`
    unfoldable pub remove : Option Text → Option Text → Text → Bool → Outcome
    unfolding target remove_entry_dir forget_network
    remove home file name force = elim (target file name force) [
      | err e ↦ record { file = file; deleted = []; result = err e }
      | ok (config, n) ↦ forget_network file config name (remove_entry_dir home n.dir)
    ]
