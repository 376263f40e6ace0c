-- ===== src/Harvest/Run/Laws.antt =====
-- What the harvest command leaves on the disk.
use seismic.Prelude.{
  ◌≡◌, ◌∙◌, inl, inr, Bool, false, some, [], ◌∷◌, arith, Result, ok, err, All, Bool-cases,
}
use seismic.Prelude.Text.{Text, text_eq, text_eq_refl}
use seismic.Prelude.Map.{Map, lookup, insert, lookup-insert}
use seismic.Paths.{NetworkDir, harvest_record}
use seismic.Harvest.{}
use seismic.Harvest.Run.{Disk, HarvestError, cannot_write, save_harvest}

module _ (dir : NetworkDir) where
  -- The paths of the records are pairwise different.
  abbrev pub HasDistinctPaths : Map Text → Type 0
  HasDistinctPaths [] = Unit {0}
  HasDistinctPaths ((name, d) ∷ m) =
      All (λ e. text_eq (harvest_record dir e.0) (harvest_record dir name) ≡ false) m
      × HasDistinctPaths m

module _ (can_write : Text → Bool) (dir : NetworkDir) where
  pub save_harvest-eq-err :
      (archives : Map Text) (disk disk' : Disk) (e : HarvestError)
      → save_harvest can_write dir archives disk ≡ (err e, disk')
      → (path : Text) × (e ≡ cannot_write path)
  unfolding save_harvest
  save_harvest-eq-err [] disk disk' e h = absurd (ground arith)
  save_harvest-eq-err ((name, document) ∷ archives) disk disk' e h =
      elim (Bool-cases (can_write (harvest_record dir name))) [
        | inl can ↦
            save_harvest-eq-err archives (insert (harvest_record dir name) document disk) disk' e
              (ground arith)
        | inr cannot ↦ (harvest_record dir name, ground arith)
      ]

  -- A path that is no record's keeps its text.
  pub save_harvest_other :
      (archives : Map Text) (disk disk' : Disk) (r : Result HarvestError Unit) (p : Text)
      → All (λ e. text_eq (harvest_record dir e.0) p ≡ false) archives
      → save_harvest can_write dir archives disk ≡ (r, disk')
      → lookup p disk' ≡ lookup p disk
  unfolding save_harvest
  save_harvest_other [] disk disk' r p a h = ground arith
  save_harvest_other ((name, document) ∷ archives) disk disk' r p a h =
      elim (Bool-cases (can_write (harvest_record dir name))) [
        | inl can ↦
            save_harvest_other archives (insert (harvest_record dir name) document disk) disk' r p
              a.1 (ground arith)
            ∙ ground (arith, lookup-insert (harvest_record dir name) p document disk, a.0)
        | inr cannot ↦ ground arith
      ]

  pub save_harvest_written :
      (archives : Map Text) (disk disk' : Disk)
      → HasDistinctPaths dir archives
      → save_harvest can_write dir archives disk ≡ (ok tt, disk')
      → All (λ e. lookup (harvest_record dir e.0) disk' ≡ some e.1) archives
  unfolding save_harvest
  save_harvest_written [] disk disk' d h = tt
  save_harvest_written ((name, document) ∷ archives) disk disk' d h =
      elim (Bool-cases (can_write (harvest_record dir name))) [
        | inr cannot ↦ absurd (ground arith)
        | inl can ↦
            let disk₁ = insert (harvest_record dir name) document disk in
            let h' : save_harvest can_write dir archives disk₁ ≡ (ok tt, disk') = ground arith in
            (
              save_harvest_other archives disk₁ disk' (ok tt) (harvest_record dir name) d.0 h'
                  ∙ ground (
                    arith,
                    lookup-insert (harvest_record dir name) (harvest_record dir name) document disk,
                    text_eq_refl (harvest_record dir name),
                  ),
              save_harvest_written archives disk₁ disk' d.1 h',
            )
      ]
