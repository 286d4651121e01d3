-- ===== src/Layer/Enforced.antt =====
-- An enforcement that passes has passed every file of the layer.
use rototo.Base.{some, none, ◌≡◌, ok, >>-eq-ok, Bytes}
use rototo.Toml.{Toml}
use rototo.Governance.Contract.{GovernanceContract}
use rototo.Layer.Files.{FilePath, Nodes, contents, directory, special, no_nodes, node, Files}
use rototo.Layer.Landing.{beside}
use rototo.Layer.Enforce.{check_changed_file, enforce_files, enforce_folders, enforce_folder}
use rototo.Layer.Walk.{Every}

module _ (T : Toml) (contract : GovernanceContract) (layer : Nodes) (files : Files) where
  abbrev pub Passed : FilePath → Bytes → Bytes → Type 0
  Passed dirs name text = check_changed_file T contract layer files dirs name (some text) ≡ ok tt

  pub enforced :
      (dirs : FilePath) (nodes : Nodes)
      → enforce_files T contract layer files dirs nodes ≡ ok tt
      → enforce_folders T contract layer files dirs nodes ≡ ok tt
      → Every Passed (λ p. Unit) dirs nodes
  unfolding Every enforce_files enforce_folders
  enforced dirs no_nodes f g = tt
  enforced dirs (node name (contents text) nodes) f g =
      let (passed, f') =
        >>-eq-ok (check_changed_file T contract layer files dirs name (some text))
          (enforce_files T contract layer files dirs nodes) f in
      let (g', _) = >>-eq-ok (enforce_folders T contract layer files dirs nodes) (ok tt) g in
      (passed, enforced dirs nodes f' g')
  enforced dirs (node name special nodes) f g =
      let (_, f') =
        >>-eq-ok (check_changed_file T contract layer files dirs name none)
          (enforce_files T contract layer files dirs nodes) f in
      let (g', _) = >>-eq-ok (enforce_folders T contract layer files dirs nodes) (ok tt) g in
      (tt, enforced dirs nodes f' g')
  enforced dirs (node name (directory inner) nodes) f g =
      let (g', h) =
        >>-eq-ok (enforce_folders T contract layer files dirs nodes)
          (enforce_folder T contract layer files (beside dirs name) (directory inner)) g in
      let (f', k) =
        >>-eq-ok (enforce_files T contract layer files (beside dirs name) inner)
          (enforce_folders T contract layer files (beside dirs name) inner) h in
      ((tt, enforced (beside dirs name) inner f' k), enforced dirs nodes f g')
