-- ===== src/Layer/Walk.antt =====
-- Properties of the files of a layer, and induction over the copy of a layer.
use rototo.Base.{
  Bool, [], ◌∷◌, ◌≡◌, refl, ap, ◌∙◌, ◌⊎◌, arith, inl, inr, Bool-cases, Option-cases, lookup,
  if◌then◌else◌, Map, is_empty, ok, >>=-eq-ok, Result-cases, Bytes,
}
use mathlib.Core.Path.{subst}
use rototo.Toml.{Toml}
use rototo.Layer.Files.{
  FilePath, Node, Nodes, contents, directory, special, no_nodes, node, file, Files, at, file_at,
  put,
}
use rototo.Layer.Landing.{Landing, beside}
use rototo.Layer.Compose.{compose_package_layer_file}
use rototo.Layer.Siblings.{admit, sibling_entity_key}
use rototo.Layer.Copy.{
  make_folder, clear_folder, is_left_out, Copying, admitted, land_file, copy_entries, copy_entry,
  provenance_name, Sidecar, extend, read_provenance, write_provenance, add_provenance, copying,
  copy_package_layer,
}
use rototo.Layer.Edits.{IsEdit, IsEdit-put}

-- every file of the entries at a path is one of `F`, and every directory one of `D`
unfoldable mutual
  pub Every : (FilePath → Bytes → Bytes → Type 0) → (FilePath → Type 0) → FilePath → Nodes → Type 0
  Every F D dirs no_nodes = Unit
  Every F D dirs (node name entry nodes) = EveryIn F D dirs name entry × Every F D dirs nodes

  pub EveryIn :
      (FilePath → Bytes → Bytes → Type 0) → (FilePath → Type 0) → FilePath → Bytes → Node → Type 0
  EveryIn F D dirs name (contents text) = F dirs name text
  EveryIn F D dirs name (directory nodes) =
      D (beside dirs name) × Every F D (beside dirs name) nodes
  EveryIn F D dirs name special = Unit

module _ {F F' : FilePath → Bytes → Bytes → Type 0} {D D' : FilePath → Type 0}
    (files : (dirs : FilePath) (name text : Bytes) → F dirs name text → F' dirs name text)
    (folders : (path : FilePath) → D path → D' path) where
  mutual
    unfolding Every

    pub Every-map :
        (dirs : FilePath) (nodes : Nodes) → Every F D dirs nodes → Every F' D' dirs nodes
    Every-map dirs no_nodes h = tt
    Every-map dirs (node name entry nodes) (h, t) =
        (EveryIn-map dirs name entry h, Every-map dirs nodes t)

    EveryIn-map :
        (dirs : FilePath) (name : Bytes) (entry : Node)
        → EveryIn F D dirs name entry
        → EveryIn F' D' dirs name entry
    EveryIn-map dirs name (contents text) h = files dirs name text h
    EveryIn-map dirs name (directory nodes) (h, t) =
        (folders (beside dirs name) h, Every-map (beside dirs name) nodes t)
    EveryIn-map dirs name special h = tt

module _ (F G : FilePath → Bytes → Bytes → Type 0) (D E : FilePath → Type 0) where
  mutual
    unfolding Every

    pub Every-both :
        (dirs : FilePath) (nodes : Nodes)
        → Every F D dirs nodes
        → Every G E dirs nodes
        → Every (λ d n t. F d n t × G d n t) (λ p. D p × E p) dirs nodes
    Every-both dirs no_nodes h k = tt
    Every-both dirs (node name entry nodes) (h, t) (k, u) =
        (EveryIn-both dirs name entry h k, Every-both dirs nodes t u)

    EveryIn-both :
        (dirs : FilePath) (name : Bytes) (entry : Node)
        → EveryIn F D dirs name entry
        → EveryIn G E dirs name entry
        → EveryIn (λ d n t. F d n t × G d n t) (λ p. D p × E p) dirs name entry
    EveryIn-both dirs name (contents text) h k = (h, k)
    EveryIn-both dirs name (directory nodes) (h, t) (k, u) =
        ((h, k), Every-both (beside dirs name) nodes t u)
    EveryIn-both dirs name special h k = tt

mutual
  unfolding Every

  pub Every-unit : (dirs : FilePath) (nodes : Nodes) → Every (λ d n t. Unit) (λ p. Unit) dirs nodes
  Every-unit dirs no_nodes = tt
  Every-unit dirs (node name entry nodes) = (EveryIn-unit dirs name entry, Every-unit dirs nodes)

  EveryIn-unit :
      (dirs : FilePath) (name : Bytes) (entry : Node)
      → EveryIn (λ d n t. Unit) (λ p. Unit) dirs name entry
  EveryIn-unit dirs name (contents text) = tt
  EveryIn-unit dirs name (directory nodes) = (tt, Every-unit (beside dirs name) nodes)
  EveryIn-unit dirs name special = tt

module _ (T : Toml) (c : Copying) where
  admitted-files :
      (s : Landing) (path : FilePath) (text : Bytes) (skip : Bool) (claimed : Landing)
      → admitted T c s path text ≡ ok (skip, claimed)
      → s.files ≡ claimed.files
  unfolding admit
  admitted-files s path text skip claimed h = elim (Bool-cases c.siblings) [
    | inr e ↦ ground (arith, h)
    | inl e ↦ elim (Option-cases (lookup s.provided (sibling_entity_key path))) [
      | inl d ↦ ground (arith, h)
      | inr (owner, d) ↦ ground (arith, h)
    ]
  ]

  -- A file that lands is skipped, or composed where no directory is in the way.
  pub land_file-cases :
      (dirs : FilePath) (name text : Bytes) (s next : Landing)
      → land_file T c dirs name text s ≡ ok next
      → ((clear_folder (beside dirs name) s).files ≡ next.files)
        ⊎ ((claimed : Landing) × ((clear_folder (beside dirs name) s).files ≡ claimed.files)
            × (compose_package_layer_file T c.who c.layer claimed dirs name text ≡ ok next))
  unfolding land_file
  land_file-cases dirs name text s next h =
      let cleared = clear_folder (beside dirs name) s in
      elim (Result-cases (admitted T c cleared (beside dirs name) text)) [
        | inr (e, d) ↦ ground (arith, h)
        | inl ((skip, claimed), d) ↦
            let same = admitted-files cleared (beside dirs name) text skip claimed d in
            elim (Bool-cases skip) [
              | inl e ↦
                  let last : claimed ≡ next = ground (arith, h) in
                  inl (same ∙ ap (λ n. n.files) last)
              | inr e ↦ inr (claimed, same, ground (arith, h))
            ]
      ]

  module _ (F : FilePath → Bytes → Bytes → Type 0) (D : FilePath → Type 0) (Holds : Files → Type 0)
      (lands : (dirs : FilePath) (name text : Bytes) (s next : Landing)
        → F dirs name text
        → Holds s.files
        → land_file T c dirs name text s ≡ ok next
        → Holds next.files)
      (makes : (path : FilePath) (s : Landing)
        → D path
        → Holds s.files
        → Holds (make_folder path s).files) where
    mutual
      unfolding Every copy_entries

      -- What every step keeps holds behind the copy of a directory.
      pub copy_entries-Holds :
          (dirs : FilePath) (nodes : Nodes) (s next : Landing)
          → Every F D dirs nodes
          → Holds s.files
          → copy_entries T c dirs nodes s ≡ ok next
          → Holds next.files
      copy_entries-Holds dirs no_nodes s next h holds done =
          let last : s ≡ next = ground (arith, done) in subst (λ n. Holds n.files) last holds
      copy_entries-Holds dirs (node name entry nodes) s next (h, t) holds done =
          let (landed, first, rest) =
            >>=-eq-ok
              (if is_left_out c.include_manifest dirs name
                then ok s
                else copy_entry T c dirs name entry s)
              _ done in
          elim (Bool-cases (is_left_out c.include_manifest dirs name)) [
            | inl e ↦
                let skipped : s ≡ landed = ground (arith, first) in
                copy_entries-Holds dirs nodes landed next t
                  (subst (λ n. Holds n.files) skipped holds) rest
            | inr e ↦
                copy_entries-Holds dirs nodes landed next t
                  (copy_entry-Holds dirs name entry s landed h holds (ground (arith, first))) rest
          ]

      copy_entry-Holds :
          (dirs : FilePath) (name : Bytes) (entry : Node) (s next : Landing)
          → EveryIn F D dirs name entry
          → Holds s.files
          → copy_entry T c dirs name entry s ≡ ok next
          → Holds next.files
      copy_entry-Holds dirs name (contents text) s next h holds done =
          lands dirs name text s next h holds done
      copy_entry-Holds dirs name (directory nodes) s next (h, t) holds done =
          copy_entries-Holds (beside dirs name) nodes (make_folder (beside dirs name) s) next t
            (makes (beside dirs name) s h holds) done
      copy_entry-Holds dirs name special s next h holds done = cc

module _ (T : Toml) (J : Sidecar) where
  -- Behind the copy, the sidecar alone is written.
  pub add_provenance-IsEdit :
      (s next : Landing)
      → add_provenance T J s ≡ ok next
      → IsEdit (provenance_name ∷ []) s.files next.files
  unfolding add_provenance write_provenance
  add_provenance-IsEdit s next done p d =
      let merged =
        extend T J (read_provenance T J (file_at s.files (provenance_name ∷ []))) s.recorded in
      elim (Bool-cases (is_empty s.recorded)) [
        | inl e ↦ let last : s ≡ next = ground (arith, done) in rw last refl
        | inr e ↦ elim (Result-cases (J.print_labels merged)) [
          | inr (_, f) ↦ absurd (ground (arith, done))
          | inl (text, f) ↦
              let files : put s.files (provenance_name ∷ []) (file text) ≡ next.files =
                ground (arith, done) in
              subst (λ fs. at fs p ≡ at s.files p) files
                (IsEdit-put s.files (provenance_name ∷ []) text p d)
        ]
      ]

  pub copy_package_layer-steps :
      (layer : Nodes) (include_manifest : Bool) (label : Bytes) (siblings : Bool) (files : Files)
      (provided : Map Bytes) (next : Landing)
      → copy_package_layer T J layer include_manifest label siblings files provided ≡ ok next
      → (landed : Landing) × (copy_entries T
            (copying T J layer include_manifest label siblings)
            []
            layer
            (make_folder [] (record { files = files; recorded = []; provided = provided }))
          ≡ ok landed)
        × (add_provenance T J landed ≡ ok next)
  unfolding copy_package_layer
  copy_package_layer-steps layer include_manifest label siblings files provided next done =
      >>=-eq-ok
        (copy_entries T (copying T J layer include_manifest label siblings) [] layer
          (make_folder [] (record { files = files; recorded = []; provided = provided })))
        _ done
