-- ===== src/Governance/Parsed.antt =====
-- The contract that is read from a document of src/source/governance.rs, against the document.
use rototo.Base.{
  true, false, Option, none, some, ◌≡◌, refl, sym, ap, ◌∙◌, arith, inl, inr, Bool-cases,
  if◌then◌else◌, Bytes, codes, text_eq, text_eq-eq,
}
use rototo.Toml.{Value, Table, string, scalar, array, table, end_table, pair, get}
use rototo.Toml.Fields.{IsProper, IsProperTable}
use rototo.Governance.Contract.{Gate, Blocks, GovernanceContract, find_block, gate, or_else}
use rototo.Governance.ParsedItems.{text_eq-left, find_block-insert_block}
use rototo.Governance.Parse.{
  insert_block, parse_gate, parse_blocks, parse_kinds, empty_contract, parse_contract,
}

or_else-none : (o : Option Gate) → or_else o none ≡ o
or_else-none none = refl
or_else-none (some g) = refl

module _ {S : Type 0} where
  -- the gate that a block of the document is
  abbrev gate_in : Option (Value S) → Option Gate
  gate_in none = none
  gate_in (some (table block)) = some (parse_gate block)
  gate_in (some _) = none

  abbrev blocks_in : Option (Value S) → Bytes → Option Gate
  blocks_in none id = none
  blocks_in (some (table blocks)) id = gate_in (get blocks id)
  blocks_in (some _) id = none

  -- the gate of a document for an entity, and that of its defaults
  abbrev pub declared_gate : Table S → Bytes → Bytes → Option Gate
  declared_gate root kind id =
      if text_eq kind (codes "defaults") then none else blocks_in (get root kind) id

  get_same :
      (fields : Table S) (i id : Bytes)
      → get fields i ≡ none
      → text_eq i id ≡ true
      → get fields id ≡ none
  get_same fields i id new e = let same = text_eq-eq i id e in rw (sym same) new

  -- a pair that is no table says nothing
  gate_in-skip :
      (fields : Table S) (i id : Bytes) (v : Value S)
      → get fields i ≡ none
      → gate_in (some v) ≡ none
      → gate_in (get (pair i v fields) id) ≡ gate_in (get fields id)
  unfolding get
  gate_in-skip fields i id v new h = elim (Bool-cases (text_eq i id)) [
    | inl e ↦ let absent = get_same fields i id new e in ground (arith, h)
    | inr e ↦ ground arith
  ]

  blocks_in-skip :
      (root : Table S) (k kind id : Bytes) (v : Value S)
      → get root k ≡ none
      → blocks_in (some v) id ≡ none
      → blocks_in (get (pair k v root) kind) id ≡ blocks_in (get root kind) id
  unfolding get
  blocks_in-skip root k kind id v new h = elim (Bool-cases (text_eq k kind)) [
    | inl e ↦ let absent = get_same root k kind new e in ground (arith, h)
    | inr e ↦ ground arith
  ]

  parse_blocks-find :
      (fields : Table S) (k kind id : Bytes) (blocks : Blocks)
      → IsProperTable fields
      → find_block (parse_blocks k fields blocks) kind id ≡ (
          if text_eq k kind
          then or_else (gate_in (get fields id)) (find_block blocks kind id)
          else find_block blocks kind id)
  unfolding parse_blocks get IsProper
  parse_blocks-find end_table k kind id blocks h = ground arith
  parse_blocks-find (pair i (table block) fields) k kind id blocks (new, _, h) =
      let ih = parse_blocks-find fields k kind id (insert_block blocks k i (parse_gate block)) h in
      let inserted = find_block-insert_block blocks k i kind id (parse_gate block) in
      elim (Bool-cases (text_eq i id)) [
        | inl e ↦ elim (Bool-cases (text_eq k kind)) [
          | inl d ↦ rw (e, d) (ih ∙ rw (d, get_same fields i id new e) (inserted ∙ rw (d, e) refl))
          | inr d ↦ rw d (ih ∙ rw d (inserted ∙ rw d refl))
        ]
        | inr e ↦ elim (Bool-cases (text_eq k kind)) [
          | inl d ↦
              rw (e, d)
                (ih ∙ rw d (ap (or_else (gate_in (get fields id))) (inserted ∙ rw (d, e) refl)))
          | inr d ↦ rw d (ih ∙ rw d (inserted ∙ rw d refl))
        ]
      ]
  parse_blocks-find (pair i (string v) fields) k kind id blocks (new, _, h) =
      rw (gate_in-skip fields i id (string v) new refl)
        (parse_blocks-find fields k kind id blocks h)
  parse_blocks-find (pair i (scalar v) fields) k kind id blocks (new, _, h) =
      rw (gate_in-skip fields i id (scalar v) new refl)
        (parse_blocks-find fields k kind id blocks h)
  parse_blocks-find (pair i (array v) fields) k kind id blocks (new, _, h) =
      rw (gate_in-skip fields i id (array v) new refl) (parse_blocks-find fields k kind id blocks h)

  parse_kinds-defaults :
      (k : Bytes) (blocks root : Table S) (c : GovernanceContract)
      → text_eq k (codes "defaults") ≡ true
      → parse_kinds (pair k (table blocks) root) c
        ≡ parse_kinds root (record c { defaults = some (parse_gate blocks) })
  unfolding parse_kinds
  parse_kinds-defaults k blocks root c e = rw (parse_kinds, e) refl

  parse_kinds-blocks :
      (k : Bytes) (blocks root : Table S) (c : GovernanceContract)
      → text_eq k (codes "defaults") ≡ false
      → parse_kinds (pair k (table blocks) root) c
        ≡ parse_kinds root (record c { blocks = parse_blocks k blocks c.blocks })
  unfolding parse_kinds
  parse_kinds-blocks k blocks root c e = rw (parse_kinds, e) refl

  parse_kinds-gate :
      (root : Table S) (kind id : Bytes) (c : GovernanceContract)
      → IsProperTable root
      → gate (parse_kinds root c) kind id ≡ or_else (declared_gate root kind id) (gate c kind id)
  unfolding parse_kinds get IsProper
  parse_kinds-gate end_table kind id c h = ground arith
  parse_kinds-gate (pair k (table blocks) root) kind id c (new, hb, h) =
      elim (Bool-cases (text_eq k (codes "defaults"))) [
        | inl e ↦
            let first = ap (λ o. gate o kind id) (parse_kinds-defaults k blocks root c e) in
            let ih =
              parse_kinds-gate root kind id (record c { defaults = some (parse_gate blocks) }) h in
            elim (Bool-cases (text_eq k kind)) [
              | inl d ↦
                  let same : text_eq kind (codes "defaults") ≡ true =
                    sym (text_eq-left k kind (codes "defaults") d) ∙ e in
                  first ∙ ih ∙ rw same refl
              | inr d ↦ first ∙ ih ∙ rw d refl
            ]
        | inr e ↦
            let first = ap (λ o. gate o kind id) (parse_kinds-blocks k blocks root c e) in
            let ih =
              parse_kinds-gate root kind id (record c { blocks = parse_blocks k blocks c.blocks })
                h in
            let inner = parse_blocks-find blocks k kind id c.blocks hb in
            elim (Bool-cases (text_eq k kind)) [
              | inl d ↦
                  let other : text_eq kind (codes "defaults") ≡ false =
                    sym (text_eq-left k kind (codes "defaults") d) ∙ e in
                  first ∙ ih ∙ rw (other, get_same root k kind new d) (inner ∙ rw d refl)
              | inr d ↦
                  first ∙ ih ∙ rw d (ap (or_else (declared_gate root kind id)) (inner ∙ rw d refl))
            ]
      ]
  parse_kinds-gate (pair k (string v) root) kind id c (new, _, h) =
      rw (blocks_in-skip root k kind id (string v) new refl) (parse_kinds-gate root kind id c h)
  parse_kinds-gate (pair k (scalar v) root) kind id c (new, _, h) =
      rw (blocks_in-skip root k kind id (scalar v) new refl) (parse_kinds-gate root kind id c h)
  parse_kinds-gate (pair k (array v) root) kind id c (new, _, h) =
      rw (blocks_in-skip root k kind id (array v) new refl) (parse_kinds-gate root kind id c h)

  -- the gate of the defaults
  abbrev pub declared_defaults : Table S → Option Gate
  declared_defaults root = gate_in (get root (codes "defaults"))

  parse_kinds-default :
      (root : Table S) (c : GovernanceContract)
      → IsProperTable root
      → (parse_kinds root c).defaults ≡ or_else (declared_defaults root) c.defaults
  unfolding parse_kinds get IsProper
  parse_kinds-default end_table c h = refl
  parse_kinds-default (pair k (table blocks) root) c (new, _, h) =
      elim (Bool-cases (text_eq k (codes "defaults"))) [
        | inl e ↦
            ap (λ o. o.defaults) (parse_kinds-defaults k blocks root c e)
            ∙ parse_kinds-default root (record c { defaults = some (parse_gate blocks) }) h
            ∙ rw (e, get_same root k (codes "defaults") new e) refl
        | inr e ↦
            ap (λ o. o.defaults) (parse_kinds-blocks k blocks root c e)
            ∙ parse_kinds-default root (record c { blocks = parse_blocks k blocks c.blocks }) h
            ∙ rw e refl
      ]
  parse_kinds-default (pair k (string v) root) c (new, _, h) =
      rw (gate_in-skip root k (codes "defaults") (string v) new refl) (parse_kinds-default root c h)
  parse_kinds-default (pair k (scalar v) root) c (new, _, h) =
      rw (gate_in-skip root k (codes "defaults") (scalar v) new refl) (parse_kinds-default root c h)
  parse_kinds-default (pair k (array v) root) c (new, _, h) =
      rw (gate_in-skip root k (codes "defaults") (array v) new refl) (parse_kinds-default root c h)

  -- For a document whose tables have no key twice, the contract that is read has for each entity
  -- the gate of the document's block for it, none for an entity of the kind `defaults`, and has as
  -- defaults the gate of the block `defaults`.
  pub parse_contract-declares :
      (root : Table S) (kind id : Bytes)
      → IsProper (table root)
      → (gate (parse_contract (table root)) kind id ≡ declared_gate root kind id)
        × ((parse_contract (table root)).defaults ≡ declared_defaults root)
  unfolding parse_contract IsProper find_block
  parse_contract-declares root kind id h = (
    parse_kinds-gate root kind id empty_contract h ∙ or_else-none (declared_gate root kind id),
    parse_kinds-default root empty_contract h ∙ or_else-none (declared_defaults root),
  )
