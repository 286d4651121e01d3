-- ===== src/Governance/ParsedItems.antt =====
-- The names of operations and the insertion of blocks, of src/source/governance.rs.
use rototo.Base.{
  true, ◌&&◌, [], ◌∷◌, some, ◌≡◌, ◌↔◌, refl, arith, if◌then◌else◌, Bytes, codes, text_eq,
  text_eq-eq,
}
use rototo.Governance.Contract.{Operation, add, update, delete, Gate, Blocks, find_block}
use rototo.Governance.Parse.{operation_name, parse_operation, insert_block}

-- A name parses to an operation exactly when it is the name of the operation.
pub parse_operation_iff :
    (name : Bytes) (o : Operation) → (parse_operation name ≡ some o) ↔ (name ≡ operation_name o)
unfolding parse_operation operation_name
parse_operation_iff name o = (to o, from o)
  where
    to : (o : Operation) → parse_operation name ≡ some o → name ≡ operation_name o
    to add h = text_eq-eq name (codes "add") (ground (arith, h))
    to update h = text_eq-eq name (codes "update") (ground (arith, h))
    to delete h = text_eq-eq name (codes "delete") (ground (arith, h))

    from : (o : Operation) → name ≡ operation_name o → parse_operation name ≡ some o
    from add h = unfold text_eq in rw h refl
    from update h = unfold text_eq in rw h refl
    from delete h = unfold text_eq in rw h refl

pub text_eq-left : (x y z : Bytes) → text_eq x y ≡ true → text_eq x z ≡ text_eq y z
text_eq-left x y z h = let same = text_eq-eq x y h in rw same

text_eq-right : (x y z : Bytes) → text_eq x y ≡ true → text_eq z x ≡ text_eq z y
text_eq-right x y z h = let same = text_eq-eq x y h in rw same

pub find_block-insert_block :
    (blocks : Blocks) (k i kind id : Bytes) (g : Gate)
    → find_block (insert_block blocks k i g) kind id
      ≡ (if text_eq k kind && text_eq i id then some g else find_block blocks kind id)
unfolding find_block insert_block
find_block-insert_block [] k i kind id g = refl
find_block-insert_block ((k', i', g') ∷ blocks) k i kind id g = ground (
  arith,
  text_eq-left k' k kind,
  text_eq-left i' i id,
  text_eq-right k kind k',
  text_eq-right i id i',
  find_block-insert_block blocks k i kind id g,
)
