-- ===== src/Address/Class.antt =====
-- src/address.rs, `EntityClass`: the classes that a step may name, and their names.
use rototo.Base.{
  Bool, true, false, List, [], ◌∷◌, Option, none, some, ◌≡◌, refl, arith, Bytes, codes, text_eq,
  text_eq_iff, Lacks, if◌then◌else◌,
}

pub data EntityClass : Type 0 where
  package_class manifest governance variable catalog entry list : EntityClass
  evaluation_context sample layer linter : EntityClass

-- `EntityClass::ALL`
abbrev pub all_classes : List EntityClass
all_classes =
    package_class ∷ manifest ∷ governance ∷ variable ∷ catalog ∷ entry ∷ list ∷ evaluation_context
    ∷ sample ∷ layer ∷ linter ∷ []

unfoldable pub as_str : EntityClass → Bytes
as_str package_class = codes "package"
as_str manifest = codes "manifest"
as_str governance = codes "governance"
as_str variable = codes "variable"
as_str catalog = codes "catalog"
as_str entry = codes "entry"
as_str list = codes "list"
as_str evaluation_context = codes "evaluation-context"
as_str sample = codes "sample"
as_str layer = codes "layer"
as_str linter = codes "linter"

-- `.find(|class| class.as_str() == name)`
find_named : Bytes → List EntityClass → Option EntityClass
find_named name [] = none
find_named name (class ∷ classes) =
    if text_eq (as_str class) name then some class else find_named name classes

unfoldable pub parse_name : Bytes → Option EntityClass
unfolding find_named as_str text_eq
parse_name name = find_named name all_classes

unfoldable pub is_singleton : EntityClass → Bool
is_singleton package_class = true
is_singleton manifest = true
is_singleton governance = true
is_singleton _ = false

unfoldable pub parent : EntityClass → Option EntityClass
parent entry = some catalog
parent sample = some evaluation_context
parent _ = none

unfoldable pub has_document : EntityClass → Bool
has_document package_class = false
has_document linter = false
has_document _ = true

unfoldable pub is_package : EntityClass → Bool
is_package package_class = true
is_package _ = false

-- Every class is found by its own name.
pub parse_name-as_str : (c : EntityClass) → parse_name (as_str c) ≡ some c
unfolding parse_name
parse_name-as_str package_class = refl
parse_name-as_str _ = refl

find_named-eq-some :
    (name : Bytes) (classes : List EntityClass) (c : EntityClass)
    → find_named name classes ≡ some c
    → as_str c ≡ name
unfolding find_named
find_named-eq-some name [] c h = cc
find_named-eq-some name (d ∷ classes) c h =
    ground (arith, text_eq_iff (as_str d) name, find_named-eq-some name classes c)

-- A class that is found has the name that was asked for.
pub parse_name-eq-some :
    (name : Bytes) (c : EntityClass) → parse_name name ≡ some c → as_str c ≡ name
parse_name-eq-some name c h = find_named-eq-some name all_classes c (unfold parse_name in h)

-- No class name holds a byte by which addresses are cut.
pub as_str-Lacks_hash : (c : EntityClass) → Lacks b'#' (as_str c)
unfolding as_str
as_str-Lacks_hash package_class = omega arith
as_str-Lacks_hash _ = omega arith

pub as_str-Lacks_colon : (c : EntityClass) → Lacks b':' (as_str c)
unfolding as_str
as_str-Lacks_colon package_class = omega arith
as_str-Lacks_colon _ = omega arith

pub as_str-Lacks_equals : (c : EntityClass) → Lacks b'=' (as_str c)
unfolding as_str
as_str-Lacks_equals package_class = omega arith
as_str-Lacks_equals _ = omega arith

unfoldable pub EntityClass-discrete : Discrete EntityClass
EntityClass-discrete = hlevel
