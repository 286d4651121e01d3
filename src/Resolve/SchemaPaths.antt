-- ===== src/Resolve/SchemaPaths.antt =====
-- `resolve_relative_schema_uri` of src/resolve/hydrate.rs on the segments of paths.
use rototo.Base.{false, ◌≡◌, Bytes, Lacks}
use rototo.Resolve.SchemaRef.{is_current, is_parent}

-- neither empty nor `.` nor `..`
abbrev pub IsPlain : Bytes → Type 0
IsPlain segment = (is_current segment ≡ false) × (is_parent segment ≡ false)

-- a segment of a path that leads down
abbrev IsSegment : Bytes → Type 0
IsSegment segment = IsPlain segment × Lacks b'/' segment
