-- ===== src/Config/Load/Merge.antt =====
-- What the defaults and the file are merged into, for every outcome of reading the file.
use floodgate.Common.{String, Option, none, some, List, ◌≡◌, ◌↔◌, ◌⊎◌, inl, inr, refl, ap, sym}
use floodgate.Value.{Value, Fields}
use floodgate.Config.{default_config, ConfigError, Result, ok, raised}
use floodgate.Config.Load.{
  Machine, Key, FileRead, missing, yaml_error, os_error, crash, document, empty, mapping,
  scalar_or_list, merged, merge_file, update, as_load_error,
}
use floodgate.Config.Load.Keys.{HasKnownKeys, merge_document_iff}

-- An empty file changes nothing; a mapping of known keys updates the defaults.
abbrev pub IsMergedFile : FileRead → Fields → Type 0
IsMergedFile file d =
    ((file ≡ document empty) × (d ≡ default_config))
    ⊎ ((m : List (Key × Value)) × (file ≡ document (mapping m))
        × HasKnownKeys m
        × (d ≡ update default_config m))

abbrev pub IsMerged : Machine → Option String → Fields → Type 0
IsMerged machine none d = d ≡ default_config
IsMerged machine (some path) d = IsMergedFile (machine.read_file path) d

as_load_error-ok : (r : Result ConfigError Fields) (d : Fields) → as_load_error r ≡ ok d → r ≡ ok d
as_load_error-ok (ok d) e h = cc
as_load_error-ok (raised p) e h = cc

merge_file_sound :
    (path : String) (file : FileRead) (d : Fields)
    → merge_file path file ≡ ok d
    → IsMergedFile file d
unfolding merge_file
merge_file_sound path missing d h = cc
merge_file_sound path yaml_error d h = cc
merge_file_sound path os_error d h = cc
merge_file_sound path crash d h = cc
merge_file_sound path (document empty) d h = inl (refl, cc)
merge_file_sound path (document (scalar_or_list v)) d h = cc
merge_file_sound path (document (mapping m)) d h =
    let (k, e) = (merge_document_iff path m d).0 (as_load_error-ok _ d h) in inr (m, refl, k, e)

merge_file_complete :
    (path : String) (file : FileRead) (d : Fields)
    → IsMergedFile file d
    → merge_file path file ≡ ok d
merge_file_complete path file d (inl (f, e)) =
    unfold merge_file in rw (f, merge_file) (ap ok (sym e))
merge_file_complete path file d (inr (m, f, k, e)) =
    let done = (merge_document_iff path m d).1 (k, e) in
    unfold merge_file in rw (f, merge_file, done) refl

pub merged_iff :
    (machine : Machine) (path : Option String) (d : Fields)
    → (merged machine path ≡ ok d) ↔ IsMerged machine path d
unfolding merged
merged_iff machine none d = (λ h. cc, λ e. ap ok (sym e))
merged_iff machine (some path) d = (
  merge_file_sound path (machine.read_file path) d,
  merge_file_complete path (machine.read_file path) d,
)
