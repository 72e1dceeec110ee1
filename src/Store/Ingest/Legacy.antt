-- ===== src/Store/Ingest/Legacy.antt =====
-- internal/store/legacy.go: the two files of the old layout. Their decoders, the standard library's
-- JSON, are arguments.
use podwatcher.Prelude.{String, Option, none, some, List, []}
use podwatcher.Store.{Store, ApplicationRecord, PodRecord}
use podwatcher.Store.Ingest.{import_legacy}

-- `applications` reads a bare array, `wrapped` the records of the layout with a revision counter.
pub record Decoders : Type 0 where
  pub applications : String → Option (List ApplicationRecord)
  pub wrapped : String → Option (List ApplicationRecord)
  pub pods : String → Option (List PodRecord)

abbrev pub or_none {ℓ} : {A : Type ℓ} → Option (List A) → List A
or_none none = []
or_none (some xs) = xs

-- A file is the text that is read, or none.
unfoldable pub read_legacy_applications : Decoders → Option String → List ApplicationRecord
read_legacy_applications decoders none = []
read_legacy_applications decoders (some text) = elim (decoders.applications text) [
  | some records ↦ records
  | none ↦ or_none (decoders.wrapped text)
]

unfoldable pub read_legacy_pods : Decoders → Option String → List PodRecord
read_legacy_pods decoders none = []
read_legacy_pods decoders (some text) = or_none (decoders.pods text)

unfoldable pub import_legacy_files : Decoders → (app_file pod_file : Option String) → Store → Store
unfolding read_legacy_applications read_legacy_pods import_legacy
import_legacy_files decoders app_file pod_file s =
    import_legacy (read_legacy_applications decoders app_file) (read_legacy_pods decoders pod_file)
      s
