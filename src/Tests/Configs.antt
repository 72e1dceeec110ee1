-- ===== src/Tests/Configs.antt =====
-- The configuration at concrete inputs.
use podwatcher.Prelude.{◌≡◌, refl, String, Option, none, some, ◌==◌, pos, parse_int, if◌then◌else◌}
use podwatcher.Checked.{ok}
use podwatcher.Config.{Config, default_config, load_config, override, override_count, override_text}
use podwatcher.Config.Precedence.{Describes, load_config-Describes}

-- a limit of 70 records, and one that is no number
abbrev getenv : String → String
getenv name =
    if name == "PODWATCHER_POD_RECORDS_MAX"
    then "70"
    else if name == "PODWATCHER_APPLICATIONS_MAX"
    then "many"
    else ""

abbrev read_file : String → Option String
read_file path = if path == "podwatcher.yaml" then some "pods" else none

-- the file sets both limits
abbrev unmarshal : String → Config → Option Config
unmarshal text cfg =
    some (record cfg {
      pods = record cfg.pods { max_applications = pos 40; max_pod_records = pos 50 };
    })

abbrev loaded : Config
loaded = record default_config {
  pods = record default_config.pods { max_applications = pos 40; max_pod_records = pos 70 };
}

from_all_three : load_config getenv read_file unmarshal "podwatcher.yaml" ≡ ok loaded
unfolding load_config override override_count override_text default_config parse_int
from_all_three = refl

load_config-Describes_example :
    Describes getenv read_file unmarshal "podwatcher.yaml"
      (load_config getenv read_file unmarshal "podwatcher.yaml")
load_config-Describes_example = load_config-Describes getenv read_file unmarshal "podwatcher.yaml"
