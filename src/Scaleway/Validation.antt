-- ===== src/Scaleway/Validation.antt =====
-- src/scaleway.rs: the checks of zones, regions and types against fixed lists.
use scaleway_operator.Prelude.{String, List, [], ◌∷◌, contains, format, if◌then◌else◌}
use scaleway_operator.Error.{invalid_zone, config_error, invalid_lb_type, invalid_instance_type}
use scaleway_operator.Runtime.Exec.{Result, ok, err}

abbrev pub valid_zones : List String
valid_zones = "fr-par-1" ∷ "fr-par-2" ∷ "nl-ams-1" ∷ "pl-waw-1" ∷ "sg-sin-1" ∷ "it-mil-1" ∷ []

abbrev pub valid_regions : List String
valid_regions = "fr-par" ∷ "nl-ams" ∷ "pl-waw" ∷ []

abbrev pub valid_lb_types : List String
valid_lb_types = "LB-S" ∷ "LB-GP" ∷ []

abbrev pub valid_instance_types : List String
valid_instance_types =
    "DEV1-S" ∷ "DEV1-M" ∷ "DEV1-L" ∷ "DEV1-XL" ∷ "GP1-XS" ∷ "GP1-S" ∷ "GP1-M" ∷ "GP1-L" ∷ "GP1-XL"
    ∷ "CPU1-XS" ∷ "CPU1-S" ∷ "CPU1-M" ∷ "CPU1-L" ∷ "GPU-3090" ∷ "GPU-4090" ∷ []

unfoldable pub validate_zone : String → Result (Unit {0})
validate_zone zone = if contains valid_zones zone then ok tt else err (invalid_zone zone)

unfoldable pub validate_region : String → Result (Unit {0})
validate_region region =
    if contains valid_regions region
    then ok tt
    else err (
        config_error
          (format ("Invalid region '" ∷ region ∷ "'. Use one of: fr-par, nl-ams, pl-waw." ∷ [])))

unfoldable pub validate_lb_type : String → Result (Unit {0})
validate_lb_type lb_type =
    if contains valid_lb_types lb_type then ok tt else err (invalid_lb_type lb_type)

unfoldable pub validate_instance_type : String → Result (Unit {0})
validate_instance_type instance_type =
    if contains valid_instance_types instance_type
    then ok tt
    else err (invalid_instance_type instance_type)
