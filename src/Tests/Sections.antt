-- ===== src/Tests/Sections.antt =====
-- A small registry file, through `parse_registry` of scripts/inspect-wine-device-registry.py.
use uu_remote_ubuntu_bridge.Prelude.{◌≡◌, refl, String, none, some, List, [], ◌∷◌, ◌++◌}
use uu_remote_ubuntu_bridge.Registry.{begins_text}
use uu_remote_ubuntu_bridge.Registry.Parse.{header_name, lookup, parse_registry}
use uu_remote_ubuntu_bridge.Registry.Sections.{Block, Plain, written, last_body, parse_registry_lem}

abbrev lower : String → String
lower s = s

abbrev before : List String
before = "WINE REGISTRY Version 2" ∷ "" ∷ []

before-Plain : Plain lower before
unfolding header_name
before-Plain = (refl, (refl, tt))

first_heading : header_name lower "[system] 17" ≡ some "system"
unfolding header_name begins_text
first_heading = refl

second_heading : header_name lower "[system] 18" ≡ some "system"
unfolding header_name begins_text
second_heading = refl

first_body-Plain : Plain lower ("a" ∷ "" ∷ [])
unfolding header_name
first_body-Plain = (refl, (refl, tt))

second_body-Plain : Plain lower ("b" ∷ [])
unfolding header_name
second_body-Plain = (refl, tt)

abbrev first_block : Block lower
first_block = record {
  heading = "[system] 17";
  name = "system";
  body = "a" ∷ "" ∷ [];
  heading_eq = first_heading;
  plain = first_body-Plain;
}

abbrev second_block : Block lower
second_block = record {
  heading = "[system] 18";
  name = "system";
  body = "b" ∷ [];
  heading_eq = second_heading;
  plain = second_body-Plain;
}

parse_registry_lem_example :
    lookup "system"
      (parse_registry lower (before ++ written lower (first_block ∷ second_block ∷ [])))
    ≡ last_body lower "system" (first_block ∷ second_block ∷ []) none
parse_registry_lem_example =
    parse_registry_lem lower "system" before (first_block ∷ second_block ∷ []) before-Plain
