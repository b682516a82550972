-- ===== src/Registry/Parse.antt =====
-- scripts/inspect-wine-device-registry.py: `parse_registry`. The lines come without their line ends, and
-- `lower` stands for `str.lower`. The dictionary is a list of its keys and values.
use Prim.Native.String.{[], ◌∷◌}
use Prim.Native.Char.{code}
use uu_remote_ubuntu_bridge.Prelude.{String, Option, none, some, ◌==◌, ◌++◌, str_eq, if◌then◌else◌}
use mathlib.Core.List.{List}
use uu_remote_ubuntu_bridge.Registry.{begins_text}

abbrev pub Dictionary : Type 0
Dictionary = List (String × List String)

-- `sections[name] = body`
unfoldable pub assign : String → List String → Dictionary → Dictionary
assign name body List.[] = List.◌∷◌ (name, body) List.[]
assign name body (List.◌∷◌ (key, old) rest) =
    if str_eq key name
    then List.◌∷◌ (key, body) rest
    else List.◌∷◌ (key, old) (assign name body rest)

-- `sections.get(name)`
unfoldable pub lookup : String → Dictionary → Option (List String)
lookup name List.[] = none
lookup name (List.◌∷◌ (key, body) rest) = if str_eq key name then some body else lookup name rest

-- `text[: text.rfind("] ")]`, if the text has such a place.
unfoldable pub until_last : String → Option String
until_last [] = none
until_last (c ∷ s) = longer (until_last s)
  where
    longer : Option String → Option String
    longer none = if begins_text "] " (c ∷ s) then some "" else none
    longer (some t) = some (c ∷ t)

module _ (lower : String → String) where
  abbrev lowered : Option String → Option String
  lowered none = none
  lowered (some s) = some (lower s)

  -- The name of a section whose first line this is.
  unfoldable pub header_name : String → Option String
  unfolding until_last
  header_name [] = none
  header_name (c ∷ s) = if code c == 91 then lowered (until_last s) else none

  -- The section that is being read, put into the dictionary.
  abbrev pub closed : Option (String × List String) → Dictionary → Dictionary
  closed none d = d
  closed (some (name, body)) d = assign name body d

  abbrev pub extended : String → Option (String × List String) → Option (String × List String)
  extended line none = none
  extended line (some (name, body)) = some (name, body ++ List.◌∷◌ line List.[])

  unfoldable pub parse_lines : List String → Option (String × List String) → Dictionary → Dictionary
  parse_lines List.[] current d = closed current d
  parse_lines (List.◌∷◌ line lines) current d = elim (header_name line) [
    | none ↦ parse_lines lines (extended line current) d
    | some name ↦ parse_lines lines (some (name, List.[])) (closed current d)
  ]

  unfoldable pub parse_registry : List String → Dictionary
  parse_registry lines = parse_lines lines none List.[]
