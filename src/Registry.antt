-- ===== src/Registry.antt =====
-- scripts/inspect-wine-device-registry.py: which keys of UU's Wine registry `inspect` offers for
-- deletion, and the status that it reports. `str.lower` and `str.isdigit` are parameters: they follow
-- tables of Unicode. A section is its name and its lines. The order of the keys is left out: the code
-- sorts them and drops repetitions.
pub mod Deletion
pub mod Parse
pub mod Sections
use Prim.Native.Char.{code}
use Prim.Native.String.{[], ◌∷◌}
use uu_remote_ubuntu_bridge.Prelude.{
  ℕ, zero, suc, String, Bool, true, false, ◌&&◌, ◌||◌, not, Option, none, some, ◌==◌, str_eq,
  if◌then◌else◌, ◌<>◌, leb, ltb, length, ◌++◌,
}
use mathlib.Core.List
use mathlib.Core.List.{List}

pub record Section : Type 0 where
  pub parts : List String
  pub lines : List String

abbrev with_first : (String → String) → List String → List String
with_first f List.[] = List.[]
with_first f (List.◌∷◌ p ps) = List.◌∷◌ (f p) ps

-- `section_parts`: the name split at each pair of backslashes.
unfoldable pub section_parts : String → List String
section_parts [] = List.◌∷◌ "" List.[]
section_parts (c ∷ []) = List.◌∷◌ (c ∷ []) List.[]
section_parts (c ∷ d ∷ s) = elim (code c == 92 && code d == 92) [
  | true ↦ List.◌∷◌ "" (section_parts s)
  | false ↦ with_first (λ (p : String). c ∷ p) (section_parts (d ∷ s))
]

unfoldable pub begins_text : String → String → Bool
begins_text [] t = true
begins_text (c ∷ s) [] = false
begins_text (c ∷ s) (d ∷ t) = code c == code d && begins_text s t

-- `part in text`
unfoldable pub contains : String → String → Bool
contains part [] = begins_text part []
contains part (c ∷ text) = begins_text part (c ∷ text) || contains part text

-- `"\n".join(lines)`
unfoldable pub joined : List String → String
joined List.[] = ""
joined (List.◌∷◌ l List.[]) = l
joined (List.◌∷◌ l (List.◌∷◌ m ls)) = l <> "\n" <> joined (List.◌∷◌ m ls)

-- `parts[: len(prefix)] == prefix`
unfoldable pub begins : List String → List String → Bool
begins List.[] parts = true
begins (List.◌∷◌ p ps) List.[] = false
begins (List.◌∷◌ p ps) (List.◌∷◌ q qs) = str_eq p q && begins ps qs

abbrev pub path_of : String → String → List String
path_of a b = List.◌∷◌ "system" (List.◌∷◌ "controlset001" (List.◌∷◌ a (List.◌∷◌ b List.[])))

abbrev pub under : List String → String → List String
under path name = path ++ List.◌∷◌ name List.[]

unfoldable pub nth : ℕ → List String → String
nth n List.[] = ""
nth zero (List.◌∷◌ p ps) = p
nth (suc n) (List.◌∷◌ p ps) = nth n ps

unfoldable pub chosen : (Section → Bool) → List Section → List Section
chosen test List.[] = List.[]
chosen test (List.◌∷◌ s ss) = let rest = chosen test ss in if test s then List.◌∷◌ s rest else rest

abbrev pub any : List Section → Bool
any List.[] = false
any (List.◌∷◌ s ss) = true

abbrev pub hid_class_guid : String
hid_class_guid = "{745a17a0-74d3-11d0-b6fe-00a0c90f57da}"

abbrev pub mouse_class_guid : String
mouse_class_guid = "{4d36e96f-e325-11ce-bfc1-08002be10318}"

-- A six-part key right under Enum\ROOT\<name>.
unfoldable pub is_root : String → Section → Bool
is_root name s = length s.parts == 6 && begins (under (path_of "enum" "root") name) s.parts

-- `parts[:4] == [..., "enum", "winebth"]`, and the devices among these
unfoldable pub is_winebth : Section → Bool
is_winebth s = begins (path_of "enum" "winebth") s.parts

unfoldable pub is_winebth_device : Section → Bool
is_winebth_device s = is_winebth s && leb 6 (length s.parts) && str_eq (nth 4 s.parts) "device"

unfoldable pub is_service : Section → Bool
is_service s =
    begins (path_of "services" "gvinput") s.parts || begins (path_of "services" "gvinputmf") s.parts

-- `windows_key`; `none` where it raises.
unfoldable pub joined_path : List String → String
joined_path List.[] = ""
joined_path (List.◌∷◌ p List.[]) = p
joined_path (List.◌∷◌ p (List.◌∷◌ q ps)) = p <> "\\" <> joined_path (List.◌∷◌ q ps)

unfoldable pub windows_key : List String → Option String
windows_key List.[] = none
windows_key (List.◌∷◌ a List.[]) = none
windows_key (List.◌∷◌ a (List.◌∷◌ b rest)) =
    if str_eq "system" a && str_eq "controlset001" b
    then some ("HKEY_LOCAL_MACHINE\\System\\CurrentControlSet\\" <> joined_path rest)
    else none

abbrev with_key : Option String → Option (List String) → Option (List String)
with_key (some key) (some keys) = some (List.◌∷◌ key keys)
with_key (some key) none = none
with_key none keys = none

unfoldable pub windows_keys : List Section → Option (List String)
windows_keys List.[] = some List.[]
windows_keys (List.◌∷◌ s ss) = with_key (windows_key s.parts) (windows_keys ss)

-- A broad key that is offered for deletion, or the key of one section.
pub data Key : Type 0 where
  winebth_key hid_key mouse_key service_key filter_service_key : Key
  class_key : String → Key

class_keys : List String → List Key
class_keys List.[] = List.[]
class_keys (List.◌∷◌ k ks) = List.◌∷◌ (class_key k) (class_keys ks)

-- The registry's dword under a name is read by a pattern on a line; here it is a parameter of the status.
pub record Status : Type 0 where
  pub winebth_start : Option ℕ
  pub winebth_sections : List Section
  pub winebth_devices : List Section
  pub hid_roots : List Section
  pub mouse_roots : List Section
  pub unexpected_hid : List Section
  pub unexpected_mouse : List Section
  pub hid_classes : List Section
  pub mouse_classes : List Section
  pub services : List Section

-- `RegistryStatus.clean`, of the lists whose lengths the status holds
unfoldable pub clean : Status → Bool
clean s =
    elim s.winebth_start [ none ↦ false | some n ↦ n == 4 ]
    && not (any s.winebth_devices)
    && not (any s.hid_roots)
    && not (any s.mouse_roots)
    && not (any s.unexpected_hid)
    && not (any s.unexpected_mouse)
    && not (any s.hid_classes)
    && not (any s.mouse_classes)
    && not (any s.services)

module _ (lower : String → String) (is_digits : String → Bool) where
  -- `body_text`
  unfoldable pub body_text : List String → String
  body_text lines = lower (joined lines)

  unfoldable pub is_gvinput_hid : Section → Bool
  is_gvinput_hid s =
      contains "netease\\\\gvinput" (body_text s.lines)
      && contains "\"service\"=\"gvinput\"" (body_text s.lines)

  unfoldable pub is_gvinput_mouse : Section → Bool
  is_gvinput_mouse s = contains "hid\\\\gvinput&col01" (body_text s.lines)

  unfoldable pub is_class_key : String → String → Section → Bool
  is_class_key guid inf s =
      length s.parts == 6
      && begins (under (path_of "control" "class") guid) s.parts
      && is_digits (nth 5 s.parts)
      && contains inf (body_text s.lines)

  -- The loop of `inspect`
  unfoldable pub survey : Option ℕ → List Section → Status
  survey start sections = record {
    winebth_start = start;
    winebth_sections = chosen is_winebth sections;
    winebth_devices = chosen is_winebth_device sections;
    hid_roots = chosen (λ s. is_root "hidclass" s && is_gvinput_hid s) sections;
    mouse_roots = chosen (λ s. is_root "mouse" s && is_gvinput_mouse s) sections;
    unexpected_hid = chosen (λ s. is_root "hidclass" s && not (is_gvinput_hid s)) sections;
    unexpected_mouse = chosen (λ s. is_root "mouse" s && not (is_gvinput_mouse s)) sections;
    hid_classes = chosen (is_class_key hid_class_guid "\"infpath\"=\"gvinput.inf\"") sections;
    mouse_classes = chosen (is_class_key mouse_class_guid "\"infpath\"=\"gvinputmf.inf\"") sections;
    services = chosen is_service sections;
  }

abbrev pub when : Bool → List Key → List Key
when test keys = if test then keys else List.[]

-- The list of the keys, given those of the two classes.
unfoldable pub listed : Status → List String → List String → List Key
unfolding class_keys
listed s hid mouse =
    when (any s.winebth_devices) (List.◌∷◌ winebth_key List.[])
    ++ when (any s.hid_roots && not (any s.unexpected_hid)) (List.◌∷◌ hid_key List.[])
    ++ when (any s.mouse_roots && not (any s.unexpected_mouse)) (List.◌∷◌ mouse_key List.[])
    ++ class_keys hid
    ++ class_keys mouse
    ++ when (any s.services) (List.◌∷◌ service_key (List.◌∷◌ filter_service_key List.[]))

listed_if : Status → Option (List String) → Option (List String) → Option (List Key)
listed_if s (some hid) (some mouse) = some (listed s hid mouse)
listed_if s (some hid) none = none
listed_if s none mouse = none

-- The keys of `inspect`; `none` if `windows_key` raises.
unfoldable pub delete_keys : Status → Option (List Key)
unfolding listed_if
delete_keys s = listed_if s (windows_keys s.hid_classes) (windows_keys s.mouse_classes)
