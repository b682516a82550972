-- ===== src/Tests/Devices.antt =====
-- A registry with one input device of UU, through scripts/inspect-wine-device-registry.py.
use uu_remote_ubuntu_bridge.Prelude.{◌≡◌, refl, String, Bool, true, false, some, [], ◌∷◌}
use uu_remote_ubuntu_bridge.Registry.{
  Section, Key, hid_key, mouse_key, survey, delete_keys, clean, is_root, is_gvinput_hid,
  is_gvinput_mouse, section_parts,
}
use uu_remote_ubuntu_bridge.Registry.Deletion.{Every, offers, delete_keys-Every}

abbrev same : String → String
same s = s

abbrev no_digits : String → Bool
no_digits s = false

abbrev device : Section
device = record {
  parts = "system" ∷ "controlset001" ∷ "enum" ∷ "root" ∷ "hidclass" ∷ "0000" ∷ [];
  lines = "\"hardwareid\"=\"netease\\\\gvinput\"" ∷ "\"service\"=\"gvinput\"" ∷ [];
}

delete_keys-Every_example :
    (offers hid_key (hid_key ∷ []) ≡ true
      → Every (is_root "hidclass") (is_gvinput_hid same no_digits) (device ∷ []))
    × (offers mouse_key (hid_key ∷ []) ≡ true
        → Every (is_root "mouse") (is_gvinput_mouse same no_digits) (device ∷ []))
unfolding delete_keys survey uu_remote_ubuntu_bridge.Registry.windows_keys
    uu_remote_ubuntu_bridge.Registry.chosen uu_remote_ubuntu_bridge.Registry.is_class_key
    uu_remote_ubuntu_bridge.Registry.begins uu_remote_ubuntu_bridge.Registry.listed
    uu_remote_ubuntu_bridge.Registry.is_winebth_device uu_remote_ubuntu_bridge.Registry.is_winebth
    is_root is_gvinput_hid uu_remote_ubuntu_bridge.Registry.contains
    uu_remote_ubuntu_bridge.Registry.body_text uu_remote_ubuntu_bridge.Registry.joined
    uu_remote_ubuntu_bridge.Registry.begins_text uu_remote_ubuntu_bridge.Registry.is_service
delete_keys-Every_example =
    delete_keys-Every same no_digits (some 4) (device ∷ []) (hid_key ∷ []) refl

section_parts_at_pairs : section_parts "system\\\\a\\b" ≡ "system" ∷ "a\\b" ∷ []
unfolding section_parts
section_parts_at_pairs = refl
