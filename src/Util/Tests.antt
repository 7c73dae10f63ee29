-- ===== src/Util/Tests.antt =====
-- The MAC address 00:1b:92:01:02:03 there and back, and some names.
use Prim.Native.String.{String}
use text.Mathlib.Text.{◌==◌}
use avdecc_lib.Prelude.{◌≡◌, refl, ap, true, false, arith, some, if◌then◌else◌, All}
use avdecc_lib.Util.{convert_uint64_to_eui48, convert_eui48_to_uint64}
use avdecc_lib.Util.Names.{
  value_of, format_name, acmp_cmds_names, aem_cmd_name_to_value, ieee1722_format_value_to_name,
  ieee1722_format_name_to_value,
}
use avdecc_lib.Util.Lookup.{
  acmp_cmds, aem_cmds, value_to_name, name_to_value, value_to_name-name_to_value,
  name_to_value-value_to_name,
}
use avdecc_lib.Util.Formats.{format_name_to_value_to_name}
use avdecc_lib.Util.Eui48.{uint64-eui48, eui48-uint64}

one_address : convert_uint64_to_eui48 118413656579 ≡ (0, 27, 146, 1, 2, 3)
unfolding convert_uint64_to_eui48
one_address = refl

uint64-eui48_example : convert_eui48_to_uint64 (convert_uint64_to_eui48 118413656579) ≡ 118413656579
uint64-eui48_example = uint64-eui48 118413656579

eui48-uint64_example :
    convert_uint64_to_eui48 (convert_eui48_to_uint64 (0, 27, 146, 1, 2, 3)) ≡ (0, 27, 146, 1, 2, 3)
eui48-uint64_example =
    eui48-uint64 0 27 146 1 2 3 (omega arith) (omega arith) (omega arith) (omega arith)
      (omega arith) (omega arith)

abbrev upper : String → String
upper s = if s == "reboot" then "REBOOT" else s

upper_keeps : All (λ s. upper s ≡ s) acmp_cmds_names
upper_keeps = (
  refl,
  (
    refl,
    (
      refl,
      (refl, (refl, (refl, (refl, (refl, (refl, (refl, (refl, (refl, (refl, (refl, tt))))))))))),
    ),
  ),
)

reboot_value : aem_cmd_name_to_value upper "reboot" ≡ 42
unfolding value_of
reboot_value = refl

value_to_name-name_to_value_example :
    (s : String) × (value_to_name acmp_cmds 6 ≡ some s) × (name_to_value upper acmp_cmds s ≡ 6)
value_to_name-name_to_value_example =
    value_to_name-name_to_value upper acmp_cmds 6 upper_keeps (omega arith)

name_to_value-value_to_name_example :
    value_to_name aem_cmds (name_to_value upper aem_cmds "reboot") ≡ some "REBOOT"
unfolding value_of
name_to_value-value_to_name_example =
    name_to_value-value_to_name upper aem_cmds "reboot" (λ e. omega (arith, e))

format_name_to_value_to_name_example :
    ieee1722_format_name_to_value (ieee1722_format_value_to_name 45038230730442752)
    ≡ 45038230730442752
unfolding format_name
format_name_to_value_to_name_example =
    format_name_to_value_to_name 45038230730442752
      (λ e. let q : false ≡ true = ap (λ s. s == "UNKNOWN") e in ground (arith, q))
