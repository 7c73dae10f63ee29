-- ===== src/Util/Names.antt =====
-- controller/lib/src/util_imp.cpp: the tables of names, and the conversions between values and names. A
-- read behind the end of a table is none. std::transform with ::toupper is a parameter.
use Prim.Native.String.{String}
use text.Mathlib.Text.{◌==◌}
use avdecc_lib.Prelude.{
  ℕ, zero, suc, Bool, true, false, Option, none, some, List, [], ◌∷◌, if◌then◌else◌, ltb, get_elem?,
}
use avdecc_lib.Prelude as Prelude
use avdecc_lib.System.{tick_timeout}
use avdecc_lib.Controller.Interface.{status_invalid}

abbrev pub aem_cmds_names : List String
aem_cmds_names =
    "ACQUIRE_ENTITY" ∷ "LOCK_ENTITY" ∷ "ENTITY_AVAILABLE" ∷ "CONTROLLER_AVAILABLE"
    ∷ "READ_DESCRIPTOR" ∷ "WRITE_DESCRIPTOR" ∷ "SET_CONFIGURATION" ∷ "GET_CONFIGURATION"
    ∷ "SET_STREAM_FORMAT" ∷ "GET_STREAM_FORMAT" ∷ "SET_VIDEO_FORMAT" ∷ "GET_VIDEO_FORMAT"
    ∷ "SET_SENSOR_FORMAT" ∷ "GET_SENSOR_FORMAT" ∷ "SET_STREAM_INFO" ∷ "GET_STREAM_INFO" ∷ "SET_NAME"
    ∷ "GET_NAME" ∷ "SET_ASSOCIATION_ID" ∷ "GET_ASSOCIATION_ID" ∷ "SET_SAMPLING_RATE"
    ∷ "GET_SAMPLING_RATE" ∷ "SET_CLOCK_SOURCE" ∷ "GET_CLOCK_SOURCE" ∷ "SET_CONTROL" ∷ "GET_CONTROL"
    ∷ "INCREMENT_CONTROL" ∷ "DECREMENT_CONTROL" ∷ "SET_SIGNAL_SELECTOR" ∷ "GET_SIGNAL_SELECTOR"
    ∷ "SET_MIXER" ∷ "GET_MIXER" ∷ "SET_MATRIX" ∷ "GET_MATRIX" ∷ "START_STREAMING" ∷ "STOP_STREAMING"
    ∷ "REGISTER_UNSOLICITED_NOTIFICATION" ∷ "DEREGISTER_UNSOLICITED_NOTIFICATION"
    ∷ "IDENTIFY_NOTIFICATION" ∷ "GET_AVB_INFO" ∷ "GET_AS_PATH" ∷ "GET_COUNTERS" ∷ "REBOOT"
    ∷ "GET_AUDIO_MAP" ∷ "ADD_AUDIO_MAPPINGS" ∷ "REMOVE_AUDIO_MAPPINGS" ∷ "GET_VIDEO_MAP"
    ∷ "ADD_VIDEO_MAPPINGS" ∷ "REMOVE_VIDEO_MAPPINGS" ∷ "GET_SENSOR_MAP" ∷ "ADD_SENSOR_MAPPINGS"
    ∷ "REMOVE_SENSOR_MAPPINGS" ∷ "START_OPERATION" ∷ "ABORT_OPERATION" ∷ "OPERATION_STATUS"
    ∷ "AUTH_ADD_KEY" ∷ "AUTH_DELETE_KEY" ∷ "AUTH_GET_KEY_LIST" ∷ "AUTH_GET_KEY"
    ∷ "AUTH_ADD_KEY_TO_CHAIN" ∷ "AUTH_DELETE_KEY_FROM_CHAIN" ∷ "AUTH_GET_KEYCHAIN_LIST"
    ∷ "AUTH_GET_IDENTITY" ∷ "AUTH_ADD_TOKEN" ∷ "AUTH_DELETE_TOKEN" ∷ "AUTHENTICATE"
    ∷ "DEAUTHENTICATE" ∷ "ENABLE_TRANSPORT_SECURITY" ∷ "DISABLE_TRANSPORT_SECURITY"
    ∷ "ENABLE_STREAM_ENCRYPTION" ∷ "DISABLE_STREAM_ENCRYPTION" ∷ "SET_MEMORY_OBJECT_LENGTH"
    ∷ "GET_MEMORY_OBJECT_LENGTH" ∷ "SET_STREAM_BACKUP" ∷ "GET_STREAM_BACKUP" ∷ []

abbrev pub aem_descs_names : List String
aem_descs_names =
    "ENTITY" ∷ "CONFIGURATION" ∷ "AUDIO_UNIT" ∷ "VIDEO_UNIT" ∷ "SENSOR_UNIT" ∷ "STREAM_INPUT"
    ∷ "STREAM_OUTPUT" ∷ "JACK_INPUT" ∷ "JACK_OUTPUT" ∷ "AVB_INTERFACE" ∷ "CLOCK_SOURCE"
    ∷ "MEMORY_OBJECT" ∷ "LOCALE" ∷ "STRINGS" ∷ "STREAM_PORT_INPUT" ∷ "STREAM_PORT_OUTPUT"
    ∷ "EXTERNAL_PORT_INPUT" ∷ "EXTERNAL_PORT_OUTPUT" ∷ "INTERNAL_PORT_INPUT"
    ∷ "INTERNAL_PORT_OUTPUT" ∷ "AUDIO_CLUSTER" ∷ "VIDEO_CLUSTER" ∷ "SENSOR_CLUSTER" ∷ "AUDIO_MAP"
    ∷ "VIDEO_MAP" ∷ "SENSOR_MAP" ∷ "CONTROL" ∷ "SIGNAL_SELECTOR" ∷ "MIXER" ∷ "MATRIX"
    ∷ "MATRIX_SIGNAL" ∷ "SIGNAL_SPLITTER" ∷ "SIGNAL_COMBINER" ∷ "SIGNAL_DEMULTIPLEXER"
    ∷ "SIGNAL_MULTIPLEXER" ∷ "SIGNAL_TRANSCODER" ∷ "CLOCK_DOMAIN" ∷ "CONTROL_BLOCK" ∷ []

abbrev pub aem_cmds_status_names : List String
aem_cmds_status_names =
    "SUCCESS" ∷ "NOT_IMPLEMENTED" ∷ "NO_SUCH_DESCRIPTOR" ∷ "ENTITY_LOCKED" ∷ "ENTITY_ACQUIRED"
    ∷ "NOT_AUTHENTICATED" ∷ "AUTHENTICATION_DISABLED " ∷ "BAD_ARGUMENTS" ∷ "STATUS_NO_RESOURCES"
    ∷ "IN_PROGRESS" ∷ "ENTITY_MISBEHAVING" ∷ "NOT_SUPPORTED" ∷ "STREAM_IS_RUNNING" ∷ []

abbrev pub acmp_cmds_names : List String
acmp_cmds_names =
    "CONNECT_TX_COMMAND" ∷ "CONNECT_TX_RESPONSE" ∷ "DISCONNECT_TX_COMMAND"
    ∷ "DISCONNECT_TX_RESPONSE" ∷ "GET_TX_STATE_COMMAND" ∷ "GET_TX_STATE_RESPONSE"
    ∷ "CONNECT_RX_COMMAND" ∷ "CONNECT_RX_RESPONSE" ∷ "DISCONNECT_RX_COMMAND"
    ∷ "DISCONNECT_RX_RESPONSE" ∷ "GET_RX_STATE_COMMAND" ∷ "GET_RX_STATE_RESPONSE"
    ∷ "GET_TX_CONNECTION_COMMAND" ∷ "GET_TX_CONNECTION_RESPONSE" ∷ []

abbrev pub acmp_cmds_status_names : List String
acmp_cmds_status_names =
    "SUCCESS" ∷ "LISTENER_UNKNOWN_ID" ∷ "TALKER_UNKNOWN_ID" ∷ "TALKER_DEST_MAC_FAIL"
    ∷ "TALKER_NO_STREAM_INDEX" ∷ "TALKER_NO_BANDWIDTH" ∷ "TALKER_EXCLUSIVE"
    ∷ "LISTENER_TALKER_TIMEOUT" ∷ "LISTENER_EXCLUSIVE" ∷ "STATE_UNAVAILABLE" ∷ "NOT_CONNECTED"
    ∷ "NO_SUCH_CONNECTION" ∷ "COULD_NOT_SEND_MESSAGE" ∷ "TALKER_MISBEHAVING"
    ∷ "LISTENER_MISBEHAVING" ∷ "RESERVED" ∷ "CONTROLLER_NOT_AUTHORIZED" ∷ "INCOMPATIBLE_REQUEST"
    ∷ "LISTENER_INVALID_CONNECTION" ∷ []

abbrev pub notification_names : List String
notification_names =
    "NO_MATCH_FOUND" ∷ "END_STATION_CONNECTED" ∷ "END_STATION_DISCONNECTED" ∷ "COMMAND_TIMEOUT"
    ∷ "RESPONSE_RECEIVED" ∷ "END_STATION_READ_COMPLETED" ∷ []

abbrev pub logging_level_names : List String
logging_level_names = "ERROR" ∷ "WARNING" ∷ "NOTICE" ∷ "INFO" ∷ "DEBUG" ∷ "VERBOSE" ∷ []

abbrev pub total_num_of_aem_cmds : ℕ
total_num_of_aem_cmds = 75

abbrev pub total_num_of_aem_descs : ℕ
total_num_of_aem_descs = 38

abbrev pub total_num_of_aem_cmds_status : ℕ
total_num_of_aem_cmds_status = 13

abbrev pub total_num_of_acmp_cmds : ℕ
total_num_of_acmp_cmds = 14

abbrev pub total_num_of_acmp_cmds_status : ℕ
total_num_of_acmp_cmds_status = 19

abbrev pub total_num_of_notifications : ℕ
total_num_of_notifications = 6

abbrev pub total_num_of_logging_levels : ℕ
total_num_of_logging_levels = 6

-- Both error values.
abbrev pub aem_cmd_error : ℕ
aem_cmd_error = 65535

abbrev pub aem_desc_error : ℕ
aem_desc_error = 65535

-- The read of a table below its number of values.
abbrev pub name_of : List String → ℕ → ℕ → Option String
name_of names total v = if ltb v total then get_elem? names v else some "UNKNOWN"

-- The loop over a table, from the position i on, for so many positions.
unfoldable pub value_of : List String → ℕ → ℕ → ℕ → String → ℕ
value_of names zero i error s = error
value_of [] (suc n) i error s = error
value_of (name ∷ names) (suc n) i error s =
    let rest = value_of names n (suc i) error s in if s == name then i else rest

abbrev pub aem_cmd_value_to_name : ℕ → Option String
aem_cmd_value_to_name v = name_of aem_cmds_names total_num_of_aem_cmds v

abbrev pub aem_desc_value_to_name : ℕ → Option String
aem_desc_value_to_name v = name_of aem_descs_names total_num_of_aem_descs v

abbrev pub aem_cmd_status_value_to_name : ℕ → Option String
aem_cmd_status_value_to_name v =
    if ltb v total_num_of_aem_cmds_status
    then get_elem? aem_cmds_status_names v
    else if Prelude.◌==◌ v status_invalid
    then some "AVDECC_LIB_STATUS_INVALID"
    else if Prelude.◌==◌ v tick_timeout
    then some "AVDECC_LIB_STATUS_TICK_TIMEOUT"
    else some "UNKNOWN"

abbrev pub acmp_cmd_value_to_name : ℕ → Option String
acmp_cmd_value_to_name v = name_of acmp_cmds_names total_num_of_acmp_cmds v

abbrev pub acmp_cmd_status_value_to_name : ℕ → Option String
acmp_cmd_status_value_to_name v = name_of acmp_cmds_status_names total_num_of_acmp_cmds_status v

abbrev pub notification_value_to_name : ℕ → Option String
notification_value_to_name v = name_of notification_names total_num_of_notifications v

abbrev pub logging_level_value_to_name : ℕ → Option String
logging_level_value_to_name v = name_of logging_level_names total_num_of_logging_levels v

module _ (toupper : String → String) where
  abbrev pub aem_cmd_name_to_value : String → ℕ
  aem_cmd_name_to_value s =
      value_of aem_cmds_names total_num_of_aem_cmds 0 aem_cmd_error (toupper s)

  abbrev pub aem_desc_name_to_value : String → ℕ
  aem_desc_name_to_value s =
      value_of aem_descs_names total_num_of_aem_descs 0 aem_desc_error (toupper s)

  abbrev pub acmp_cmd_name_to_value : String → ℕ
  acmp_cmd_name_to_value s =
      value_of acmp_cmds_names total_num_of_acmp_cmds 0 aem_cmd_error (toupper s)

-- ieee1722_format_table without its last entry, and the two loops over it. A format is a uint64_t.
abbrev pub ieee1722_format_table : List (ℕ × String)
ieee1722_format_table =
    (45038200665669888, "IEC...48KHZ_1CH")
    ∷ (45038204960637440, "IEC...48KHZ_2CH")
    ∷ (45038213550572544, "IEC...48KHZ_4CH")
    ∷ (45038230730442752, "IEC...48KHZ_8CH")
    ∷ (45040399688925440, "IEC...96KHZ_1CH")
    ∷ (45040403983892992, "IEC...96KHZ_2CH")
    ∷ (45040412573828096, "IEC...96KHZ_4CH")
    ∷ (45040429753698304, "IEC...96KHZ_8CH")
    ∷ []

unfoldable pub format_value : List (ℕ × String) → String → ℕ
format_value [] s = 65535
format_value ((fmt, name) ∷ table) s =
    let rest = format_value table s in if name == s then fmt else rest

unfoldable pub format_name : List (ℕ × String) → ℕ → String
format_name [] v = "UNKNOWN"
format_name ((fmt, name) ∷ table) v =
    let rest = format_name table v in if Prelude.◌==◌ fmt v then name else rest

abbrev pub ieee1722_format_name_to_value : String → ℕ
ieee1722_format_name_to_value s = format_value ieee1722_format_table s

abbrev pub ieee1722_format_value_to_name : ℕ → String
ieee1722_format_value_to_name v = format_name ieee1722_format_table v
