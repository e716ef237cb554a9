-- ===== src/Client/Commands/Settings.antt =====
-- The commands of xmmsclient/xmmsclient/config.c, bindata.c and stats.c, and those of xmmsclient.c.
use xmms2remote.Prelude.{ℕ, [], ◌∷◌, Option, some}
use xmms2remote.Value.{Text, Value}
use xmms2remote.Client.Commands.{
  Call, send_cmd, send_msg_no_arg, send_broadcast_msg, send_signal_msg, entry_str, entry_int, given,
}

unfoldable pub config_register_value : Option Text → Option Text → Call
unfolding send_cmd entry_str given
config_register_value key value =
    given key λ k. send_cmd 3 34 (entry_str key ∷ entry_str value ∷ [])

unfoldable pub configval_register : Option Text → Option Text → Call
unfolding config_register_value
configval_register key value = config_register_value key value

unfoldable pub config_set_value : Option Text → Option Text → Call
unfolding send_cmd entry_str given
config_set_value key val = given key λ k. send_cmd 3 33 (entry_str key ∷ entry_str val ∷ [])

unfoldable pub configval_set : Option Text → Option Text → Call
unfolding config_set_value
configval_set key val = config_set_value key val

unfoldable pub config_get_value : Option Text → Call
unfolding send_cmd entry_str given
config_get_value key = given key λ k. send_cmd 3 32 (entry_str key ∷ [])

unfoldable pub configval_get : Option Text → Call
unfolding config_get_value
configval_get key = config_get_value key

unfoldable pub config_list_values : Call
unfolding send_msg_no_arg
config_list_values = send_msg_no_arg 3 35

unfoldable pub configval_list : Call
unfolding config_list_values
configval_list = config_list_values

unfoldable pub broadcast_config_value_changed : Call
unfolding send_broadcast_msg
broadcast_config_value_changed = send_broadcast_msg 1

unfoldable pub broadcast_configval_changed : Call
unfolding broadcast_config_value_changed
broadcast_configval_changed = broadcast_config_value_changed

unfoldable pub bindata_add : Text → Call
unfolding send_cmd
bindata_add data_ = send_cmd 10 33 (some (Value.bin data_) ∷ [])

unfoldable pub bindata_retrieve : Option Text → Call
unfolding send_cmd entry_str
bindata_retrieve hash = send_cmd 10 32 (entry_str hash ∷ [])

unfoldable pub bindata_remove : Option Text → Call
unfolding send_cmd entry_str
bindata_remove hash = send_cmd 10 34 (entry_str hash ∷ [])

unfoldable pub bindata_list : Call
unfolding send_cmd
bindata_list = send_cmd 10 35 []

unfoldable pub main_list_plugins : ℕ → Call
unfolding send_cmd
main_list_plugins type = send_cmd 1 34 (entry_int type ∷ [])

unfoldable pub plugin_list : ℕ → Call
unfolding main_list_plugins
plugin_list type = main_list_plugins type

unfoldable pub main_stats : Call
unfolding send_msg_no_arg
main_stats = send_msg_no_arg 1 35

unfoldable pub broadcast_mediainfo_reader_status : Call
unfolding send_broadcast_msg
broadcast_mediainfo_reader_status = send_broadcast_msg 12

unfoldable pub signal_mediainfo_reader_unindexed : Call
unfolding send_signal_msg
signal_mediainfo_reader_unindexed = send_signal_msg 13

unfoldable pub send_hello : Text → Call
unfolding send_cmd entry_str
send_hello clientname = send_cmd 1 32 (entry_int 18 ∷ entry_str (some clientname) ∷ [])

unfoldable pub quit : Call
unfolding send_msg_no_arg
quit = send_msg_no_arg 1 33

unfoldable pub broadcast_quit : Call
unfolding send_broadcast_msg
broadcast_quit = send_broadcast_msg 11
