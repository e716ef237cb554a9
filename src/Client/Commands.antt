-- ===== src/Client/Commands.antt =====
-- The commands of the client library: what each sends to the server. How a command becomes a request
-- is `xmmsc_send_cmd` and its kin of xmmsclient/xmmsclient/xmmsclient.c, over `xmmsv_build_list` of
-- xmmsclient/xmmstypes/value.c; the numbers are those of xmmsclient/xmmsc/xmmsc_idnumbers.h.
pub mod Playlist
pub mod Playback
pub mod Colls
pub mod Settings
pub mod Medialib
pub mod Urls
mod Tests
use xmms2remote.Prelude.{
  ℕ, ◌+◌, Bool, true, false, if◌then◌else◌, List, [], ◌∷◌, Option, none, some,
}
use xmms2remote.Value.{Text, Value, Items, Coll, nil, cons, new_string}
use xmms2remote.Value.Text.{codes}
use xmms2remote.Url.{Encoded, encoded, null, verify_url}
use xmms2remote.Url
use xmms2remote.Client.{Connection, Request, send_msg, cmd_signal, cmd_broadcast, object_signal}

-- What a command does: it sends a request, it returns null and sends nothing, or it writes past the
-- end of a buffer.
pub data Call : Type 0 where
  sends : Request → Call
  refused overflow : Call

-- `xmmsv_build_list`, over the arguments in front of its last one: it ends at the first that is null.
unfoldable pub build_list : List (Option Value) → Items
build_list [] = nil
build_list (none ∷ vs) = nil
build_list (some v ∷ vs) = cons v (build_list vs)

-- `xmmsc_send_cmd`, `xmmsc_send_msg_no_arg`, `xmmsc_send_broadcast_msg` and
-- `xmmsc_send_signal_msg`.
unfoldable pub send_cmd : ℕ → ℕ → List (Option Value) → Call
unfolding build_list
send_cmd object cmd args =
    sends (record { object = object; cmd = cmd; args = Value.list (build_list args) })

unfoldable pub send_msg_no_arg : ℕ → ℕ → Call
send_msg_no_arg object cmd = sends (record { object = object; cmd = cmd; args = Value.list nil })

unfoldable pub send_broadcast_msg : ℕ → Call
unfolding send_cmd
send_broadcast_msg id = send_cmd object_signal cmd_broadcast (some (Value.int id) ∷ [])

unfoldable pub send_signal_msg : ℕ → Call
unfolding send_cmd
send_signal_msg id = send_cmd object_signal cmd_signal (some (Value.int id) ∷ [])

-- `XMMSV_LIST_ENTRY_STR`, `_INT` and `_COLL`: null for a null pointer, or a text that is not UTF-8.
unfoldable pub entry_str : Option Text → Option Value
unfolding new_string
entry_str none = none
entry_str (some s) = new_string s

abbrev pub entry_int : ℕ → Option Value
entry_int w = some (Value.int w)

unfoldable pub entry_coll : Option Coll → Option Value
entry_coll none = none
entry_coll (some c) = some (Value.coll c)

-- A command with a text that must not be null, or that must be an encoded URL.
unfoldable pub given : Option Text → (Text → Call) → Call
given none again = refused
given (some s) again = again s

unfoldable pub verified : Text → Call → Call
unfolding verify_url
verified url call = if verify_url url then call else refused

-- A command with the URL that was encoded for it.
unfoldable pub with_url : Encoded → (Text → Call) → Call
with_url (encoded url) again = again url
with_url null again = refused
with_url Encoded.overflow again = overflow
