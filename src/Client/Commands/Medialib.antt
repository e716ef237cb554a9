-- ===== src/Client/Commands/Medialib.antt =====
-- The commands of xmmsclient/xmmsclient/medialib.c and xform.c.
use xmms2remote.Prelude.{ℕ, Bool, List, [], ◌∷◌, ◌++◌, take, Option, none, some}
use xmms2remote.Value.{Text, Value}
use xmms2remote.Value.Text.{codes}
use xmms2remote.Url.{encode_url, encode_url_old}
use xmms2remote.Client.Commands.{
  Call, send_cmd, send_broadcast_msg, entry_str, entry_int, given, verified, with_url,
}

unfoldable pub do_methodcall : ℕ → Option Text → Call
unfolding send_cmd entry_str
do_methodcall id arg = send_cmd 5 id (entry_str arg ∷ [])

unfoldable pub medialib_get_id_encoded : Option Text → Call
unfolding do_methodcall
medialib_get_id_encoded url = do_methodcall 35 url

unfoldable pub medialib_move_entry : ℕ → Option Text → Call
unfolding send_cmd entry_str
medialib_move_entry entry url = send_cmd 5 40 (entry_int entry ∷ entry_str url ∷ [])

unfoldable pub medialib_remove_entry : ℕ → Call
unfolding send_cmd
medialib_remove_entry entry = send_cmd 5 36 (entry_int entry ∷ [])

unfoldable pub medialib_add_entry_encoded : Text → Call
unfolding verified do_methodcall
medialib_add_entry_encoded url = verified url (do_methodcall 41 (some url))

unfoldable pub medialib_import_path_encoded : Text → Call
unfolding verified do_methodcall
medialib_import_path_encoded path = verified path (do_methodcall 33 (some path))

unfoldable pub medialib_path_import_encoded : Text → Call
unfolding medialib_import_path_encoded
medialib_path_import_encoded path = medialib_import_path_encoded path

unfoldable pub medialib_rehash : ℕ → Call
unfolding send_cmd
medialib_rehash id = send_cmd 5 34 (entry_int id ∷ [])

unfoldable pub medialib_get_info : ℕ → Call
unfolding send_cmd
medialib_get_info id = send_cmd 5 32 (entry_int id ∷ [])

unfoldable pub broadcast_medialib_entry_added : Call
unfolding send_broadcast_msg
broadcast_medialib_entry_added = send_broadcast_msg 8

unfoldable pub broadcast_medialib_entry_changed : Call
unfolding send_broadcast_msg
broadcast_medialib_entry_changed = send_broadcast_msg 9

-- `snprintf` of "client/%s" into 256 bytes.
unfoldable pub client_source : Text → Text
client_source clientname = take 255 (codes "client/" ++ clientname)

unfoldable pub property_set_int_with_source : ℕ → Option Text → Option Text → ℕ → Call
unfolding send_cmd entry_str
property_set_int_with_source id source key value =
    send_cmd 5 38 (entry_int id ∷ entry_str source ∷ entry_str key ∷ entry_int value ∷ [])

unfoldable pub property_set_int : Text → ℕ → Option Text → ℕ → Call
unfolding property_set_int_with_source client_source
property_set_int clientname id key value =
    property_set_int_with_source id (some (client_source clientname)) key value

unfoldable pub property_set_str_with_source : ℕ → Option Text → Option Text → Option Text → Call
unfolding send_cmd entry_str
property_set_str_with_source id source key value =
    send_cmd 5 37 (entry_int id ∷ entry_str source ∷ entry_str key ∷ entry_str value ∷ [])

unfoldable pub property_set_str : Text → ℕ → Option Text → Option Text → Call
unfolding property_set_str_with_source client_source
property_set_str clientname id key value =
    property_set_str_with_source id (some (client_source clientname)) key value

unfoldable pub property_remove_with_source : ℕ → Option Text → Option Text → Call
unfolding send_cmd entry_str
property_remove_with_source id source key =
    send_cmd 5 39 (entry_int id ∷ entry_str source ∷ entry_str key ∷ [])

unfoldable pub property_remove : Text → ℕ → Option Text → Call
unfolding property_remove_with_source client_source
property_remove clientname id key =
    property_remove_with_source id (some (client_source clientname)) key

unfoldable pub media_browse_encoded : Option Text → Call
unfolding send_cmd entry_str given verified
media_browse_encoded url = given url λ u. verified u (send_cmd 9 32 (entry_str url ∷ []))

-- Whether malloc grants the buffer of an encoded URL; a null pointer is not encoded either.
module _ (granted : Bool) where
  unfoldable pub medialib_get_id : Option Text → Call
  unfolding given with_url encode_url medialib_get_id_encoded
  medialib_get_id url =
      given url λ u. with_url (encode_url granted u none) λ enc. medialib_get_id_encoded (some enc)

  unfoldable pub medialib_add_entry_args : Option Text → List Text → Call
  unfolding given with_url encode_url_old medialib_add_entry_encoded
  medialib_add_entry_args url args =
      given url λ u. with_url (encode_url_old granted u args) λ enc. medialib_add_entry_encoded enc

  unfoldable pub medialib_add_entry_full : Option Text → Option Value → Call
  unfolding given with_url encode_url medialib_add_entry_encoded
  medialib_add_entry_full url args =
      given url λ u. with_url (encode_url granted u args) λ enc. medialib_add_entry_encoded enc

  unfoldable pub medialib_add_entry : Option Text → Call
  unfolding medialib_add_entry_full
  medialib_add_entry url = medialib_add_entry_full url none

  unfoldable pub medialib_import_path : Option Text → Call
  unfolding given with_url encode_url medialib_import_path_encoded
  medialib_import_path url =
      given url λ u. with_url (encode_url granted u none) λ enc. medialib_import_path_encoded enc

  unfoldable pub medialib_path_import : Option Text → Call
  unfolding medialib_import_path
  medialib_path_import path = medialib_import_path path

  unfoldable pub media_browse : Option Text → Call
  unfolding given with_url encode_url media_browse_encoded
  media_browse url =
      given url λ u. with_url (encode_url granted u none) λ enc. media_browse_encoded (some enc)
