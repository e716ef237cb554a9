-- ===== src/Client/Commands/Playlist.antt =====
-- The commands of xmmsclient/xmmsclient/playlist.c. An int is a bit pattern, and a null pointer `none`.
use xmms2remote.Prelude.{
  ℕ, ◌&&◌, Bool, true, false, not, if◌then◌else◌, List, [], ◌∷◌, Option, none, some,
}
use xmms2remote.Value.{Text, Value, Items, Coll, nil, cons, coll_new}
use xmms2remote.Value.Text.{codes}
use xmms2remote.Url.{encode_url, encode_url_old}
use xmms2remote.Client.Commands.{
  Call, refused, send_cmd, send_msg_no_arg, send_broadcast_msg, entry_str, entry_int, entry_coll,
  given, verified, with_url,
}
use xmms2remote.Client.Commands.Colls.{coll_list, coll_save, coll_remove}

-- The default playlist, `XMMS_ACTIVE_PLAYLIST`.
unfoldable pub active : Option Text → Option Text
active none = some (codes "_active")
active (some playlist) = some playlist

unfoldable pub playlist_current_pos : Option Text → Call
unfolding send_cmd entry_str active
playlist_current_pos playlist = send_cmd 2 44 (entry_str (active playlist) ∷ [])

unfoldable pub playlist_current_active : Call
unfolding send_msg_no_arg
playlist_current_active = send_msg_no_arg 2 45

unfoldable pub playlist_list : Call
unfolding coll_list
playlist_list = coll_list (some (codes "Playlists"))

unfoldable pub playlist_create : Option Text → Call
unfolding given coll_save
playlist_create playlist =
    given playlist λ name. coll_save (coll_new 9) (some name) (some (codes "Playlists"))

unfoldable pub playlist_shuffle : Option Text → Call
unfolding send_cmd entry_str active
playlist_shuffle playlist = send_cmd 2 32 (entry_str (active playlist) ∷ [])

-- The loop of `xmmsv_list_restrict_type` with the type of strings.
unfoldable pub strings_only : Items → Bool
strings_only nil = true
strings_only (cons (Value.string s) vs) = strings_only vs
strings_only (cons v vs) = false

-- `restricted` is whether the list of properties was restricted to a type before.
unfoldable pub playlist_sort : Bool → Option Text → Option Value → Call
unfolding send_cmd entry_str active strings_only
playlist_sort restricted playlist none = refused
playlist_sort restricted playlist (some (Value.list vs)) =
    if not restricted && strings_only vs
    then send_cmd 2 42 (entry_str (active playlist) ∷ some (Value.list vs) ∷ [])
    else refused
playlist_sort restricted playlist (some v) = refused

unfoldable pub playlist_clear : Option Text → Call
unfolding send_cmd entry_str active
playlist_clear playlist = send_cmd 2 41 (entry_str (active playlist) ∷ [])

unfoldable pub playlist_remove : Option Text → Call
unfolding coll_remove
playlist_remove playlist = coll_remove playlist (some (codes "Playlists"))

unfoldable pub playlist_list_entries : Option Text → Call
unfolding send_cmd entry_str active
playlist_list_entries playlist = send_cmd 2 43 (entry_str (active playlist) ∷ [])

unfoldable pub playlist_insert_id : Option Text → ℕ → ℕ → Call
unfolding send_cmd entry_str active
playlist_insert_id playlist pos id =
    send_cmd 2 47 (entry_str (active playlist) ∷ entry_int pos ∷ entry_int id ∷ [])

unfoldable pub playlist_rinsert_encoded : Option Text → ℕ → Option Text → Call
unfolding send_cmd entry_str active given verified
playlist_rinsert_encoded playlist pos url = given url λ u.
    verified u (send_cmd 2 51 (entry_str (active playlist) ∷ entry_int pos ∷ entry_str url ∷ []))

unfoldable pub playlist_insert_encoded : Option Text → ℕ → Text → Call
unfolding send_cmd entry_str active verified
playlist_insert_encoded playlist pos url =
    verified url
      (send_cmd 2 46 (entry_str (active playlist) ∷ entry_int pos ∷ entry_str (some url) ∷ []))

unfoldable pub playlist_insert_collection : Option Text → ℕ → Option Coll → Option Value → Call
unfolding send_cmd entry_str active entry_coll
playlist_insert_collection playlist pos coll order =
    send_cmd 2 48 (entry_str (active playlist) ∷ entry_int pos ∷ entry_coll coll ∷ order ∷ [])

unfoldable pub playlist_add_id : Option Text → ℕ → Call
unfolding send_cmd entry_str active
playlist_add_id playlist id = send_cmd 2 36 (entry_str (active playlist) ∷ entry_int id ∷ [])

unfoldable pub playlist_radd_encoded : Option Text → Option Text → Call
unfolding send_cmd entry_str active given verified
playlist_radd_encoded playlist url =
    given url λ u. verified u (send_cmd 2 50 (entry_str (active playlist) ∷ entry_str url ∷ []))

unfoldable pub playlist_add_encoded : Option Text → Option Text → Call
unfolding send_cmd entry_str active given verified
playlist_add_encoded playlist url =
    given url λ u. verified u (send_cmd 2 35 (entry_str (active playlist) ∷ entry_str url ∷ []))

unfoldable pub playlist_add_idlist : Option Text → Option Coll → Call
unfolding send_cmd entry_str active entry_coll
playlist_add_idlist playlist coll =
    send_cmd 2 37 (entry_str (active playlist) ∷ entry_coll coll ∷ [])

unfoldable pub playlist_add_collection : Option Text → Option Coll → Option Value → Call
unfolding send_cmd entry_str active entry_coll
playlist_add_collection playlist coll order =
    send_cmd 2 38 (entry_str (active playlist) ∷ entry_coll coll ∷ order ∷ [])

unfoldable pub playlist_move_entry : Option Text → ℕ → ℕ → Call
unfolding send_cmd entry_str active
playlist_move_entry playlist cur_pos new_pos =
    send_cmd 2 40 (entry_str (active playlist) ∷ entry_int cur_pos ∷ entry_int new_pos ∷ [])

unfoldable pub playlist_remove_entry : Option Text → ℕ → Call
unfolding send_cmd entry_str active
playlist_remove_entry playlist pos =
    send_cmd 2 39 (entry_str (active playlist) ∷ entry_int pos ∷ [])

unfoldable pub broadcast_playlist_changed : Call
unfolding send_broadcast_msg
broadcast_playlist_changed = send_broadcast_msg 0

unfoldable pub broadcast_playlist_current_pos : Call
unfolding send_broadcast_msg
broadcast_playlist_current_pos = send_broadcast_msg 6

unfoldable pub broadcast_playlist_loaded : Call
unfolding send_broadcast_msg
broadcast_playlist_loaded = send_broadcast_msg 7

unfoldable pub playlist_set_next : ℕ → Call
unfolding send_cmd
playlist_set_next pos = send_cmd 2 33 (entry_int pos ∷ [])

unfoldable pub playlist_set_next_rel : ℕ → Call
unfolding send_cmd
playlist_set_next_rel pos = send_cmd 2 34 (entry_int pos ∷ [])

unfoldable pub playlist_load : Option Text → Call
unfolding send_cmd entry_str
playlist_load name = send_cmd 2 49 (entry_str name ∷ [])

-- Whether malloc grants the buffer of an encoded URL.
module _ (granted : Bool) where
  unfoldable pub playlist_rinsert : Option Text → ℕ → Option Text → Call
  unfolding given with_url encode_url playlist_rinsert_encoded
  playlist_rinsert playlist pos url = given url λ u.
      with_url (encode_url granted u none) λ enc. playlist_rinsert_encoded playlist pos (some enc)

  unfoldable pub playlist_insert_args : Option Text → ℕ → Option Text → List Text → Call
  unfolding given with_url encode_url_old playlist_insert_encoded
  playlist_insert_args playlist pos url args =
      given url λ u.
        with_url (encode_url_old granted u args) λ enc. playlist_insert_encoded playlist pos enc

  unfoldable pub playlist_insert_full : Option Text → ℕ → Option Text → Option Value → Call
  unfolding given with_url encode_url playlist_insert_encoded
  playlist_insert_full playlist pos url args =
      given url
        λ u. with_url (encode_url granted u args) λ enc. playlist_insert_encoded playlist pos enc

  unfoldable pub playlist_insert_url : Option Text → ℕ → Option Text → Call
  unfolding playlist_insert_full
  playlist_insert_url playlist pos url = playlist_insert_full playlist pos url none

  unfoldable pub playlist_radd : Option Text → Option Text → Call
  unfolding given with_url encode_url playlist_radd_encoded
  playlist_radd playlist url =
      given url
        λ u. with_url (encode_url granted u none) λ enc. playlist_radd_encoded playlist (some enc)

  unfoldable pub playlist_add_args : Option Text → Option Text → List Text → Call
  unfolding given with_url encode_url_old playlist_add_encoded
  playlist_add_args playlist url args =
      given url λ u.
        with_url (encode_url_old granted u args) λ enc. playlist_add_encoded playlist (some enc)

  unfoldable pub playlist_add_full : Option Text → Option Text → Option Value → Call
  unfolding given with_url encode_url playlist_add_encoded
  playlist_add_full playlist url args =
      given url
        λ u. with_url (encode_url granted u args) λ enc. playlist_add_encoded playlist (some enc)

  unfoldable pub playlist_add_url : Option Text → Option Text → Call
  unfolding playlist_add_full
  playlist_add_url playlist url = playlist_add_full playlist url none
