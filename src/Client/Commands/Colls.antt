-- ===== src/Client/Commands/Colls.antt =====
-- The commands of xmmsclient/xmmsclient/collection.c.
use xmms2remote.Prelude.{ℕ, Bool, [], ◌∷◌, Option, none, some}
use xmms2remote.Value.{Text, Value, Coll, nil}
use xmms2remote.Url.{encode_url}
use xmms2remote.Client.Commands.{
  Call, refused, send_cmd, send_broadcast_msg, entry_str, entry_int, entry_coll, given,
}
use xmms2remote.Url.{Encoded}

unfoldable pub coll_get : Option Text → Option Text → Call
unfolding send_cmd entry_str given
coll_get collname ns = given collname λ s. send_cmd 6 32 (entry_str collname ∷ entry_str ns ∷ [])

unfoldable pub coll_sync : Call
unfolding send_cmd
coll_sync = send_cmd 6 41 []

unfoldable pub coll_list : Option Text → Call
unfolding send_cmd entry_str
coll_list ns = send_cmd 6 33 (entry_str ns ∷ [])

-- A command with a collection that must not be null.
unfoldable pub given_coll : Option Coll → Call → Call
given_coll none call = refused
given_coll (some c) call = call

unfoldable pub coll_save : Option Coll → Option Text → Option Text → Call
unfolding send_cmd entry_str entry_coll given given_coll
coll_save coll name ns =
    given_coll coll
      (given name λ s. send_cmd 6 34 (entry_str name ∷ entry_str ns ∷ entry_coll coll ∷ []))

unfoldable pub coll_remove : Option Text → Option Text → Call
unfolding send_cmd entry_str given
coll_remove name ns = given name λ s. send_cmd 6 35 (entry_str name ∷ entry_str ns ∷ [])

unfoldable pub coll_find : ℕ → Option Text → Call
unfolding send_cmd entry_str
coll_find mediaid ns = send_cmd 6 36 (entry_int mediaid ∷ entry_str ns ∷ [])

unfoldable pub coll_rename : Option Text → Option Text → Option Text → Call
unfolding send_cmd entry_str given
coll_rename from_name to_name ns = given from_name λ a.
    given to_name λ b. send_cmd 6 37 (entry_str from_name ∷ entry_str to_name ∷ entry_str ns ∷ [])

-- The default for an ordering or a grouping.
unfoldable pub or_empty : Option Value → Option Value
or_empty none = some (Value.list nil)
or_empty (some v) = some v

unfoldable pub coll_query_ids : Option Coll → Option Value → ℕ → ℕ → Call
unfolding send_cmd entry_coll given_coll or_empty
coll_query_ids coll order limit_start limit_len = given_coll coll (
    send_cmd 6 38
      (entry_coll coll ∷ entry_int limit_start ∷ entry_int limit_len ∷ or_empty order ∷ []))

unfoldable pub coll_query_infos :
    Option Coll → Option Value → ℕ → ℕ → Option Value → Option Value → Call
unfolding send_cmd entry_coll given_coll or_empty
coll_query_infos coll order limit_start limit_len none group = refused
coll_query_infos coll order limit_start limit_len (some fetch) group = given_coll coll (
    send_cmd 6 39 (
      entry_coll coll
      ∷ entry_int limit_start
      ∷ entry_int limit_len
      ∷ or_empty order
      ∷ some fetch
      ∷ or_empty group
      ∷ []))

unfoldable pub broadcast_collection_changed : Call
unfolding send_broadcast_msg
broadcast_collection_changed = send_broadcast_msg 10

-- Whether malloc grants the buffer of an encoded URL. Here a null pointer for it is passed on.
module _ (granted : Bool) where
  unfoldable pub encoded_or_null : Option Text → (Option Text → Call) → Call
  unfolding encode_url
  encoded_or_null none again = again none
  encoded_or_null (some path) again = elim (encode_url granted path none) [
    | Encoded.encoded enc ↦ again (some enc)
    | Encoded.null ↦ again none
    | Encoded.overflow ↦ Call.overflow
  ]

  unfoldable pub coll_idlist_from_playlist_file : Option Text → Call
  unfolding send_cmd entry_str encoded_or_null
  coll_idlist_from_playlist_file path =
      encoded_or_null path λ enc. send_cmd 6 40 (entry_str enc ∷ [])
