-- ===== src/Client/Commands/Tests.antt =====
-- Commands with a URL that has a space and a byte above 127.
use xmms2remote.Prelude.{◌<◌, ◌≡◌, refl, All, none, [], ◌∷◌, arith, some, true}
use xmms2remote.Value.{Text, Value, nil, cons}
use xmms2remote.Value.Text.{codes}
use xmms2remote.Value.Utf8.{utf8_validate}
use xmms2remote.Client.Commands.{sends, send_cmd, entry_str, build_list, given}
use xmms2remote.Value.{new_string}
use xmms2remote.Client.Commands.Playlist.{
  active, playlist_add_url, playlist_radd, playlist_insert_url, playlist_rinsert,
}
use xmms2remote.Client.Commands.Medialib.{
  medialib_get_id, medialib_add_entry, medialib_import_path, media_browse,
}
use xmms2remote.Client.Commands.Settings.{config_set_value}
use xmms2remote.Client.Commands.Urls.{SendsUrl, last, medialib-SendsUrl, playlist-SendsUrl}

abbrev url : Text
url = b'a' ∷ b' ' ∷ 200 ∷ []

url_bytes : All (λ c. c < 256) url
url_bytes = (omega arith, (omega arith, (omega arith, tt)))

medialib-SendsUrl_example :
    SendsUrl url 5 35 last (medialib_get_id true (some url))
    × SendsUrl url 5 41 last (medialib_add_entry true (some url))
    × SendsUrl url 5 33 last (medialib_import_path true (some url))
    × SendsUrl url 9 32 last (media_browse true (some url))
medialib-SendsUrl_example = medialib-SendsUrl url url_bytes

active_utf8 : utf8_validate (codes "_active") ≡ true
unfolding utf8_validate
active_utf8 = refl

playlist-SendsUrl_example :
    SendsUrl url 2 35
      (λ v. cons (Value.string (codes "_active")) (cons v nil))
      (playlist_add_url true none (some url))
    × SendsUrl url 2 50
        (λ v. cons (Value.string (codes "_active")) (cons v nil))
        (playlist_radd true none (some url))
    × SendsUrl url 2 46
        (λ v. cons (Value.string (codes "_active")) (cons (Value.int 3) (cons v nil)))
        (playlist_insert_url true none 3 (some url))
    × SendsUrl url 2 51
        (λ v. cons (Value.string (codes "_active")) (cons (Value.int 3) (cons v nil)))
        (playlist_rinsert true none 3 (some url))
unfolding active
playlist-SendsUrl_example =
    playlist-SendsUrl url url_bytes none (codes "_active") refl active_utf8 3

-- A value that is no text is dropped, and the server is sent the key alone.
key_alone :
    config_set_value (some (codes "k")) none
    ≡ sends
        (record { object = 3; cmd = 33; args = Value.list (cons (Value.string (codes "k")) nil) })
unfolding config_set_value given send_cmd build_list entry_str new_string utf8_validate
key_alone = refl
