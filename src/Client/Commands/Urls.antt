-- ===== src/Client/Commands/Urls.antt =====
-- The commands that take a URL: whatever bytes it has, the server can decode them from what it is
-- sent.
use xmms2remote.Prelude.{
  ℕ, zero, suc, ◌<◌, ◌==◌, ◌≡◌, refl, Bool, true, false, ◌&&◌, [], ◌∷◌, inl, inr, Option, none,
  some, All, arith, Bool-cases, ==_iff,
}
use Prim.Native.Nat.{bit_and}
use xmms2remote.Value.{Text, Value, Items, nil, cons, new_string}
use xmms2remote.Value.Utf8.{utf8_charlen, utf8_validate_from, utf8_validate}
use xmms2remote.Url.{encode_url, decode_url, good_char, verify_char, verify_url}
use xmms2remote.Url.RoundTrip.{decode_url-encode_url}
use xmms2remote.Client.Commands.{
  Call, sends, build_list, send_cmd, entry_str, given, verified, with_url,
}
use xmms2remote.Client.Commands.Playlist.{
  active, playlist_rinsert, playlist_rinsert_encoded, playlist_insert_url, playlist_insert_full,
  playlist_insert_encoded, playlist_radd, playlist_radd_encoded, playlist_add_url,
  playlist_add_full, playlist_add_encoded,
}
use xmms2remote.Client.Commands.Medialib.{
  do_methodcall, medialib_get_id, medialib_get_id_encoded, medialib_add_entry,
  medialib_add_entry_full, medialib_add_entry_encoded, medialib_import_path,
  medialib_import_path_encoded, media_browse, media_browse_encoded,
}

both : (a b : Bool) → (a && b) ≡ true → (a ≡ true) × (b ≡ true)
both true b e = (refl, e)
both false b e = cc

all_below : ℕ → (ℕ → Bool) → Bool
all_below zero f = true
all_below (suc n) f = f n && all_below n f

all_below_lem : (n : ℕ) (f : ℕ → Bool) (c : ℕ) → all_below n f ≡ true → c < n → f c ≡ true
unfolding all_below
all_below_lem zero f c e lt = absurd (omega arith)
all_below_lem (suc n) f c e lt = elim (Bool-cases (c == n)) [
  | inl b ↦ (rw ((==_iff c n).0 b) (both (f n) (all_below n f) e).0)
  | inr b ↦ all_below_lem n f c (both (f n) (all_below n f) e).1 (ground arith)
]

ascii : ℕ → Bool
ascii c = bit_and c 0x80 == 0

ascii_all : all_below 128 ascii ≡ true
unfolding all_below ascii
ascii_all = refl

verify_char-ascii : (c : ℕ) → verify_char c ≡ true → (c < 128) × ((c == 0) ≡ false)
unfolding verify_char good_char
verify_char-ascii c h = (ground arith, ground arith)

-- An encoded URL is ASCII.
verify_url-utf8 : (s : Text) → verify_url s ≡ true → utf8_validate_from 0 s ≡ true
unfolding verify_url utf8_validate_from utf8_charlen ascii
verify_url-utf8 [] h = refl
verify_url-utf8 (c ∷ s) h =
    let (good, rest) = both (verify_char c) (verify_url s) h in
    let (lt, ne) = verify_char-ascii c good in
    let one : ascii c ≡ true = all_below_lem 128 ascii c ascii_all lt in
    rw (utf8_validate_from, utf8_charlen, one, ne) (verify_url-utf8 s rest)

new_string-verified : (s : Text) → verify_url s ≡ true → new_string s ≡ some (Value.string s)
unfolding new_string utf8_validate
new_string-verified s h = rw (new_string, verify_url-utf8 s h) refl

-- The call sends a request to the object with the command, whose arguments are these with some text
-- among them that the server decodes to the bytes.
abbrev pub SendsUrl : Text → ℕ → ℕ → (Value → Items) → Call → Type 0
SendsUrl url object cmd args call =
    (enc : Text) × (call
      ≡ sends (record { object = object; cmd = cmd; args = Value.list (args (Value.string enc)) }))
    × (decode_url true (Value.string enc) ≡ some (Value.bin url))

abbrev pub last : Value → Items
last v = cons v nil

module _ (url : Text) (bytes : All (λ c. c < 256) url) where
  -- A command that passes on what `again` does with an encoded URL.
  with_url-SendsUrl :
      (object cmd : ℕ) (args : Value → Items) (again : Text → Call)
      → ((enc : Text)
          → verify_url enc ≡ true
          → new_string enc ≡ some (Value.string enc)
          → again enc
            ≡ sends (record {
              object = object;
              cmd = cmd;
              args = Value.list (args (Value.string enc));
            }))
      → SendsUrl url object cmd args (with_url (encode_url true url none) again)
  unfolding with_url
  with_url-SendsUrl object cmd args again f =
      let (enc, e, v, d) = decode_url-encode_url url bytes in
      (enc, rw (with_url, e) (f enc v (new_string-verified enc v)), d)

  -- The commands of the media library with a URL of any bytes, and the one that browses it: each
  -- sends one text, which is decoded to these bytes.
  pub medialib-SendsUrl :
      SendsUrl url 5 35 last (medialib_get_id true (some url))
      × SendsUrl url 5 41 last (medialib_add_entry true (some url))
      × SendsUrl url 5 33 last (medialib_import_path true (some url))
      × SendsUrl url 9 32 last (media_browse true (some url))
  unfolding medialib_get_id medialib_add_entry medialib_add_entry_full medialib_import_path
      media_browse medialib_get_id_encoded medialib_add_entry_encoded medialib_import_path_encoded
      media_browse_encoded do_methodcall given verified send_cmd entry_str build_list
  medialib-SendsUrl = (
    with_url-SendsUrl 5 35 last (λ enc. medialib_get_id_encoded (some enc)) λ enc v s. rw (s) refl,
    with_url-SendsUrl 5 41 last medialib_add_entry_encoded λ enc v s. rw (v, s) refl,
    with_url-SendsUrl 5 33 last medialib_import_path_encoded λ enc v s. rw (v, s) refl,
    with_url-SendsUrl 9 32 last (λ enc. media_browse_encoded (some enc)) λ enc v s. rw (v, s) refl,
  )

  -- The commands that put a URL into a playlist.
  module _ (playlist : Option Text) (name : Text) (named : active playlist ≡ some name)
      (valid : utf8_validate name ≡ true) where
    name_entry : new_string name ≡ some (Value.string name)
    unfolding new_string
    name_entry = rw (new_string, valid) refl

    -- The commands that add a URL of any bytes to a playlist (the active one if none is given) or
    -- insert it at a position, with all files below it or alone: each sends the name of the
    -- playlist, the position if there is one, and one text, which is decoded to these bytes.
    pub playlist-SendsUrl :
        (pos : ℕ)
        → SendsUrl url 2 35
            (λ v. cons (Value.string name) (cons v nil))
            (playlist_add_url true playlist (some url))
          × SendsUrl url 2 50
              (λ v. cons (Value.string name) (cons v nil))
              (playlist_radd true playlist (some url))
          × SendsUrl url 2 46
              (λ v. cons (Value.string name) (cons (Value.int pos) (cons v nil)))
              (playlist_insert_url true playlist pos (some url))
          × SendsUrl url 2 51
              (λ v. cons (Value.string name) (cons (Value.int pos) (cons v nil)))
              (playlist_rinsert true playlist pos (some url))
    unfolding playlist_add_url playlist_add_full playlist_add_encoded playlist_radd
        playlist_radd_encoded playlist_insert_url playlist_insert_full playlist_insert_encoded
        playlist_rinsert playlist_rinsert_encoded given verified send_cmd entry_str build_list
    playlist-SendsUrl pos = (
      with_url-SendsUrl 2 35 (λ v. cons (Value.string name) (cons v nil))
          (λ enc. playlist_add_encoded playlist (some enc))
          λ enc v s. rw (v, named, name_entry, s) refl,
      with_url-SendsUrl 2 50 (λ v. cons (Value.string name) (cons v nil))
          (λ enc. playlist_radd_encoded playlist (some enc))
          λ enc v s. rw (v, named, name_entry, s) refl,
      with_url-SendsUrl 2 46 (λ v. cons (Value.string name) (cons (Value.int pos) (cons v nil)))
          (playlist_insert_encoded playlist pos) λ enc v s. rw (v, named, name_entry, s) refl,
      with_url-SendsUrl 2 51 (λ v. cons (Value.string name) (cons (Value.int pos) (cons v nil)))
          (λ enc. playlist_rinsert_encoded playlist pos (some enc))
          λ enc v s. rw (v, named, name_entry, s) refl,
    )
