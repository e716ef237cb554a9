-- ===== src/Url/Parse.antt =====
-- Taking a URL apart: xmmsclient/xmmsipc/url.c, over the searches of Value/Search.
pub mod Search
pub mod RoundTrip
mod Tests
use xmms2remote.Prelude.{
  ℕ, zero, suc, ◌+◌, ◌-◌, ◌==◌, if◌then◌else◌, Bool, true, false, ◌&&◌, List, [], ◌∷◌, ◌++◌, Option,
  none, some, length, take, drop,
}
use xmms2remote.Value.{Text}
use xmms2remote.Value.Text.{codes}
use xmms2remote.Value.Search.{strchr, strrchr, strstr}

-- The texts before and behind a separator of some length at an offset.
unfoldable pub parts_at : Text → ℕ → Option ℕ → Option (Text × Text)
parts_at str sep_len none = none
parts_at str sep_len (some n) = some (take n str, drop (n + sep_len) str)

-- `strstrsplit`, `strchrsplit`, `strrchrsplit` and `strpchrsplit` (where the search starts at an
-- offset); `none` where they return 1.
unfoldable pub strstrsplit : Text → Text → Option (Text × Text)
unfolding parts_at strstr
strstrsplit str sep = parts_at str (length sep) (strstr str sep)

unfoldable pub strchrsplit : Text → ℕ → Option (Text × Text)
unfolding parts_at strchr
strchrsplit str sep = parts_at str 1 (strchr str sep)

unfoldable pub strrchrsplit : Text → ℕ → Option (Text × Text)
unfolding parts_at strrchr
strrchrsplit str sep = parts_at str 1 (strrchr str sep)

abbrev from : ℕ → Option ℕ → Option ℕ
from pos none = none
from pos (some n) = some (pos + n)

unfoldable pub strpchrsplit : Text → ℕ → ℕ → Option (Text × Text)
unfolding parts_at strchr
strpchrsplit str pos sep = parts_at str 1 (from pos (strchr (drop pos str) sep))

-- `xmms_url_t`.
pub record Url : Type 0 where
  pub protocol : Text
  pub username : Text
  pub password : Text
  pub host : Text
  pub ipv6_host : Bool
  pub port : Text
  pub path : Text

-- What a call that splits stores, or what stands for it where it returns 1.
unfoldable pub or_parts : Option (Text × Text) → Text × Text → Text × Text
or_parts none other = other
or_parts (some parts) other = parts

-- `memmove (host, host + 1, n)` and the NUL behind it.
unfoldable pub shift_left : Text → ℕ → Text
shift_left host n = take n (take n (drop 1 host) ++ drop n host)

-- The fields of host and port: whether the host is an address in brackets, the host, the port.
unfoldable pub parse_ipv6 : Text → Text × Text
unfolding strchr strpchrsplit or_parts shift_left
parse_ipv6 text = elim (strchr (drop 1 text) b']') [
  | none ↦ (drop 1 text, [])
  | some n ↦
      let parts = or_parts (strpchrsplit text (suc n) b':') (text, []) in
      (shift_left parts.0 n, parts.1)
]

unfoldable pub parse_ipv4 : Text → Text × Text
unfolding strrchrsplit or_parts
parse_ipv4 text = or_parts (strrchrsplit text b':') (text, [])

unfoldable pub in_brackets : Text → Bool
in_brackets [] = false
in_brackets (c ∷ s) = c == b'['

-- `parse_url` behind each of its splits in turn, from the last one on: of the login, of login and
-- host, of the place and the path, and of the protocol.
unfoldable pub with_login : Text → Text → Text → Text × Text → Url
unfolding parse_ipv6 parse_ipv4 in_brackets
with_login protocol path text login =
    let ipv6 = in_brackets text in
    let target = if ipv6 then parse_ipv6 text else parse_ipv4 text in
    record {
      protocol = protocol;
      username = login.0;
      password = login.1;
      host = target.0;
      ipv6_host = ipv6;
      port = target.1;
      path = path;
    }

unfoldable pub with_sides : Text → Text → Text × Text → Url
unfolding with_login strchrsplit or_parts
with_sides protocol path (login, text) =
    with_login protocol path text (or_parts (strchrsplit login b':') (login, []))

unfoldable pub with_place : Text → Text × Text → Url
unfolding with_sides strchrsplit or_parts
with_place protocol (place, path) =
    with_sides protocol path (or_parts (strchrsplit place b'@') ([], place))

unfoldable pub with_protocol : Text × Text → Url
unfolding with_place strchrsplit or_parts
with_protocol (protocol, text) = with_place protocol (or_parts (strchrsplit text b'/') (text, []))

unfoldable pub parse_url : Text → Url
unfolding with_protocol strstrsplit or_parts
parse_url url = with_protocol (or_parts (strstrsplit url (codes "://")) ([], url))
