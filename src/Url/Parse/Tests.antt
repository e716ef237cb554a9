-- ===== src/Url/Parse/Tests.antt =====
-- URLs of xmms2 servers taken apart.
use xmms2remote.Prelude.{◌≡◌, refl, true}
use xmms2remote.Value.Text.{codes}
use xmms2remote.Value.Search.{strchr, strrchr, starts_with, strstr}
use xmms2remote.Url.Parse.{
  Url, parts_at, strstrsplit, strchrsplit, strrchrsplit, strpchrsplit, or_parts, shift_left,
  parse_ipv6, parse_ipv4, in_brackets, with_login, with_sides, with_place, with_protocol, parse_url,
}
use xmms2remote.Url.Parse.RoundTrip.{print_url, parse_url-print_url}

abbrev server : Url
server = record {
  protocol = codes "tcp";
  username = codes "me";
  password = codes "p:w";
  host = codes "::1";
  ipv6_host = true;
  port = codes "9667";
  path = codes "a/b";
}

run : parse_url (codes "tcp://me:p:w@[::1]:9667/a/b") ≡ server
unfolding parse_url with_protocol with_place with_sides with_login strstrsplit strchrsplit
    strrchrsplit strpchrsplit strchr strrchr starts_with strstr parts_at or_parts shift_left
    parse_ipv6 parse_ipv4 in_brackets
run = refl

-- Without a port the last group of digits of an address without brackets is taken for it.
run_bare : parse_ipv4 (codes "::1") ≡ (codes ":", codes "1")
unfolding parse_ipv4 strrchrsplit strrchr parts_at or_parts
run_bare = refl

parse_url-print_url_example : parse_url (print_url server) ≡ server
parse_url-print_url_example = parse_url-print_url server (record {
  protocol_ok = (refl, (refl, (refl, tt)));
  username_ok = ((refl, (refl, tt)), (refl, (refl, tt)), (refl, (refl, tt)));
  password_ok = ((refl, (refl, (refl, tt))), (refl, (refl, (refl, tt))));
  host_ok = ((refl, (refl, (refl, tt))), (refl, (refl, (refl, tt))), (refl, (refl, (refl, tt))));
  port_ok = (
    (refl, (refl, (refl, (refl, tt)))),
    (refl, (refl, (refl, (refl, tt)))),
    (refl, (refl, (refl, (refl, tt)))),
  );
})
