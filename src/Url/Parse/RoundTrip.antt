-- ===== src/Url/Parse/RoundTrip.antt =====
-- A URL that is put together from its parts is taken apart into them again.
use xmms2remote.Prelude.{
  ℕ, suc, ◌+◌, ◌==◌, ◌≡◌, refl, ap, ◌∙◌, Bool, true, false, if◌then◌else◌, [], ◌∷◌, ◌++◌, length,
  drop, arith, take-append, append_assoc, append-nil, drop-append_at, length-append,
}
use xmms2remote.Value.{Text}
use xmms2remote.Value.Text.{codes}
use xmms2remote.Value.Search.{strchr, Without, Without-append, strchr-append}
use xmms2remote.Url.Parse.{
  Url, parts_at, strpchrsplit, or_parts, shift_left, parse_ipv6, parse_ipv4, in_brackets,
  strchrsplit, strrchrsplit, with_login, with_sides, with_place, with_protocol, parse_url,
}
use xmms2remote.Url.Parse.Search.{
  parts_at-append, strchrsplit-append, strchrsplit-none, strrchrsplit-append, strrchrsplit-none,
  strstrsplit-append,
}

-- A part that is left out with its separator if it is empty.
unfoldable pub behind : ℕ → Text → Text
behind sep [] = []
behind sep (c ∷ s) = sep ∷ c ∷ s

unfoldable pub print_host : Bool → Text → Text
print_host true host = b'[' ∷ (host ++ b']' ∷ [])
print_host false host = host

unfoldable pub ended : ℕ → Text → Text
ended sep [] = []
ended sep (c ∷ s) = (c ∷ s) ++ sep ∷ []

abbrev pub login : Url → Text
login u = u.username ++ behind b':' u.password

unfoldable pub print_target : Url → Text
unfolding print_host behind
print_target u = print_host u.ipv6_host u.host ++ behind b':' u.port

unfoldable pub print_place : Url → Text
unfolding ended print_target
print_place u = ended b'@' (login u) ++ print_target u

-- The URL with these parts.
unfoldable pub print_url : Url → Text
unfolding print_place behind
print_url u = u.protocol ++ (codes "://" ++ (print_place u ++ behind b'/' u.path))

abbrev pub IsHost : Bool → Text → Type 0
IsHost true host = Without b']' host
IsHost false host = Without b':' host × (in_brackets host ≡ false)

-- No part but the path has a separator that ends it.
pub record Separable (u : Url) : Type 0 where
  pub protocol_ok : Without b':' u.protocol
  pub username_ok : Without b'/' u.username × Without b'@' u.username × Without b':' u.username
  pub password_ok : Without b'/' u.password × Without b'@' u.password
  pub host_ok : Without b'/' u.host × Without b'@' u.host × IsHost u.ipv6_host u.host
  pub port_ok : Without b'/' u.port × Without b'@' u.port × Without b':' u.port

module _ (sep other : ℕ) (differs : (other == sep) ≡ false) where
  behind-Without : (s : Text) → Without sep s → Without sep (behind other s)
  unfolding behind
  behind-Without [] p = tt
  behind-Without (c ∷ s) p = (differs, p)

behind-split :
    (a s : Text) (sep : ℕ)
    → Without sep a
    → or_parts (strchrsplit (a ++ behind sep s) sep) (a ++ behind sep s, []) ≡ (a, s)
unfolding behind or_parts
behind-split a [] sep p = rw (append-nil a, strchrsplit-none a sep p) refl
behind-split a (c ∷ s) sep p = rw (strchrsplit-append a (c ∷ s) sep p) refl

behind-rsplit :
    (a s : Text) (sep : ℕ)
    → Without sep a
    → Without sep s
    → or_parts (strrchrsplit (a ++ behind sep s) sep) (a ++ behind sep s, []) ≡ (a, s)
unfolding behind or_parts
behind-rsplit a [] sep p q = rw (append-nil a, strrchrsplit-none a sep p) refl
behind-rsplit a (c ∷ s) sep p q = rw (strrchrsplit-append a (c ∷ s) sep q) refl

parse_ipv4-print :
    (host port : Text)
    → Without b':' host
    → Without b':' port
    → parse_ipv4 (host ++ behind b':' port) ≡ (host, port)
unfolding parse_ipv4
parse_ipv4-print host port p q = behind-rsplit host port b':' p q

shift_left_lem : (h : Text) (b : Text) → shift_left (b'[' ∷ (h ++ b)) (length h) ≡ h
unfolding shift_left
shift_left_lem h b = rw (take-append h b) (take-append h (drop (length h) (b'[' ∷ (h ++ b))))

ended-split :
    (s b : Text) (sep : ℕ)
    → Without sep s
    → Without sep b
    → or_parts (strchrsplit (ended sep s ++ b) sep) ([], ended sep s ++ b) ≡ (s, b)
unfolding ended or_parts
ended-split [] b sep p q = rw (strchrsplit-none b sep q) refl
ended-split (c ∷ s) b sep p q =
    rw (append_assoc (c ∷ s) (sep ∷ []) b, strchrsplit-append (c ∷ s) b sep p) refl

-- The port behind an address in brackets.
port_split :
    (host port : Text)
    → let text = b'[' ∷ (host ++ b']' ∷ behind b':' port) in
      or_parts (strpchrsplit text (suc (length host)) b':') (text, [])
      ≡ (b'[' ∷ (host ++ b']' ∷ []), port)
unfolding strpchrsplit parts_at or_parts behind strchr
port_split host [] = rw (strpchrsplit, drop-append_at (length host) host (b']' ∷ []) refl) refl
port_split host (c ∷ s) =
    rw
      (
        strpchrsplit,
        drop-append_at (length host) host (b']' ∷ b':' ∷ c ∷ s) refl,
        ← append_assoc host (b']' ∷ []) (b':' ∷ c ∷ s),
        at,
      )
      (ap (λ o. or_parts o (text, [])) (parts_at-append before (b':' ∷ []) (c ∷ s)))
  where
    before : Text
    before = b'[' ∷ (host ++ b']' ∷ [])

    text : Text
    text = before ++ b':' ∷ c ∷ s

    at : suc (length host) + 1 ≡ length before
    at = omega (arith, length-append host (b']' ∷ []))

parse_ipv6-print :
    (host port : Text)
    → Without b']' host
    → parse_ipv6 (b'[' ∷ (host ++ b']' ∷ behind b':' port)) ≡ (host, port)
unfolding parse_ipv6
parse_ipv6-print host port p =
    rw (parse_ipv6, strchr-append host (behind b':' port) b']' p, port_split host port)
      (rw (shift_left_lem host (b']' ∷ [])) refl)

ended-Without : (s : Text) → Without b'/' s → Without b'/' (ended b'@' s)
unfolding ended
ended-Without [] p = tt
ended-Without (c ∷ s) p = Without-append b'/' (c ∷ s) (b'@' ∷ []) p (refl, tt)

in_brackets-append : (h s : Text) → in_brackets h ≡ false → in_brackets (h ++ behind b':' s) ≡ false
unfolding in_brackets behind
in_brackets-append [] [] q = refl
in_brackets-append [] (c ∷ s) q = refl
in_brackets-append (c ∷ h) s q = q

module _ (u : Url) (ok : Separable u) where
  login-Without : Without b'@' (login u)
  login-Without =
      Without-append b'@' u.username (behind b':' u.password) ok.username_ok.1
        (behind-Without b'@' b':' refl u.password ok.password_ok.1)

  target-Without :
      (sep : ℕ)
      → (b':' == sep) ≡ false
      → (b'[' == sep) ≡ false
      → (b']' == sep) ≡ false
      → Without sep u.host
      → Without sep u.port
      → Without sep (print_target u)
  unfolding print_target print_host
  target-Without sep colon left right p q =
      Without-append sep (print_host u.ipv6_host u.host) (behind b':' u.port) (host u.ipv6_host)
        (behind-Without sep b':' colon u.port q)
    where
      host : (v : Bool) → Without sep (print_host v u.host)
      host true = (left, Without-append sep u.host (b']' ∷ []) p (right, tt))
      host false = p

  place-Without : Without b'/' (print_place u)
  unfolding print_place
  place-Without =
      Without-append b'/' (ended b'@' (login u)) (print_target u)
        (ended-Without (login u) (
          Without-append b'/' u.username (behind b':' u.password) ok.username_ok.0
            (behind-Without b'/' b':' refl u.password ok.password_ok.0)))
        (target-Without b'/' refl refl refl ok.host_ok.0 ok.port_ok.0)

  target-parts :
      (v : Bool)
      → IsHost v u.host
      → (in_brackets (print_host v u.host ++ behind b':' u.port) ≡ v)
        × ((if v
              then parse_ipv6 (print_host v u.host ++ behind b':' u.port)
              else parse_ipv4 (print_host v u.host ++ behind b':' u.port))
            ≡ (u.host, u.port))
  unfolding print_host in_brackets
  target-parts true p = (
    refl,
    rw (append_assoc u.host (b']' ∷ []) (behind b':' u.port)) (parse_ipv6-print u.host u.port p),
  )
  target-parts false (p, q) =
      (in_brackets-append u.host u.port q, parse_ipv4-print u.host u.port p ok.port_ok.2)

  -- A URL that is put together from parts, no one of which but the path has a separator that would
  -- end it, is taken apart into these parts: the protocol, the login, the host (with or without
  -- brackets), the port and the path, any of which may be empty.
  pub parse_url-print_url : parse_url (print_url u) ≡ u
  unfolding parse_url with_protocol with_place with_sides print_url print_place print_target
      or_parts
  parse_url-print_url =
      ap (λ o. with_protocol (or_parts o ([], print_url u)))
        (strstrsplit-append u.protocol (print_place u ++ behind b'/' u.path) ok.protocol_ok)
      ∙ (ap (with_place u.protocol) (behind-split (print_place u) u.path b'/' place-Without)
          ∙ (ap (with_sides u.protocol u.path) (
                ended-split (login u) (print_target u) b'@' login-Without
                  (target-Without b'@' refl refl refl ok.host_ok.1 ok.port_ok.1))
              ∙ (ap (with_login u.protocol u.path (print_target u))
                    (behind-split u.username u.password b':' ok.username_ok.2)
                  ∙ with_target)))
    where
      with_target : with_login u.protocol u.path (print_target u) (u.username, u.password) ≡ u
      with_target =
          let (brackets, parts) = target-parts u.ipv6_host ok.host_ok.2 in
          rw (with_login, brackets, parts) refl
