-- ===== src/Dict/Propdict/Tests.antt =====
-- The info of a medialib entry with two sources, where the setting of one key is refused.
use xmms2remote.Prelude.{◌≡◌, refl, true}
use xmms2remote.Value.{Text, Fields, dict, end, field, string, int}
use xmms2remote.Value.Text.{codes}
use xmms2remote.Dict.Sorted.{Sorted}
use xmms2remote.Dict.{Grants}
use xmms2remote.Dict.Propdict.{source_match_pattern, strcasecmp, strncasecmp, tolower, ends_in_star}

abbrev info : Fields
info =
    field (codes "artist")
      (dict (
        field (codes "Plugin/id3v2") (string (codes "B"))
          (field (codes "client/me") (string (codes "A")) end)))
      (field (codes "id") (dict (field (codes "server") (int 7) end)) end)

abbrev artist_only : Text → Grants
artist_only key = record { iterator = true; first = strcasecmp key (codes "artist"); second = true }

-- The case of the letters does not matter, and a star stands for any end.
matches : source_match_pattern (codes "Plugin/id3v2") (codes "plugin/*") ≡ true
unfolding source_match_pattern strcasecmp strncasecmp tolower ends_in_star
matches = refl
