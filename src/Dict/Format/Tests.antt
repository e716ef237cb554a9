-- ===== src/Dict/Format/Tests.antt =====
-- The entry of a playlist as a text.
use xmms2remote.Prelude.{◌≡◌, refl, some, take, [], ◌+ℤ◌}
use xmms2remote.Value.{Fields, dict, end, field, string, int, fields_to_list}
use xmms2remote.Value.Text.{codes, strcmp}
use xmms2remote.CollParser.Number.{show, show_digits, wrap}
use xmms2remote.Dict.Sorted.{Sorted}
use xmms2remote.Dict.Propdict.{sources_of}
use xmms2remote.Dict.Format.{
  dict_format, show_key, is_key, show_duration, show_02, towards_zero, int32, duration_of, get_int,
  seconds,
}
use xmms2remote.Dict.Format.Template.{Template, ends, key, print, meaning, dict_format-meaning}

-- Three minutes and a little less than four and a half seconds.
abbrev song : Fields
song = field (codes "artist") (string (codes "A")) (field (codes "duration") (int 184499) end)

song-Sorted : Sorted (fields_to_list song)
unfolding fields_to_list strcmp
song-Sorted = ((refl, tt), (tt, tt))

abbrev entry : Template
entry =
    key [] (codes "artist")
      (key (codes " ") (codes "minutes") (key (codes ":") (codes "seconds") (ends [])))

format : print entry ≡ codes "${artist} ${minutes}:${seconds}"
unfolding print
format = refl

dict_format-meaning_example :
    dict_format 0 8 (print entry) (dict song)
    ≡ some (take 7 (meaning 0 (fields_to_list song) song-Sorted entry))
unfolding sources_of
dict_format-meaning_example =
    dict_format-meaning 0 (fields_to_list song) song-Sorted 7 entry (dict song)
      (
        tt,
        (refl, (refl, (refl, (refl, (refl, (refl, tt)))))),
        (
          (refl, tt),
          (refl, (refl, (refl, (refl, (refl, (refl, (refl, tt))))))),
          ((refl, tt), (refl, (refl, (refl, (refl, (refl, (refl, (refl, tt))))))), tt),
        ),
      )
      refl

shown : show_key 0 (codes "seconds") (some (int 1)) (some (int 184499)) ≡ codes "04"
unfolding show_key is_key show_duration show_02 towards_zero int32 duration_of get_int seconds show
    show_digits wrap strcmp ◌+ℤ◌
shown = refl
