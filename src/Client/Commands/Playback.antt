-- ===== src/Client/Commands/Playback.antt =====
-- The commands of xmmsclient/xmmsclient/playback.c.
use xmms2remote.Prelude.{ℕ, [], ◌∷◌, Option}
use xmms2remote.Value.{Text}
use xmms2remote.Client.Commands.{
  Call, send_cmd, send_msg_no_arg, send_broadcast_msg, send_signal_msg, entry_str, entry_int, given,
}

unfoldable pub playback_tickle : Call
unfolding send_msg_no_arg
playback_tickle = send_msg_no_arg 4 35

unfoldable pub playback_stop : Call
unfolding send_msg_no_arg
playback_stop = send_msg_no_arg 4 33

unfoldable pub playback_pause : Call
unfolding send_msg_no_arg
playback_pause = send_msg_no_arg 4 34

unfoldable pub playback_start : Call
unfolding send_msg_no_arg
playback_start = send_msg_no_arg 4 32

unfoldable pub playback_status : Call
unfolding send_msg_no_arg
playback_status = send_msg_no_arg 4 39

unfoldable pub playback_current_id : Call
unfolding send_msg_no_arg
playback_current_id = send_msg_no_arg 4 40

unfoldable pub playback_playtime : Call
unfolding send_msg_no_arg
playback_playtime = send_msg_no_arg 4 36

unfoldable pub playback_volume_get : Call
unfolding send_msg_no_arg
playback_volume_get = send_msg_no_arg 4 42

unfoldable pub playback_seek_ms_abs : ℕ → Call
unfolding send_cmd
playback_seek_ms_abs ms = send_cmd 4 37 (entry_int ms ∷ entry_int 2 ∷ [])

unfoldable pub playback_seek_ms_rel : ℕ → Call
unfolding send_cmd
playback_seek_ms_rel ms = send_cmd 4 37 (entry_int ms ∷ entry_int 1 ∷ [])

unfoldable pub playback_seek_ms : ℕ → ℕ → Call
unfolding send_cmd
playback_seek_ms ms whence = send_cmd 4 37 (entry_int ms ∷ entry_int whence ∷ [])

unfoldable pub playback_seek_samples_abs : ℕ → Call
unfolding send_cmd
playback_seek_samples_abs samples = send_cmd 4 38 (entry_int samples ∷ entry_int 2 ∷ [])

unfoldable pub playback_seek_samples_rel : ℕ → Call
unfolding send_cmd
playback_seek_samples_rel samples = send_cmd 4 38 (entry_int samples ∷ entry_int 1 ∷ [])

unfoldable pub playback_seek_samples : ℕ → ℕ → Call
unfolding send_cmd
playback_seek_samples samples whence = send_cmd 4 38 (entry_int samples ∷ entry_int whence ∷ [])

unfoldable pub broadcast_playback_status : Call
unfolding send_broadcast_msg
broadcast_playback_status = send_broadcast_msg 2

unfoldable pub broadcast_playback_current_id : Call
unfolding send_broadcast_msg
broadcast_playback_current_id = send_broadcast_msg 5

unfoldable pub broadcast_playback_volume_changed : Call
unfolding send_broadcast_msg
broadcast_playback_volume_changed = send_broadcast_msg 3

unfoldable pub signal_playback_playtime : Call
unfolding send_signal_msg
signal_playback_playtime = send_signal_msg 4

unfoldable pub playback_volume_set : Option Text → ℕ → Call
unfolding send_cmd entry_str given
playback_volume_set channel volume =
    given channel λ ch. send_cmd 4 41 (entry_str channel ∷ entry_int volume ∷ [])
