-- ===== src/Msg.antt =====
-- The IPC message, xmmsclient/xmmsipc/msg.c: the buffer that `struct xmms_ipc_msg_St` holds, its
-- header words in network byte order, and the outcome of an operation on it.

pub mod Put
pub mod Layout
pub mod Append
pub mod Encode
pub mod Get
pub mod Reads
pub mod Sendable
pub mod ReadParts
pub mod ReadColl
pub mod RoundTrip
pub mod Ends
pub mod Fresh
pub mod Sent
pub mod Transport
pub mod Faults
mod Tests
pub mod Writes
pub mod WriteValue
use xmms2remote.Prelude.{
  ℕ, ◌+◌, ◌*◌, ◌-◌, ◌/◌, ◌%◌, ◌^◌, ◌≤◌, ◌<◌, ◌≡◌, refl, Bool, true, false, List, [], ◌∷◌, ◌++◌,
  Option, none, some, length, take, drop, leb, if◌then◌else◌,
}

abbrev pub u32_mod : ℕ
u32_mod = 2 ^ 32

-- `XMMS_IPC_MSG_HEAD_LEN` and `XMMS_IPC_MSG_DEFAULT_SIZE`.
abbrev pub head_len : ℕ
head_len = 16

abbrev pub default_size : ℕ
default_size = 128

-- The bytes of `rawdata` (`size` of them are allocated), the read position in the data behind the
-- header, and the bytes transferred so far.
pub record Msg : Type 0 where
  pub rawdata : List ℕ
  pub get_pos : ℕ
  pub size : ℕ
  pub xfered : ℕ

-- The allocator of the C library: whether a request of so many bytes is granted, and what fresh
-- memory holds.
pub record Memory : Type 0 where
  pub grants : ℕ → Bool
  pub fresh : ℕ → List ℕ
  pub length-fresh : (n : ℕ) → length (fresh n) ≡ n

-- What a call does: return a value, return the failure code of its own (`false`, with the message
-- as it was left), or run into a memory fault (an access outside an allocation or through a null
-- pointer). `out_of_fuel` has no counterpart in the program.
pub data Result (A : Type 0) : Type 0 where
  ok : A → Msg → Result A
  failed : Msg → Result A
  fault out_of_fuel : Result A

abbrev pub M : Type 0 → Type 0
M A = Msg → Result A

abbrev pub bind : {A B : Type 0} → Result A → (A → Msg → Result B) → Result B
bind (ok a m) f = f a m
bind (failed m) f = failed m
bind fault f = fault
bind out_of_fuel f = out_of_fuel

infixl 5 ◌>>=◌ ◌>>◌
abbrev pub ◌>>=◌ : {A B : Type 0} → M A → (A → M B) → M B
◌>>=◌ p f m = bind (p m) f

abbrev pub ◌>>◌ : {B : Type 0} → M (Unit {0}) → M B → M B
p >> q = p >>= λ _. q

abbrev pub pure : {A : Type 0} → A → M A
pure a m = ok a m

abbrev pub current : M Msg
current m = ok m m

abbrev pub fail : {A : Type 0} → M A
fail m = failed m

abbrev pub crash : {A : Type 0} → M A
crash m = fault

-- `return false` unless the test holds.
abbrev pub require : Bool → M (Unit {0})
require true m = ok tt m
require false m = failed m

-- A memory access that the test allows.
abbrev pub access : Bool → M (Unit {0})
access true m = ok tt m
access false m = fault

-- The four bytes of `htonl (v)`, and `ntohl` of four bytes.
unfoldable pub be32 : ℕ → List ℕ
be32 v = v / 2 ^ 24 % 256 ∷ v / 2 ^ 16 % 256 ∷ v / 2 ^ 8 % 256 ∷ v % 256 ∷ []

unfoldable pub from_be32 : List ℕ → ℕ
from_be32 (a ∷ b ∷ c ∷ d ∷ []) = a * 2 ^ 24 + b * 2 ^ 16 + c * 2 ^ 8 + d
from_be32 _ = 0

-- `memcpy` out of a buffer and into one; `none` where it would leave the buffer.
unfoldable pub read_at : List ℕ → ℕ → ℕ → Option (List ℕ)
read_at buf off n = if leb (off + n) (length buf) then some (take n (drop off buf)) else none

unfoldable pub write_at : List ℕ → ℕ → List ℕ → Option (List ℕ)
write_at buf off bs =
    if leb (off + length bs) (length buf)
    then some (take off buf ++ (bs ++ drop (off + length bs) buf))
    else none

-- The four bytes at an offset of the header, as a number.
unfoldable pub word_at : ℕ → Msg → ℕ
unfolding from_be32
word_at off m = from_be32 (take 4 (drop off m.rawdata))

-- Storing bytes at an offset of `rawdata`.
unfoldable pub store_at : ℕ → List ℕ → M (Unit {0})
store_at off bs m = elim (write_at m.rawdata off bs) [
  | none ↦ fault
  | some buf ↦ ok tt (record m { rawdata = buf })
]

-- `xmms_ipc_msg_get_object`, `_get_cmd`, `_get_cookie`, `_get_length`: the header's words in turn.
pub get_object : Msg → ℕ
get_object m = word_at 0 m

unfoldable pub get_cmd : Msg → ℕ
get_cmd m = word_at 4 m

unfoldable pub get_cookie : Msg → ℕ
get_cookie m = word_at 8 m

unfoldable pub get_length : Msg → ℕ
unfolding word_at
get_length m = word_at 12 m

-- `xmms_ipc_msg_set_object`, `_set_cmd`, `_set_cookie`, `_set_length`.
pub set_object : ℕ → M (Unit {0})
set_object v = store_at 0 (be32 v)

pub set_cmd : ℕ → M (Unit {0})
set_cmd v = store_at 4 (be32 v)

unfoldable pub set_cookie : ℕ → M (Unit {0})
set_cookie v = store_at 8 (be32 v)

unfoldable pub set_length : ℕ → M (Unit {0})
set_length v = store_at 12 (be32 v)

-- `xmms_ipc_msg_alloc`: the header is zeroed, the rest of the buffer is as `malloc` left it.
abbrev zeros : List ℕ
zeros = 0 ∷ 0 ∷ 0 ∷ 0 ∷ 0 ∷ 0 ∷ 0 ∷ 0 ∷ 0 ∷ 0 ∷ 0 ∷ 0 ∷ 0 ∷ 0 ∷ 0 ∷ 0 ∷ []

unfoldable pub alloc : Memory → Result (Unit {0})
unfolding write_at
alloc mem =
    if mem.grants default_size
    then elim (write_at (mem.fresh default_size) 0 zeros) [
      | none ↦ fault
      | some buf ↦ ok tt (record { rawdata = buf; get_pos = 0; size = default_size; xfered = 0 })
    ]
    else fault

-- `xmms_ipc_msg_new`.
pub new : Memory → ℕ → ℕ → Result (Unit {0})
new mem object cmd = bind (alloc mem) λ _. set_cmd cmd >> set_object object
