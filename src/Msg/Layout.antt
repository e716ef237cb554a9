-- ===== src/Msg/Layout.antt =====
-- The bytes of a message buffer: twelve bytes of object, cmd and cookie, the length word, the data
-- and what is allocated behind it. How the accessors of msg.c act on such a buffer.
use xmms2remote.Prelude.{
  ℕ, ◌+◌, ◌^◌, ◌<◌, ◌≡◌, refl, ap, sym, ◌∙◌, List, ◌++◌, some, length, take, drop, arith,
  length-append, length-take, length-drop, take-append-drop, take-append_at, drop-append_at,
  take-append, append_assoc, le→leb,
}
use xmms2remote.Msg.{
  Msg, ok, be32, from_be32, read_at, write_at, word_at, store_at, get_length, set_length,
  set_cookie,
}

pub length-be32 : (v : ℕ) → length (be32 v) ≡ 4
unfolding be32
length-be32 v = refl

-- A word goes into network byte order and back unchanged.
pub from_be32-be32 : (v : ℕ) → v < 2 ^ 32 → from_be32 (be32 v) ≡ v
unfolding be32 from_be32
from_be32-be32 v h = omega arith

module _ (a b c : List ℕ) where
  -- Reading and overwriting the middle of a buffer.
  pub read_at_middle : (off : ℕ) → off ≡ length a → read_at (a ++ (b ++ c)) off (length b) ≡ some b
  unfolding read_at
  read_at_middle off e =
      rw
        (le→leb (off + length b) (length (a ++ (b ++ c)))
          (omega (arith, length-append a (b ++ c), length-append b c)))
        (rw (drop-append_at off a (b ++ c) e) (ap some (take-append b c)))

  pub write_at_middle :
      (off : ℕ) (bs : List ℕ)
      → off ≡ length a
      → length bs ≡ length b
      → write_at (a ++ (b ++ c)) off bs ≡ some (a ++ (bs ++ c))
  unfolding write_at
  write_at_middle off bs e l =
      rw
        (le→leb (off + length bs) (length (a ++ (b ++ c)))
          (omega (arith, length-append a (b ++ c), length-append b c)))
        (rw (take-append_at off a (b ++ c) e, ← append_assoc a b c)
          (rw (drop-append_at (off + length bs) (a ++ b) c (omega (arith, length-append a b)))))

-- What a writer leaves alone in a message.
pub record Frame : Type 0 where
  pub hdr : List ℕ
  pub pos : ℕ
  pub sent : ℕ

-- A message that holds this data, in a buffer of the size that it notes.
pub record Holds (f : Frame) (m : Msg) (payload : List ℕ) : Type 0 where
  pub slack : List ℕ
  pub bytes : m.rawdata ≡ f.hdr ++ (be32 (length payload) ++ (payload ++ slack))
  pub hdr_len : length f.hdr ≡ 12
  pub size_eq : m.size ≡ 16 + length payload + length slack
  pub pos_eq : m.get_pos ≡ f.pos
  pub sent_eq : m.xfered ≡ f.sent

pub get_length_bytes :
    (m : Msg) (hdr rest : List ℕ) (n : ℕ)
    → m.rawdata ≡ hdr ++ (be32 n ++ rest)
    → length hdr ≡ 12
    → n < 2 ^ 32
    → get_length m ≡ n
unfolding get_length word_at
get_length_bytes m hdr rest n e l h =
    rw
      (
        e,
        drop-append_at 12 hdr (be32 n ++ rest) (sym l),
        take-append_at 4 (be32 n) rest (sym (length-be32 n)),
      )
      (from_be32-be32 n h)

pub Holds-get_length :
    (f : Frame) (m : Msg) (p : List ℕ) → Holds f m p → length p < 2 ^ 32 → get_length m ≡ length p
Holds-get_length f m p h lt =
    get_length_bytes m f.hdr (p ++ h.slack) (length p) h.bytes h.hdr_len lt

pub store_at-some :
    (m : Msg) (off : ℕ) (bs buf : List ℕ)
    → write_at m.rawdata off bs ≡ some buf
    → store_at off bs m ≡ ok tt (record m { rawdata = buf })
unfolding store_at
store_at-some m off bs buf e = rw (e, store_at)

-- The length word can be stored, and nothing else changes.
pub set_length_bytes :
    (m : Msg) (hdr rest : List ℕ) (n v : ℕ)
    → m.rawdata ≡ hdr ++ (be32 n ++ rest)
    → length hdr ≡ 12
    → set_length v m ≡ ok tt (record m { rawdata = hdr ++ (be32 v ++ rest) })
unfolding set_length
set_length_bytes m hdr rest n v e l = store_at-some m 12 (be32 v) (hdr ++ (be32 v ++ rest)) (
    rw e
      (write_at_middle hdr (be32 n) rest 12 (be32 v) (sym l) (length-be32 v ∙ sym (length-be32 n))))

pub Holds-length : (f : Frame) (m : Msg) (p : List ℕ) → Holds f m p → length m.rawdata ≡ m.size
Holds-length f m p h =
    let w = be32 (length p) in
    rw h.bytes (
      omega (
        arith,
        length-append f.hdr (w ++ (p ++ h.slack)),
        length-append w (p ++ h.slack),
        length-append p h.slack,
        length-be32 (length p),
      ))

-- The cookie is stored behind the first eight bytes of the header, and nothing else changes.
pub set_cookie-Holds :
    (f : Frame) (m : Msg) (d : List ℕ) (cookie : ℕ)
    → Holds f m d
    → (m' : Msg) × (set_cookie cookie m ≡ ok tt m')
      × Holds (record f { hdr = take 8 f.hdr ++ be32 cookie }) m' d
unfolding set_cookie
set_cookie-Holds f m d cookie h = (
  record m { rawdata = (first ++ be32 cookie) ++ rest },
  store_at-some m 8 (be32 cookie) ((first ++ be32 cookie) ++ rest) stored,
  record {
    slack = h.slack;
    bytes = refl;
    hdr_len = omega (arith, length-append first (be32 cookie), length-be32 cookie, first_len);
    size_eq = h.size_eq;
    pos_eq = h.pos_eq;
    sent_eq = h.sent_eq;
  },
)
  where
    first : List ℕ
    first = take 8 f.hdr

    rest : List ℕ
    rest = be32 (length d) ++ (d ++ h.slack)

    first_len : length first ≡ 8
    first_len = length-take 8 f.hdr (omega (arith, h.hdr_len))

    last_len : length (drop 8 f.hdr) ≡ 4
    last_len = omega (arith, length-drop 8 f.hdr, h.hdr_len)

    split : m.rawdata ≡ first ++ (drop 8 f.hdr ++ rest)
    split =
        h.bytes
        ∙ (ap (λ x. x ++ rest) (sym (take-append-drop 8 f.hdr))
            ∙ append_assoc first (drop 8 f.hdr) rest)

    stored : write_at m.rawdata 8 (be32 cookie) ≡ some ((first ++ be32 cookie) ++ rest)
    stored =
        rw (split, append_assoc first (be32 cookie) rest)
          (write_at_middle first (drop 8 f.hdr) rest 8 (be32 cookie) (sym first_len)
            (length-be32 cookie ∙ sym last_len))
