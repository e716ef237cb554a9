-- ===== src/Msg/Reads.antt =====
-- Each `xmms_ipc_msg_get_*` takes what was written for it off the front of the unread data.
use xmms2remote.Prelude.{
  ℕ, ◌+◌, ◌-◌, ◌*◌, ◌%◌, ◌^◌, ◌≤◌, ◌<◌, ◌≡◌, refl, ◌∙◌, true, List, [], ◌++◌, some, length, arith,
  length-append, append_assoc, lt→ltb, le→ltb, le→leb,
}
use xmms2remote.Msg.{Msg, Memory, ok, M, ◌>>=◌, pure, be32, read_at, u32_mod, head_len}
use xmms2remote.Msg.Get.{available, get_data, get_uint32, get_int32, get_string, get_error, get_bin}
use xmms2remote.Msg.Layout.{length-be32, from_be32-be32, read_at_middle, get_length_bytes}

-- A message whose unread data is `rest`.
pub record At (m : Msg) (rest : List ℕ) : Type 0 where
  pub hdr : List ℕ
  pub before : List ℕ
  pub slack : List ℕ
  pub bytes : m.rawdata ≡ hdr ++ (be32 (length before + length rest) ++ (before ++ (rest ++ slack)))
  pub hdr_len : length hdr ≡ 12
  pub pos : m.get_pos ≡ length before
  pub small : length before + length rest < 2 ^ 32 - 1

-- The operation takes these bytes off the front and returns this value, whatever follows.
abbrev pub Reads : {A : Type 0} → M A → List ℕ → A → Type 0
Reads p bs x =
    (m : Msg) (rest : List ℕ) → At m (bs ++ rest) → (m' : Msg) × (p m ≡ ok x m') × At m' rest

pub Reads-pure : {A : Type 0} (x : A) → Reads (pure x) [] x
Reads-pure x m rest at = (m, refl, at)

pub Reads-bind :
    {A B : Type 0} (p : M A) (k : A → M B) (bs cs : List ℕ) (x : A) (y : B)
    → Reads p bs x
    → Reads (k x) cs y
    → Reads (p >>= k) (bs ++ cs) y
Reads-bind p k bs cs x y h g m rest at =
    let (m₁, e₁, at₁) = h m (cs ++ rest) (rw (append_assoc bs cs rest) at at) in
    let (m₂, e₂, at₂) = g m₁ rest at₁ in (m₂, rw e₁ e₂, at₂)

pub At-available : (m : Msg) (rest : List ℕ) → At m rest → available m ≡ length rest
At-available m rest at =
    let n = length at.before + length rest in
    omega (
      arith,
      get_length_bytes m at.hdr (at.before ++ (rest ++ at.slack)) n at.bytes at.hdr_len
          (omega arith),
      at.pos,
      at.small,
    )

pub get_data-Reads : (bs : List ℕ) → Reads (get_data (length bs)) bs bs
unfolding get_data
get_data-Reads bs m rest at = (
  record m { get_pos = (m.get_pos + length bs) % u32_mod },
  rw
      (le→ltb (available m) (length bs)
        (omega (arith, At-available m (bs ++ rest) at, length-append bs rest)))
      (rw (read, get_data)),
  record {
    hdr = at.hdr;
    before = at.before ++ bs;
    slack = at.slack;
    bytes = rw same_len (at.bytes ∙ simp append_assoc);
    hdr_len = at.hdr_len;
    pos = omega (arith, at.pos, at.small, length-append at.before bs, length-append bs rest);
    small = omega (arith, same_len, at.small);
  },
)
  where
    n : ℕ
    n = length at.before + length (bs ++ rest)

    same_len : length (at.before ++ bs) + length rest ≡ n
    same_len = omega (arith, length-append at.before bs, length-append bs rest)

    front : List ℕ
    front = at.hdr ++ (be32 n ++ at.before)

    read : read_at m.rawdata (head_len + m.get_pos) (length bs) ≡ some bs
    read = rw (at.bytes ∙ shift) (
        read_at_middle front bs (rest ++ at.slack) (head_len + m.get_pos) (
          omega (
            arith,
            at.pos,
            at.hdr_len,
            length-append at.hdr (be32 n ++ at.before),
            length-append (be32 n) at.before,
            length-be32 n,
          )))
      where
        shift :
            at.hdr ++ (be32 n ++ (at.before ++ ((bs ++ rest) ++ at.slack)))
            ≡ front ++ (bs ++ (rest ++ at.slack))
        shift = simp append_assoc

pub get_uint32-Reads : (v : ℕ) → v < 2 ^ 32 → Reads get_uint32 (be32 v) v
unfolding get_uint32
get_uint32-Reads v lt m rest at =
    let (m', e, at') = get_data-Reads (be32 v) m rest at in
    (m', rw (rw length-be32 at e) (rw (from_be32-be32 v lt)), at')

pub get_int32-Reads : (v : ℕ) → v < 2 ^ 32 → Reads get_int32 (be32 v) v
unfolding get_int32
get_int32-Reads v lt m rest at =
    let (m', e, at') = get_data-Reads (be32 v) m rest at in
    (m', rw (rw length-be32 at e) (rw (from_be32-be32 v lt)), at')

-- A count that the bytes behind it bear out is read as it was written.
pub count-Reads :
    {B : Type 0} (n : ℕ) (bs : List ℕ) (k : ℕ → M B) (y : B)
    → 4 * n ≤ length bs
    → Reads (k n) bs y
    → Reads (get_uint32 >>= k) (be32 n ++ bs) y
count-Reads n bs k y le h m rest at =
    Reads-bind get_uint32 k (be32 n) bs n y
      (get_uint32-Reads n
        (omega (arith, at.small, length-append (be32 n ++ bs) rest, length-append (be32 n) bs)))
      h m rest at

module _ (mem : Memory) (enough : (n : ℕ) → mem.grants n ≡ true) where
  pub get_string-Reads : (s : List ℕ) → Reads (get_string mem) (be32 (length s) ++ s) s
  unfolding get_string
  get_string-Reads s m rest at =
      let lt : length s < 2 ^ 32 = omega (
        arith,
        at.small,
        length-append (be32 (length s) ++ s) rest,
        length-append (be32 (length s)) s,
      ) in
      let (m₁, e₁, at₁) = get_uint32-Reads (length s) lt m (s ++ rest) (rw append_assoc at at) in
      let here = At-available m₁ (s ++ rest) at₁ in
      let (m₂, e₂, at₂) = get_data-Reads s m₁ rest at₁ in
      (
        m₂,
        rw e₁ (
            rw
              (
                le→leb (length s) (available m₁) (omega (arith, here, length-append s rest)),
                enough ((length s + 1) % u32_mod),
                lt→ltb (length s) ((length s + 1) % u32_mod)
                    (omega (arith, at₁.small, length-append s rest)),
              )
              e₂),
        at₂,
      )

  pub get_error-Reads : (s : List ℕ) → Reads (get_error mem) (be32 (length s) ++ s) s
  unfolding get_error
  get_error-Reads s = get_string-Reads s

  pub get_bin-Reads : (d : List ℕ) → Reads (get_bin mem) (be32 (length d) ++ d) d
  unfolding get_bin
  get_bin-Reads d m rest at =
      let lt : length d < 2 ^ 32 = omega (
        arith,
        at.small,
        length-append (be32 (length d) ++ d) rest,
        length-append (be32 (length d)) d,
      ) in
      let (m₁, e₁, at₁) = get_uint32-Reads (length d) lt m (d ++ rest) (rw append_assoc at at) in
      let here = At-available m₁ (d ++ rest) at₁ in
      let (m₂, e₂, at₂) = get_data-Reads d m₁ rest at₁ in
      (
        m₂,
        rw e₁ (
            rw
              (
                le→leb (length d) (available m₁) (omega (arith, here, length-append d rest)),
                enough (length d),
              )
              e₂),
        at₂,
      )
