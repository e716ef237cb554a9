-- ===== src/Msg/Fresh.antt =====
-- `xmms_ipc_msg_new` and the header words of a message that holds some data.
use xmms2remote.Prelude.{
  ℕ, ◌^◌, ◌<◌, ◌≡◌, refl, sym, ◌∙◌, true, List, [], ◌++◌, length, drop, arith, length-append,
  append_assoc, length-drop, take-append_at, drop-append_at, le→leb,
}
use xmms2remote.Msg.{
  Msg, Memory, ok, be32, write_at, word_at, store_at, alloc, new, set_cmd, set_object, get_object,
  get_cmd, get_cookie, default_size, zeros,
}
use xmms2remote.Msg.Layout.{
  Frame, Holds, length-be32, from_be32-be32, write_at_middle, store_at-some,
}
use xmms2remote.Msg.Append.{Writable}

abbrev pub header : ℕ → ℕ → ℕ → List ℕ
header object cmd cookie = be32 object ++ (be32 cmd ++ be32 cookie)

-- What surrounds the data of a message that was never read or sent.
abbrev pub unsent : ℕ → ℕ → ℕ → Frame
unsent object cmd cookie = record { hdr = header object cmd cookie; pos = 0; sent = 0 }

length-header : (object cmd cookie : ℕ) → length (header object cmd cookie) ≡ 12
unfolding be32
length-header object cmd cookie = refl

module _ (mem : Memory) (enough : (n : ℕ) → mem.grants n ≡ true) where
  pub rest : List ℕ
  rest = drop 16 (mem.fresh default_size)

  pub length-rest : length rest ≡ 112
  unfolding rest
  length-rest =
      omega (arith, length-drop 16 (mem.fresh default_size), mem.length-fresh default_size)

  unfoldable pub blank : Msg
  blank = record { rawdata = zeros ++ rest; get_pos = 0; size = default_size; xfered = 0 }

  pub alloc_lem : alloc mem ≡ ok tt blank
  unfolding alloc write_at blank rest
  alloc_lem =
      rw (enough default_size, alloc)
        (rw (
          le→leb 16 (length (mem.fresh default_size))
            (omega (arith, mem.length-fresh default_size))))

  -- A new message is empty and has the object and the command that it was made for.
  pub new-Writable :
      (object cmd : ℕ)
      → (m : Msg) × (new mem object cmd ≡ ok tt m) × Writable (unsent object cmd 0) m []
  unfolding new set_cmd set_object blank be32
  new-Writable object cmd = (
    m₂,
    rw alloc_lem (rw cmd_set object_set),
    record {
      holds = record {
        slack = rest;
        bytes = refl;
        hdr_len = refl;
        size_eq = omega (arith, length-rest);
        pos_eq = refl;
        sent_eq = refl;
      };
      slim = omega arith;
    },
  )
    where
      z : List ℕ
      z = be32 0

      m₁ : Msg
      m₁ = record blank { rawdata = z ++ (be32 cmd ++ (z ++ (z ++ rest))) }

      m₂ : Msg
      m₂ = record blank { rawdata = be32 object ++ (be32 cmd ++ (z ++ (z ++ rest))) }

      cmd_set : store_at 4 (be32 cmd) blank ≡ ok tt m₁
      cmd_set =
          store_at-some blank 4 (be32 cmd) (z ++ (be32 cmd ++ (z ++ (z ++ rest))))
            (write_at_middle z z (z ++ (z ++ rest)) 4 (be32 cmd) refl refl)

      object_set : store_at 0 (be32 object) m₁ ≡ ok tt m₂
      object_set =
          store_at-some m₁ 0 (be32 object) (be32 object ++ (be32 cmd ++ (z ++ (z ++ rest))))
            (write_at_middle [] z (be32 cmd ++ (z ++ (z ++ rest))) 0 (be32 object) refl refl)

word_at_bytes :
    (m : Msg) (a b : List ℕ) (off v : ℕ)
    → m.rawdata ≡ a ++ (be32 v ++ b)
    → off ≡ length a
    → v < 2 ^ 32
    → word_at off m ≡ v
unfolding word_at
word_at_bytes m a b off v e at lt =
    rw (e, drop-append_at off a (be32 v ++ b) at, take-append_at 4 (be32 v) b (sym (length-be32 v)))
      (from_be32-be32 v lt)

-- The header words read back, whatever data was written since.
pub header_words :
    (m : Msg) (object cmd cookie : ℕ) (pos sent : ℕ) (d : List ℕ)
    → Holds (record { hdr = header object cmd cookie; pos = pos; sent = sent }) m d
    → object < 2 ^ 32
    → cmd < 2 ^ 32
    → cookie < 2 ^ 32
    → (get_object m ≡ object) × (get_cmd m ≡ cmd) × (get_cookie m ≡ cookie)
unfolding get_object get_cmd get_cookie
header_words m object cmd cookie pos sent d h o c k = (
  word_at_bytes m [] (be32 cmd ++ (be32 cookie ++ tail)) 0 object (h.bytes ∙ simp append_assoc) refl
      o,
  word_at_bytes m (be32 object) (be32 cookie ++ tail) 4 cmd (h.bytes ∙ simp append_assoc)
      (sym (length-be32 object)) c,
  word_at_bytes m (be32 object ++ be32 cmd) tail 8 cookie (h.bytes ∙ simp append_assoc)
      (omega (arith, length-append (be32 object) (be32 cmd), length-be32 object, length-be32 cmd))
      k,
)
  where
    tail : List ℕ
    tail = be32 (length d) ++ (d ++ h.slack)
