-- ===== src/Client/Io/Input/Tests.antt =====
-- A socket that delivers twenty bytes, seven of them at a time, and the theorem on arriving messages
-- over it.
use xmms2remote.Prelude.{
  length-take_le, length-take_all, take-length, ℕ, zero, suc, ◌+◌, ◌^◌, ◌≤◌, ◌≡◌, refl, ap, ◌∙◌,
  true, List, [], ◌∷◌, ◌++◌, none, length, take, drop, take-add, min, arith,
}
use xmms2remote.Msg.{Memory, be32}
use xmms2remote.Msg.Transport.{Channel, got, took}
use xmms2remote.Client.{Connection}
use xmms2remote.Client.Io.Input.{in_loop}
use xmms2remote.Client.Io.Input.Order.{Dispatched, in_loop-Dispatched}

-- A message with cookie 9 and a none value as its data.
abbrev delivered : List ℕ
delivered = be32 1 ++ (be32 0 ++ (be32 9 ++ (be32 4 ++ be32 0)))

portion : ℕ → ℕ → List ℕ
portion s n = take (min 7 n) (drop s delivered)

portion-take :
    (s n : ℕ) → take (s + length (portion s n)) delivered ≡ take s delivered ++ portion s n
unfolding portion
portion-take s n =
    take-add s (length (portion s n)) delivered
    ∙ ap (λ t. take s delivered ++ t) (take-length (min 7 n) (drop s delivered))

portion_le : (s n : ℕ) → length (portion s n) ≤ n
unfolding portion
portion_le s n = omega (arith, length-take_le (min 7 n) (drop s delivered))

-- Its state is how many bytes were delivered.
abbrev source : Channel
source = record {
  State = ℕ;
  recv = λ s n. (got (portion s n), s + length (portion s n));
  send = λ s bs. (took 0, s);
  heard = λ s. take s delivered;
  said = λ s. [];
  recv_le = portion_le;
  recv_heard = portion-take;
  send_le = λ s bs. omega arith;
  send_said = λ s bs. refl;
}

filled : ℕ → List ℕ
filled zero = []
filled (suc n) = 0 ∷ filled n

length-filled : (n : ℕ) → length (filled n) ≡ n
unfolding filled
length-filled zero = refl
length-filled (suc n) = omega (arith, length-filled n)

abbrev heap : Memory
heap = record { grants = λ n. true; fresh = filled; length-fresh = length-filled }

abbrev client : Connection
client = record { next_cookie = 10; results_list = []; out_msg = []; calls = [] }

within : (s : ℕ) → length (take s delivered) ≤ 20
unfolding be32
within s = omega (arith, length-take_all s delivered)

in_loop-Dispatched_example :
    Dispatched source heap
      (2 ^ 32 + 1)
      30
      []
      client
      (in_loop source heap (2 ^ 32 + 1) 30 21 0 none client)
in_loop-Dispatched_example =
    in_loop-Dispatched source heap (2 ^ 32 + 1) 30 (λ n. refl) 20 within (omega arith) 21 [] 0 none
      client refl (omega arith)
