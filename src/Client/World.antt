-- ===== src/Client/World.antt =====
-- What the client's program does not implement: the socket, the network behind it, and the random
-- numbers. A scenario is a program over the states of such a world.
use mydhcp.Common.{ℕ, List, Option, some, none, Bool, Result, ok, err, ◌≡◌, ap, if◌then◌else◌}
use mydhcp.Net.{Ip}
use mydhcp.Dhcp.Packet.{Packet, serialize}
use mydhcp.Dhcp.Server.{Datagram}
use mydhcp.Client.{recv, unread}

-- `write` says whether the write succeeded. `arrived` is what the reads before the deadline give,
-- in their order and up to the first that fails, and `leave` puts back what was not read of it.
pub record World : Type 1 where
  pub State : Type 0
  pub write : State → Datagram → State × Bool
  pub arrived : State → List (List ℕ)
  pub leave : State → List (List ℕ) → State
  pub random : State → State × ℕ

-- What ends the program.
pub data Failure : Type 0 where
  cannot_send : ℕ → Failure
  no_offer no_reply refused no_renewal : Failure

abbrev pub Run : Type 0 → Type 0 → Type 0
Run S A = S → S × Result Failure A

abbrev pub and_then : {S A B : Type 0} → S × Result Failure A → (A → Run S B) → S × Result Failure B
and_then (s, ok a) f = f a s
and_then (s, err e) f = (s, err e)

infixl 5 ◌>>=◌ ◌>>◌
abbrev pub ◌>>=◌ : {S A B : Type 0} → Run S A → (A → Run S B) → Run S B
◌>>=◌ m f s = and_then (m s) f

abbrev pub ◌>>◌ : {S B : Type 0} → Run S (Unit {0}) → Run S B → Run S B
m >> k = m >>= λ _. k

-- A step that succeeds hands on its state and its value.
pub bind_ok :
    {S A B : Type 0} (m : Run S A) (f : A → Run S B) (s t : S) (a : A)
    → m s ≡ (t, ok a)
    → (m >>= f) s ≡ f a t
bind_ok m f s t a h = ap (λ r. and_then r f) h

abbrev pub done : {S A : Type 0} → A → Run S A
done a s = (s, ok a)

abbrev pub required : {S A : Type 0} → Failure → Option A → Run S A
required e none s = (s, err e)
required e (some a) s = (s, ok a)

pub record Client : Type 0 where
  pub server_addr : Ip
  pub mac : List ℕ
  pub xid : ℕ

module _ (w : World) where
  -- send, whose error ends each of the scenarios.
  unfoldable pub send : Client → ℕ → Packet → Run w.State (Unit {0})
  send c kind pkt s =
      let (t, sent) =
        w.write s (record { address = c.server_addr; port = 67; payload = serialize pkt }) in
      (t, if sent then ok tt else err (cannot_send kind))

  -- recv: `none` at the deadline or a failing read.
  unfoldable pub await : ℕ → Run w.State (Option Packet)
  await xid s = (w.leave s (unread xid (w.arrived s)), ok (recv xid (w.arrived s)))

  unfoldable pub random_xid : Run w.State ℕ
  random_xid s = let (t, n) = w.random s in (t, ok n)
