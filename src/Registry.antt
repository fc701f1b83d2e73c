-- ===== src/Registry.antt =====
-- What the connections of server/server.cpp share: the devices by name and the number of the last counter
-- (`Counter::nextid`); and a connection's own state.
use pmlib.Prelude.{ℕ, Option, ◌≡◌, refl}
use pmlib.Map.{Map, Name, name_key, find, insert_or_assign}
use pmlib.Outcome.{Outcome, ok, throw, crash, M, IsDefined, IsSettled, Post, Settles, after}
use pmlib.Wire.{Socket}
use pmlib.Device.{Device}
use pmlib.Counter.{Counter}

pub record Registry (R : Type 0) : Type 0 where
  pub device_map : Map Name (Device R)
  pub next_id : ℕ

-- The counter that a connection has registered, and the name of its device.
pub record Made : Type 0 where
  pub counter : Counter
  pub device : Name

pub record Conn (R : Type 0) : Type 0 where
  pub server : Registry R
  pub sock : Socket
  pub made : Option Made

module _ {R : Type 0} where
  unfoldable pub get_device : Name → Registry R → Option (Device R)
  get_device name s = find name s.device_map

  abbrev pub put_device : Name → Device R → Registry R → Registry R
  put_device name d s = record s { device_map = insert_or_assign name d s.device_map }

  abbrev to_conn {ℓ} : {A : Type ℓ} → Conn R → Outcome A × Socket → Outcome A × Conn R
  to_conn c (r, k) = (r, record c { sock = k })

  abbrev pub talk {ℓ} : {A : Type ℓ} → M Socket A → M (Conn R) A
  talk m c = to_conn c (m c.sock)

  module _ {ℓ} {A : Type ℓ} (P : A → Conn R → Type 0) (Q : Conn R → Type 0) where
    to_conn-Post :
        (c : Conn R) (r : Outcome A × Socket)
        → IsDefined r.0
        → ((a : A) (k : Socket) → r ≡ (ok a, k) → P a (record c { sock = k }))
        → ((k : Socket) → Q (record c { sock = k }))
        → Post P Q (to_conn c r)
    to_conn-Post c (ok a, k) h p q = p a k refl
    to_conn-Post c (throw e, k) h p q = q k
    to_conn-Post c (crash e, k) h p q = h

    -- A step on the connection: it changes nothing else.
    pub talk-Post :
        (m : M Socket A) (c : Conn R)
        → IsDefined (m c.sock).0
        → ((a : A) (k : Socket) → m c.sock ≡ (ok a, k) → P a (record c { sock = k }))
        → ((k : Socket) → Q (record c { sock = k }))
        → Post P Q (talk m c)
    talk-Post m c = to_conn-Post c (m c.sock)

    to_conn-Settles :
        (F : Conn R → Type 0) (G : Type 0) (c : Conn R) (r : Outcome A × Socket)
        → IsSettled G r.0
        → (G → (k : Socket) → F (record c { sock = k }))
        → ((a : A) (k : Socket) → r ≡ (ok a, k) → P a (record c { sock = k }))
        → ((k : Socket) → Q (record c { sock = k }))
        → Settles P Q F (to_conn c r)
    to_conn-Settles F G c (ok a, k) h w p q = p a k refl
    to_conn-Settles F G c (throw e, k) h w p q = q k
    to_conn-Settles F G c (crash e, k) h w p q = (h.0, w h.1 k)

    -- A step on the connection: it changes nothing else.
    pub talk-Settles :
        (F : Conn R → Type 0) (G : Type 0) (m : M Socket A) (c : Conn R)
        → IsSettled G (m c.sock).0
        → (G → (k : Socket) → F (record c { sock = k }))
        → ((a : A) (k : Socket) → m c.sock ≡ (ok a, k) → P a (record c { sock = k }))
        → ((k : Socket) → Q (record c { sock = k }))
        → Settles P Q F (talk m c)
    talk-Settles F G m c = to_conn-Settles F G c (m c.sock)

  module _ {ℓ κ} {A : Type ℓ} {B : Type κ} (P : B → Conn R → Type 0) (Q : Conn R → Type 0) where
    to_conn-after :
        (c : Conn R) (r : Outcome A × Socket) (f : A → M (Conn R) B)
        → IsDefined r.0
        → ((k : Socket) → Q (record c { sock = k }))
        → ((a : A) (k : Socket) → r ≡ (ok a, k) → Post P Q (f a (record c { sock = k })))
        → Post P Q (after (to_conn c r) f)
    to_conn-after c (ok a, k) f h q p = p a k refl
    to_conn-after c (throw e, k) f h q p = q k
    to_conn-after c (crash e, k) f h q p = h

    -- Such a step and what follows it.
    pub talk-after :
        (m : M Socket A) (c : Conn R) (f : A → M (Conn R) B)
        → IsDefined (m c.sock).0
        → ((k : Socket) → Q (record c { sock = k }))
        → ((a : A) (k : Socket) → m c.sock ≡ (ok a, k) → Post P Q (f a (record c { sock = k })))
        → Post P Q (after (talk m c) f)
    talk-after m c = to_conn-after c (m c.sock)

    to_conn-after-Settles :
        (F : Conn R → Type 0) (c : Conn R) (r : Outcome A × Socket) (f : A → M (Conn R) B)
        → IsDefined r.0
        → ((k : Socket) → Q (record c { sock = k }))
        → ((a : A) (k : Socket) → r ≡ (ok a, k) → Settles P Q F (f a (record c { sock = k })))
        → Settles P Q F (after (to_conn c r) f)
    to_conn-after-Settles F c (ok a, k) f h q p = p a k refl
    to_conn-after-Settles F c (throw e, k) f h q p = q k
    to_conn-after-Settles F c (crash e, k) f h q p = absurd h

    -- The same, where what follows may take the front of an empty vector.
    pub talk-after-Settles :
        (F : Conn R → Type 0) (m : M Socket A) (c : Conn R) (f : A → M (Conn R) B)
        → IsDefined (m c.sock).0
        → ((k : Socket) → Q (record c { sock = k }))
        → ((a : A) (k : Socket)
            → m c.sock ≡ (ok a, k)
            → Settles P Q F (f a (record c { sock = k })))
        → Settles P Q F (after (talk m c) f)
    talk-after-Settles F m c = to_conn-after-Settles F c (m c.sock)
