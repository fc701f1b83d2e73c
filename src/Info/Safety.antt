-- ===== src/Info/Safety.antt =====
-- The queries of server/info.cpp and undefined behaviour, on any connection and devices.
use pmlib.Prelude.{
  ◌≡◌, ◌⊎◌, inl, inr, ℕ, true, false, Bool, Option, none, some, List, [], ◌∷◌, length,
  if◌then◌else◌,
}
use pmlib.Prelude.Int.{ℤ, pos, ltb_ℤ}
use pmlib.Map.{values}
use pmlib.Outcome.{
  M, done, IsDefined, after-IsDefined, IsSettled, IsDefined-IsSettled, IsSettled-map,
  after-IsSettled,
}
use pmlib.Wire.{Socket, write, send_int, send_string}
use pmlib.Wire.Defined.{
  write-IsDefined, send_int-IsDefined, send_string-IsDefined, send_int-IsSettled,
  send_vector-IsSettled, send_string-IsSettled,
}
use pmlib.Floating.{Floating}
use pmlib.Device.{Device, Line, Attached}
use pmlib.Counter.{success, error}
use pmlib.Info.Streaming.{LacksValue, stream_samples-IsSettled}
use pmlib.Info.{
  for_each, send_attached, send_devices, send_info, send_line, send_kind, send_status,
  send_statuses, send_stream, errorf, single, multiple,
}

-- Some element has a property.
abbrev pub Any {ℓ} : {A : Type ℓ} → (A → Type 0) → List A → Type 0
Any F [] = ⊥
Any F (x ∷ xs) = F x ⊎ Any F xs

for_each-IsSettled {ℓ} :
    {A : Type ℓ} (F : A → Type 0) (body : A → M Socket (Unit {0})) (xs : List A) (k : Socket)
    → ((x : A) (k : Socket) → IsSettled (F x) (body x k).0)
    → IsSettled (Any F xs) (for_each body xs k).0
unfolding for_each
for_each-IsSettled F body [] k h = tt
for_each-IsSettled F body (x ∷ xs) k h =
    after-IsSettled (Any F (x ∷ xs)) (body x k) _
      (IsSettled-map (F x) (Any F (x ∷ xs)) (body x k).0 inl (h x k))
      λ _ k'.
        IsSettled-map (Any F xs) (Any F (x ∷ xs)) (for_each body xs k').0 inr
          (for_each-IsSettled F body xs k' h)

send_attached-IsSettled :
    (c : Attached) (k : Socket) → IsSettled (c.lines ≡ []) (send_attached c k).0
unfolding send_attached
send_attached-IsSettled c k =
    let F = c.lines ≡ [] in
    after-IsSettled F (send_int (pos c.id) k) _ (send_int-IsSettled F _ k) λ _ k1.
      after-IsSettled F (send_string c.client_ip k1) _ (send_string-IsSettled F _ k1)
        λ _ k2. send_vector-IsSettled _ c.lines k2

if-IsDefined :
    (t : Bool) (m n : M Socket (Unit {0})) (k : Socket)
    → IsDefined (m k).0
    → IsDefined (n k).0
    → IsDefined ((if t then m else n) k).0
if-IsDefined true m n k p q = p
if-IsDefined false m n k p q = q

if-IsSettled :
    (F : Type 0) (t : Bool) (m n : M Socket (Unit {0})) (k : Socket)
    → IsSettled F (m k).0
    → IsSettled F (n k).0
    → IsSettled F ((if t then m else n) k).0
if-IsSettled F true m n k p q = p
if-IsSettled F false m n k p q = q

module _ {R : Type 0} where
  pub send_devices-IsSettled :
      (F : Type 0) (ds : List (Device R)) (k : Socket) → IsSettled F (send_devices ds k).0
  unfolding send_devices
  send_devices-IsSettled F ds k =
      after-IsSettled F (send_int (pos (length ds)) k) _ (send_int-IsSettled F _ k) λ _ k1.
        IsSettled-map (Any (λ _. ⊥) ds) F _ (λ e. absurd (nowhere ds e))
          (for_each-IsSettled (λ _. ⊥) _ ds k1 (λ d. send_string-IsSettled ⊥ d.name))
    where
      nowhere : (ds : List (Device R)) → Any (λ _. ⊥) ds → ⊥
      nowhere [] e = e
      nowhere (d ∷ ds) (inl e) = e
      nowhere (d ∷ ds) (inr e) = nowhere ds e

  pub send_info-IsSettled :
      (F : Type 0) (o : Option (Device R)) (k : Socket) → IsSettled F (send_info o k).0
  unfolding send_info
  send_info-IsSettled F none k = send_int-IsSettled F error k
  send_info-IsSettled F (some d) k =
      after-IsSettled F (send_int (pos d.max_frequency) k) _ (send_int-IsSettled F _ k) λ _ k1.
        after-IsSettled F (send_int (pos d.n_lines) k1) _ (send_int-IsSettled F _ k1)
          λ _ k2. send_string-IsSettled F d.name k2

  -- A counter without lines is registered.
  abbrev pub HasIdler : Device R → Type 0
  HasIdler d = Any (λ (c : Attached). c.lines ≡ []) (values d.counter_map)

  module _ ⦃f : Floating R⦄ where
    send_line-IsDefined : (t : Bool) (x : Line R) (k : Socket) → IsDefined (send_line t x k).0
    unfolding send_line
    send_line-IsDefined t x k =
        after-IsDefined (send_int (pos x.id) k) _ (send_int-IsDefined _ k) λ _ k1.
          after-IsDefined (send_string x.name k1) _ (send_string-IsDefined _ k1) λ _ k2.
            after-IsDefined (write (f.float_bytes x.volts) k2) _ (write-IsDefined _ k2) λ _ k3.
              after-IsDefined (send_string x.description k3) _ (send_string-IsDefined _ k3) λ _ k4.
                if-IsDefined t (send_string x.computer.name) done k4 (send_string-IsDefined _ k4) tt

    send_kind-IsSettled : (F : Type 0) (d : Device R) (k : Socket) → IsSettled F (send_kind d k).0
    unfolding send_kind
    send_kind-IsSettled F d k =
        if-IsSettled F d.pdu (send_int multiple) _ k (send_int-IsSettled F _ k) (
          after-IsSettled F (send_int single k) _ (send_int-IsSettled F _ k)
            λ _ k1. send_string-IsSettled F d.computer.name k1)

    lines-IsDefined :
        (t : Bool) (xs : List (Line R)) (k : Socket) → IsDefined (for_each (send_line t) xs k).0
    unfolding for_each
    lines-IsDefined t [] k = tt
    lines-IsDefined t (x ∷ xs) k =
        after-IsDefined (send_line t x k) _ (send_line-IsDefined t x k)
          (λ _ k'. lines-IsDefined t xs k')

    send_status-IsSettled : (d : Device R) (k : Socket) → IsSettled (HasIdler d) (send_status d k).0
    unfolding send_status
    send_status-IsSettled d k =
        let F = HasIdler d in
        after-IsSettled F (send_string d.name k) _ (send_string-IsSettled F _ k) λ _ k1.
          after-IsSettled F (send_int (pos d.max_frequency) k1) _ (send_int-IsSettled F _ k1)
            λ _ k2.
              after-IsSettled F (send_int (pos d.n_lines) k2) _ (send_int-IsSettled F _ k2) λ _ k3.
                after-IsSettled F (send_kind d k3) _ (send_kind-IsSettled F d k3) λ _ k4.
                  after-IsSettled F (for_each (send_line d.pdu) (values d.lines) k4) _
                    (IsDefined-IsSettled F _ (lines-IsDefined d.pdu (values d.lines) k4))
                    λ _ k5.
                      after-IsSettled F (send_int (pos (length d.counter_map)) k5) _
                        (send_int-IsSettled F _ k5)
                        λ _ k6.
                          for_each-IsSettled (λ (c : Attached). c.lines ≡ []) send_attached _ k6
                            send_attached-IsSettled

    pub send_statuses-IsSettled :
        (ds : List (Device R)) (k : Socket) → IsSettled (Any HasIdler ds) (send_statuses ds k).0
    unfolding send_statuses
    send_statuses-IsSettled ds k =
        let F = Any HasIdler ds in
        after-IsSettled F (send_int (pos (length ds)) k) _ (send_int-IsSettled F _ k)
          λ _ k1. for_each-IsSettled HasIdler send_status ds k1 send_status-IsSettled

    pub send_stream-IsSettled :
        (z : ℤ) (samples : ℕ → List R) (o : Option (Device R)) (k : Socket)
        → IsSettled (LacksValue samples) (send_stream z samples o k).0
    unfolding send_stream
    send_stream-IsSettled z samples none k = send_int-IsSettled (LacksValue samples) error k
    send_stream-IsSettled z samples (some d) k =
        let F = LacksValue samples in
        if-IsSettled F (ltb_ℤ (pos d.max_frequency) z) _ _ k
          (after-IsSettled F (send_int errorf k) _ (send_int-IsSettled F errorf k)
            λ _ k1. send_int-IsSettled F _ k1)
          (after-IsSettled F (send_int success k) _ (send_int-IsSettled F success k)
            λ _ k1. stream_samples-IsSettled samples k1)
