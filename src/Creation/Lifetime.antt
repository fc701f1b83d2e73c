-- ===== src/Creation/Lifetime.antt =====
-- A counter of server/counter.cpp against the server's devices: from the request to the beginning
-- of the session.
use pmlib.Prelude.{
  ℕ, suc, ◌+◌, ◌≡◌, refl, sym, ◌∙◌, Bool, Option, none, some, List, inl, inr, subst,
}
use pmlib.Prelude.Int.{ℤ, pos, ◌≤ℤ◌}
use pmlib.Map.{
  Name, nat_key, name_key, eqb_refl, find, insert_or_assign, find-insert, find-insert_cases,
}
use pmlib.Outcome.{ok, M, ◌>>=◌, ◌>>◌, lift, Post, or_throw-Post}
use pmlib.Wire.{Socket, send_int, receive_int, receive_bool, receive_string}
use pmlib.Floating.{Floating}
use pmlib.Device.{Device, Attached}
use pmlib.Device.Invariant.{
  IsSelection, IsWired, with_counter, register_counter-IsWired, register_counter-with_counter,
}
use pmlib.Wire.Defined.{
  send_int-IsDefined, receive_int-IsDefined, receive_bool-IsDefined, receive_string-IsDefined,
}
use pmlib.Counter.Rate.{set_frequency-cases}
use pmlib.Counter.Selection.{lines_of_mask_lem}
use pmlib.Counter.{Event, success, set_frequency}
use pmlib.Counter.Mask.{lines_of_mask}
use pmlib.Counter.Soundness.{IsSound, AllPossible}
use pmlib.Registry.{Registry, Conn, Made, put_device, talk, talk-Post, talk-after}
use pmlib.Creation.{attached, new_counter, register, create, session_of}

-- The frequency that a request asks for is not negative, if the request gets that far.
abbrev pub IsForward : Socket → Type 0
IsForward k =
    (name : Name) (k' k'' : Socket) (z : ℤ)
    → receive_string k ≡ (ok name, k')
    → receive_int k' ≡ (ok z, k'')
    → pos 0 ≤ℤ z

module _ {R : Type 0} where
  abbrev pub AllWired : Registry R → Type 0
  AllWired s = (name : Name) (d : Device R) → find name s.device_map ≡ some d → IsWired d

  -- A connection whose request is still to be read: no device knows the number that `++nextid` will
  -- give, and `others` can happen to the device that the request names.
  pub record IsOpened (others : List (List (Event R))) (c : Conn R) : Type 0 where
    pub wired : AllWired c.server
    pub fresh :
        (name : Name) (d : Device R)
        → find name c.server.device_map ≡ some d
        → find (c.server.next_id + 1) d.counter_map ≡ none
    pub unmade : c.made ≡ none
    pub forward : IsForward c.sock
    pub possible :
        (name : Name) (k : Socket) (d : Device R) (own : Attached)
        → receive_string c.sock ≡ (ok name, k)
        → find name c.server.device_map ≡ some d
        → own.id ≡ c.server.next_id + 1
        → AllPossible d.n_lines own (insert_or_assign own.id own d.counter_map) others

  pub AllWired-put :
      (s : Registry R) (name : Name) (d : Device R)
      → AllWired s
      → IsWired d
      → AllWired (put_device name d s)
  AllWired-put s name d h w other e p = elim (find-insert_cases other name d e s.device_map p) [
    | inl q ↦ subst IsWired q w
    | inr q ↦ h other e q
  ]

  -- The counter that a connection has made is registered with its device.
  abbrev pub IsRegistered : Option Made → Registry R → Type 0
  IsRegistered none s = Unit {0}
  IsRegistered (some m) s =
      (d : Device R) × (own : Attached) × (find m.device s.device_map ≡ some d)
      × (find own.id d.counter_map ≡ some own)
      × (own.id ≡ m.counter.id)
      × (own.lines ≡ m.counter.lines)
      × IsSelection d.n_lines m.counter.lines

  -- What a connection keeps, on every branch.
  abbrev pub Keeps : Conn R → Type 0
  Keeps c = AllWired c.server × IsRegistered c.made c.server

  pub find-put :
      (s : Registry R) (name : Name) (d : Device R)
      → find name (put_device name d s).device_map ≡ some d
  find-put s name d = find-insert name name d s.device_map ∙ rw (eqb_refl name) refl

module _ {R : Type 0} ⦃f : Floating R⦄ (others : List (List (Event R))) where
  -- A counter is made and its session can begin.
  abbrev pub IsReady : Conn R → Type 0
  IsReady c =
      (m : Made) × (d : Device R) × (own : Attached) × (c.made ≡ some m)
      × (find m.device c.server.device_map ≡ some d)
      × AllWired c.server
      × IsSound own c.sock.inbox (session_of others c m d)

  module _ (c0 : Conn R) (h : IsOpened others c0) where
    abbrev id : ℕ
    id = c0.server.next_id + 1

    -- The connection after `++nextid`, with the rest of the request still to be read.
    abbrev numbered : Socket → Conn R
    numbered k = record c0 { server = record c0.server { next_id = id }; sock = k }

    early : (k : Socket) → Keeps (numbered k)
    early k = (h.wired, subst (λ o. IsRegistered o (numbered k).server) (sym h.unmade) tt)

    module _ (name : Name) (d : Device R) (found : find name c0.server.device_map ≡ some d) (z : ℤ)
        (forward : pos 0 ≤ℤ z) (aggregate : Bool) (mask : Name)
        (later : (own : Attached)
          → own.id ≡ id
          → AllPossible d.n_lines own (insert_or_assign own.id own d.counter_map) others) where
      -- The rest of the constructor, once the request has been read.
      abbrev rest_of_create : M (Conn R) (Unit {0})
      rest_of_create = do
        interval ← lift (set_frequency z d.max_frequency)
        register name (new_counter id aggregate interval (lines_of_mask d.n_lines mask)) d
        talk (send_int success)

      register-Ready :
          (stride : ℕ) (k : Socket)
          → Post
              (λ _. IsReady)
              Keeps
              ((register name
                    (new_counter id aggregate (pos (suc stride)) (lines_of_mask d.n_lines mask))
                    d
                  >> talk (send_int success))
                (numbered k))
      register-Ready stride k =
          let c = new_counter id aggregate (pos (suc stride)) (lines_of_mask d.n_lines mask) in
          let own = attached c k.peer in
          let sel = (lines_of_mask_lem d.n_lines mask).0 in
          let w = h.wired name d found in
          let new = h.fresh name d found in
          let w' = register_counter-IsWired d w own sel new in
          let m : Made = record { counter = c; device = name } in
          let s' = put_device name (with_counter own d) (numbered k).server in
          let there : find id (insert_or_assign id own d.counter_map) ≡ some own =
            find-insert id id own d.counter_map ∙ rw (eqb_refl id) refl in
          let wired : AllWired s' =
            AllWired-put (numbered k).server name (with_counter own d) h.wired w' in
          rw (register_counter-with_counter d w own sel new) (
            talk-Post (λ _. IsReady) Keeps (send_int success)
              (record (numbered k) { server = s'; made = some m }) (send_int-IsDefined success k)
              (λ _ k' _. (
                m,
                with_counter own d,
                own,
                refl,
                find-put (numbered k).server name (with_counter own d),
                wired,
                record {
                  wired = w';
                  registered = there;
                  number = refl;
                  lines = refl;
                  selection = sel;
                  stride = (stride, refl);
                  recorded = tt;
                  possible = later own refl;
                  inbox = refl;
                },
              ))
              (λ k'. (
                wired,
                (
                  with_counter own d,
                  own,
                  find-put (numbered k).server name (with_counter own d),
                  there,
                  refl,
                  refl,
                  sel,
                ),
              )))

      rest_of_create-Ready : (k : Socket) → Post (λ _. IsReady) Keeps (rest_of_create (numbered k))
      rest_of_create-Ready k =
          elim (set_frequency-cases z d.max_frequency (h.wired name d found).fast forward) [
            | inl e ↦ rw e (early k)
            | inr (stride, e) ↦ rw e (register-Ready stride k)
          ]

    pub create-Ready : Post (λ _. IsReady) Keeps (create c0)
    unfolding create
    create-Ready =
        talk-after (λ _. IsReady) Keeps receive_string (numbered c0.sock) _
          (receive_string-IsDefined c0.sock) early
          λ name k1 e1.
            talk-after (λ _. IsReady) Keeps receive_int (numbered k1) _ (receive_int-IsDefined k1)
              early
              λ z k2 e2.
                talk-after (λ _. IsReady) Keeps receive_bool (numbered k2) _
                  (receive_bool-IsDefined k2) early
                  λ aggregate k3 _.
                    talk-after (λ _. IsReady) Keeps receive_string (numbered k3) _
                      (receive_string-IsDefined k3) early
                      λ mask k4 _.
                        or_throw-Post (λ _. IsReady) Keeps (find name c0.server.device_map) _
                          (numbered k4) _ (early k4)
                          λ d found.
                            rest_of_create-Ready name d found z (h.forward name k1 k2 z e1 e2)
                              aggregate.0 mask (λ own e. h.possible name k1 d own e1 found e) k4
