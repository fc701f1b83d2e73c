-- ===== src/Connection/Safety.antt =====
-- A connection of server/server.cpp from its first byte to its end: undefined behaviour, and the
-- devices that it leaves.
use pmlib.Prelude.{ℕ, ◌≡◌, refl, ap, ◌⊎◌, inl, inr, List}
use pmlib.Prelude.Int.{ℤ}
use pmlib.Map.{values}
use pmlib.Outcome.{
  Outcome, after, IsDefined, ok, throw, crash, IsSettled, Settles, empty_front, handled, done, M,
}
use pmlib.Wire.{Socket, send_int, receive_int, receive_string}
use pmlib.Wire.Defined.{receive_int-IsDefined, receive_string-IsDefined, send_int-IsSettled}
use pmlib.Floating.{Floating}
use pmlib.Counter.{
  Event, Operation, operation_of, error, create, start, continue, stop, get, finalize, info_device,
  list_devices, cmd_status, read_device, unknown,
}
use pmlib.Registry.{Conn, get_device, talk, talk-Settles, talk-after-Settles}
use pmlib.Creation.Lifetime.{AllWired, IsOpened}
use pmlib.Creation.Ending.{counter_session-AllWired, BareMade}
use pmlib.Creation.{counter_session}
use pmlib.Info.Streaming.{LacksValue}
use pmlib.Info.{
  send_devices, send_info, send_statuses, send_stream, answer, answer_list, answer_info,
  answer_status, answer_stream, run_info,
}
use pmlib.Info.Safety.{
  Any, HasIdler, send_devices-IsSettled, send_info-IsSettled, send_statuses-IsSettled,
  send_stream-IsSettled,
}
use pmlib.Connection.{handle, connection}

module _ {R : Type 0} ⦃f : Floating R⦄ (samples : ℕ → List R) (others : List (List (Event R))) where
  -- The reasons to take the front of an empty vector: a get of an inactive counter without samples, a
  -- counter without lines whose status is asked for, or a sample without values.
  abbrev pub HasEmpty : Conn R → Type 0
  HasEmpty c = BareMade others c ⊎ Any HasIdler (values c.server.device_map) ⊎ LacksValue samples

  -- A connection that has ended with every device sound, or at the front of an empty vector, for one
  -- of these reasons.
  abbrev pub EndsWell : Outcome (Unit {0}) × Conn R → Type 0
  EndsWell r =
      ((c' : Conn R) × (r ≡ (ok tt, c')) × AllWired c'.server)
      ⊎ ((c' : Conn R) × (r ≡ (crash empty_front, c')) × HasEmpty c')

  -- Every device is sound, whether the call returns or throws; else the front of an empty vector has
  -- been taken.
  abbrev pub IsGood : Outcome (Unit {0}) × Conn R → Type 0
  IsGood = Settles (λ _ c. AllWired c.server) (λ c. AllWired c.server) HasEmpty

  session-IsGood :
      (r : Outcome (Unit {0}) × Conn R)
      → Settles (λ _ c. AllWired c.server) (λ c. AllWired c.server) (BareMade others) r
      → IsGood r
  session-IsGood (ok a, c) h = h
  session-IsGood (throw e, c) h = h
  session-IsGood (crash e, c) h = (h.0, inl h.1)

  talk-IsGood :
      (G : Type 0) (m : M Socket (Unit {0})) (c : Conn R)
      → AllWired c.server
      → IsSettled G (m c.sock).0
      → (G → (k : Socket) → HasEmpty (record c { sock = k }))
      → IsGood (talk m c)
  talk-IsGood G m c w h e =
      talk-Settles (λ _ c. AllWired c.server) (λ c. AllWired c.server) HasEmpty G m c h e
        (λ _ k _. w) (λ k. w)

  then-IsGood {ℓ} :
      {A : Type ℓ} (m : M Socket A) (c : Conn R) (next : A → M (Conn R) (Unit {0}))
      → AllWired c.server
      → IsDefined (m c.sock).0
      → ((a : A) (k : Socket) → IsGood (next a (record c { sock = k })))
      → IsGood (after (talk m c) next)
  then-IsGood m c next w d g =
      talk-after-Settles (λ _ c. AllWired c.server) (λ c. AllWired c.server) HasEmpty m c next d
        (λ k. w) (λ a k _. g a k)

  refusal-IsGood : (c : Conn R) → AllWired c.server → IsGood (talk (send_int error) c)
  refusal-IsGood c w =
      talk-IsGood ⊥ (send_int error) c w (send_int-IsSettled ⊥ error c.sock) (λ e k. absurd e)

  answer-IsGood : (op : Operation) (c : Conn R) → AllWired c.server → IsGood (answer samples op c)
  unfolding answer_list answer_info answer_status answer_stream
  answer-IsGood list_devices c w =
      talk-IsGood ⊥ (send_devices (values c.server.device_map)) c w
        (send_devices-IsSettled ⊥ (values c.server.device_map) c.sock) (λ e k. absurd e)
  answer-IsGood cmd_status c w =
      talk-IsGood (Any HasIdler (values c.server.device_map))
        (send_statuses (values c.server.device_map)) c w
        (send_statuses-IsSettled (values c.server.device_map) c.sock) (λ e k. inr (inl e))
  answer-IsGood info_device c w =
      then-IsGood receive_string c _ w (receive_string-IsDefined c.sock) λ name k.
        talk-IsGood ⊥ (send_info (get_device name c.server)) (record c { sock = k }) w
          (send_info-IsSettled ⊥ (get_device name c.server) k) (λ e k. absurd e)
  answer-IsGood read_device c w =
      then-IsGood receive_string c _ w (receive_string-IsDefined c.sock) λ name k.
        then-IsGood receive_int (record c { sock = k }) _ w (receive_int-IsDefined k)
          λ z k'.
            talk-IsGood (LacksValue samples) (send_stream z samples (get_device name c.server))
              (record c { sock = k' }) w
              (send_stream-IsSettled z samples (get_device name c.server) k') (λ e k. inr (inr e))
  answer-IsGood create c w = refusal-IsGood c w
  answer-IsGood start c w = refusal-IsGood c w
  answer-IsGood continue c w = refusal-IsGood c w
  answer-IsGood stop c w = refusal-IsGood c w
  answer-IsGood get c w = refusal-IsGood c w
  answer-IsGood finalize c w = refusal-IsGood c w
  answer-IsGood (unknown z) c w = refusal-IsGood c w

  handled-IsGood :
      (h : M (Conn R) (Unit {0})) (r : Outcome (Unit {0}) × Conn R)
      → IsGood r
      → ((c : Conn R) → AllWired c.server → IsGood (h c))
      → IsGood (handled (λ _. h) r)
  handled-IsGood h (ok a, c) w g = w
  handled-IsGood h (throw e, c) w g = g c w
  handled-IsGood h (crash e, c) w g = w

  run_info-IsGood :
      (op : Operation) (c : Conn R) → AllWired c.server → IsGood (run_info samples op c)
  unfolding run_info
  run_info-IsGood op c w =
      handled-IsGood (talk (send_int error)) (answer samples op c) (answer-IsGood op c w)
        refusal-IsGood

  handle-IsGood :
      (op : Operation) (c : Conn R) → IsOpened others c → IsGood (handle samples others op c)
  handle-IsGood create c h =
      session-IsGood (counter_session others c) (counter_session-AllWired others c h)
  handle-IsGood list_devices c h = run_info-IsGood list_devices c h.wired
  handle-IsGood info_device c h = run_info-IsGood info_device c h.wired
  handle-IsGood cmd_status c h = run_info-IsGood cmd_status c h.wired
  handle-IsGood read_device c h = run_info-IsGood read_device c h.wired
  handle-IsGood start c h = refusal-IsGood c h.wired
  handle-IsGood continue c h = refusal-IsGood c h.wired
  handle-IsGood stop c h = refusal-IsGood c h.wired
  handle-IsGood get c h = refusal-IsGood c h.wired
  handle-IsGood finalize c h = refusal-IsGood c h.wired
  handle-IsGood (unknown z) c h = refusal-IsGood c h.wired

  caught : (r : Outcome (Unit {0}) × Conn R) → IsGood r → EndsWell (handled (λ _. done) r)
  caught (ok a, c) w = inl (c, refl, w)
  caught (throw e, c) w = inl (c, refl, w)
  caught (crash e, c) w = inr (c, ap (λ g. (crash g, c)) w.0, w.1)

  -- Let every device of the server be sound, and let what follows the first number of the
  -- connection, if there is one, be a request from an opened connection: no device knows the next
  -- counter number yet, the requested frequency, if it gets that far, is not negative, and the
  -- other threads do what they can do. Then, whatever the client sends and wherever the connection
  -- breaks, the connection either ends with every exception caught and every device sound, or it
  -- takes the front of an empty vector that it is about to send: the samples for a get of an
  -- inactive counter that has none, the lines of a registered counter without lines when the status
  -- is asked for, or the values of a streamed sample that has none. No other undefined behaviour
  -- that the model has a fault for is reached, and no loop runs out of fuel. The write of four
  -- bytes over the flag for aggregation has no fault: the three bytes behind the flag are taken to
  -- lie in the counter, where interval is set afterwards.
  pub connection-AllWired :
      (c : Conn R)
      → AllWired c.server
      → ((op : ℤ) (k : Socket)
          → receive_int c.sock ≡ (ok op, k)
          → IsOpened others (record c { sock = k }))
      → EndsWell (connection samples others c)
  unfolding connection
  connection-AllWired c w h = caught _ (
      talk-after-Settles (λ _ c'. AllWired c'.server) (λ c'. AllWired c'.server) HasEmpty
        receive_int c _ (receive_int-IsDefined c.sock) (λ k. w)
        λ op k e. handle-IsGood (operation_of op) (record c { sock = k }) (h op k e))
