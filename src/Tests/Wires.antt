-- ===== src/Tests/Wires.antt =====
-- Examples of the codec.
use pmlib.Prelude.{◌≡◌, [], ◌∷◌, ◌++◌, arith, codes}
use pmlib.Outcome.{ok}
use pmlib.Wire.{Socket, receive_string, send_string}
use pmlib.Wire.Roundtrip.{receive_string-send_string}

abbrev end_point : Socket
end_point = record { inbox = []; outbox = []; writable = 2; peer = codes "10.0.0.2" }

receive_string-send_string_example :
    receive_string
      (record end_point { inbox = (send_string (codes "meter") end_point).1.outbox ++ 9 ∷ [] })
    ≡ (ok (codes "meter"), record end_point { inbox = 9 ∷ [] })
receive_string-send_string_example =
    receive_string-send_string (codes "meter") (9 ∷ []) end_point end_point (omega arith)
      (omega arith)
