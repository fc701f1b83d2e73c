-- ===== src/Tests/Clients.antt =====
-- Examples of the client library: texts of lines, and the answers of a server with one meter.
use pmlib.Prelude.{
  ℕ, zero, suc, ◌+◌, ◌-◌, ◌<◌, ◌≤◌, ◌≡◌, refl, true, false, some, List, [], ◌∷◌, ◌++◌, codes, arith,
  length, ltb, none, ◌*◌, ◌==◌, if◌then◌else◌,
}
use pmlib.Prelude.Int.{pos, negsuc, pos_part}
use pmlib.Map.{name_key}
use pmlib.Outcome.{ok, ◌>>◌}
use pmlib.Wire.{int_bytes, concat_map, receive_int, send_int}
use pmlib.Device.Lines.{contains}
use pmlib.Counter.{Session, send_reply, success, set_frequency, Counter}
use pmlib.Counter.Mask.{lines_of_mask}
use pmlib.Info.{send_info, send_devices}
use pmlib.Registry.{Conn, talk}
use pmlib.Creation.{create, register, new_counter}
use pmlib.Client.{Link}
use pmlib.Client.Lines.{LineT, line_clr_all, line_set_all, line_set, line_clr, line_isset, line_and}
use pmlib.Client.Lines.Laws.{IsLineT}
use pmlib.Client.Lines.Refinement.{
  view, meet, insert, remove, empty, full, line_t_refines, lines_of_mask-view,
}
use pmlib.Client.Parse.{pm_set_lines, is_allowed}
use pmlib.Client.Parse.Items.{one, span, expand}
use pmlib.Client.Parse.Reading.{pm_set_lines-render}
use pmlib.Client.Parse.Ending.{Ends, pm_set_lines-Ends}
use pmlib.Client.Requests.{
  CounterT, Energy, Links, device_t, created, no_energy, create_request, info_request,
  pm_create_counter, pm_get_device_info, pm_get_devices,
}
use pmlib.Client.Data.{pm_get_counter_data}
use pmlib.Client.Arrivals.{join, Arrives}
use pmlib.Client.Exchange.Get.{pm_get_counter_data-send_reply, received, header, body}
use pmlib.Client.Exchange.Devices.{
  info_fields, name_fields, pm_get_device_info-send_info, pm_get_devices-send_devices,
}
use pmlib.Client.Exchange.Create.{create-pm_create_counter, asking, begun}
use pmlib.Client.Print.{tab, line_header, pm_print_data_text}
use pmlib.Client.Print.Plan.{Difference, HasTimes}
use pmlib.Client.Print.Selection.{set_lines, HasLines, asked}
use pmlib.Client.Print.Layout.{Block, boundaries, watts_of}
use pmlib.Client.Print.Rows.{table}
use pmlib.Client.Print.Table.{pm_print_data_text-table}
use pmlib.Tests.{meter, session, nat_floating}

abbrev pub no_lines : LineT
no_lines = 0 ∷ 0 ∷ 0 ∷ 0 ∷ 0 ∷ 0 ∷ 0 ∷ 0 ∷ 0 ∷ 0 ∷ 0 ∷ 0 ∷ 0 ∷ 0 ∷ 0 ∷ 0 ∷ []

-- Line 1.
abbrev pub some_lines : LineT
some_lines = 2 ∷ 0 ∷ 0 ∷ 0 ∷ 0 ∷ 0 ∷ 0 ∷ 0 ∷ 0 ∷ 0 ∷ 0 ∷ 0 ∷ 0 ∷ 0 ∷ 0 ∷ 0 ∷ []

line_t_refines_example :
    (view (line_clr_all no_lines) ≡ empty)
    × (view (line_set_all no_lines) ≡ full)
    × (view (line_set 9 no_lines) ≡ insert 9 (view no_lines))
    × (view (line_clr 9 no_lines) ≡ remove 9 (view no_lines))
    × (view (line_and no_lines some_lines) ≡ meet (view no_lines) (view some_lines))
line_t_refines_example = line_t_refines no_lines some_lines 9 refl refl

lines_of_mask-view_example :
    contains (lines_of_mask 2 some_lines) ≡ meet (view some_lines) (λ l. ltb l 2)
lines_of_mask-view_example = lines_of_mask-view 2 some_lines refl

set_lines_run :
    pm_set_lines (codes "1,9-11") some_lines
    ≡ ok (2 ∷ 14 ∷ 0 ∷ 0 ∷ 0 ∷ 0 ∷ 0 ∷ 0 ∷ 0 ∷ 0 ∷ 0 ∷ 0 ∷ 0 ∷ 0 ∷ 0 ∷ 0 ∷ [])
unfolding pm_set_lines pmlib.Client.Parse.is_allowed pmlib.Client.Parse.scan pmlib.Client.Parse.step
    pmlib.Client.Parse.push_range pmlib.Client.Parse.set_each line_clr_all line_set
    pmlib.Client.Lines.or_bit
set_lines_run = refl

pm_set_lines-render_example :
    (mask : LineT) × (pm_set_lines (codes "3,30-33") some_lines ≡ ok mask)
    × IsLineT mask
    × ((l : ℕ) → l < 128 → line_isset l mask ≡ contains (expand (one 3 ∷ span 30 33 ∷ [])) l)
pm_set_lines-render_example =
    pm_set_lines-render (one 3 ∷ span 30 33 ∷ []) some_lines
      (omega arith, ((omega arith, omega arith), tt)) (omega arith)

pm_set_lines-Ends_example :
    Ends
      (λ mask. IsLineT mask × (is_allowed (codes "1-,") ≡ true))
      (pm_set_lines (codes "1-,") some_lines)
pm_set_lines-Ends_example = pm_set_lines-Ends (codes "1-,") some_lines

abbrev pub empty_counter : CounterT ℕ
empty_counter = record {
  aggregate = pos 0;
  lines = some_lines;
  num_lines = 2;
  interval = pos 10;
  next_timing = 0;
  timing = [];
  energy = no_energy;
}

abbrev pub link : List (List ℕ) → Link
link arrivals = record {
  reachable = true;
  arrivals = arrivals;
  sent = [];
  writable = 1;
  closed = false;
}

abbrev first_byte : List ℕ → ℕ
first_byte [] = 0
first_byte (b ∷ bs) = b

abbrev reply_bytes : List ℕ
reply_bytes = concat_map int_bytes (pos 0 ∷ pos 2 ∷ []) ++ 7 ∷ 0 ∷ 0 ∷ 0 ∷ []

-- The header has arrived with the first bytes of the arrays, and the rest in a second piece.
abbrev reply_pieces : List (List ℕ)
reply_pieces =
    (int_bytes (pos 2) ++ int_bytes (pos 2) ++ int_bytes (pos 1) ++ reply_bytes)
    ∷ (0 ∷ 0 ∷ 0 ∷ 0 ∷ 8 ∷ 0 ∷ 0 ∷ 0 ∷ 0 ∷ 0 ∷ 0 ∷ 0 ∷ [])
    ∷ []

reply_in_pieces :
    Arrives
      (header {R = ℕ} 1 (7 ∷ 8 ∷ []) (pos 0 ∷ pos 2 ∷ []))
      (body {R = ℕ} (7 ∷ 8 ∷ []) (pos 0 ∷ pos 2 ∷ []))
      reply_pieces
unfolding int_bytes
reply_in_pieces = (_, _, refl, (_, _, refl, (_, _, refl, refl)))

pm_get_counter_data-send_reply_example :
    ((send_reply 1 (7 ∷ 8 ∷ [], pos 0 ∷ pos 2 ∷ []) session).1.sock.outbox
      ≡ join (int_bytes (pos 2) ∷ int_bytes (pos 2) ∷ int_bytes (pos 1) ∷ [])
        ++ (reply_bytes ++ 0 ∷ 0 ∷ 0 ∷ 0 ∷ 8 ∷ 0 ∷ 0 ∷ 0 ∷ 0 ∷ 0 ∷ 0 ∷ 0 ∷ []))
    × ((pm_get_counter_data first_byte empty_counter (link reply_pieces)).0
        ≡ ok (received (7 ∷ 8 ∷ []) (pos 0 ∷ pos 2 ∷ []) 1 empty_counter))
    × ((pm_get_counter_data first_byte empty_counter (link reply_pieces)).1.sent
        ≡ int_bytes (pos 4))
unfolding int_bytes
pm_get_counter_data-send_reply_example =
    pm_get_counter_data-send_reply first_byte (7 ∷ 8 ∷ []) (pos 0 ∷ pos 2 ∷ []) 1 session
      empty_counter (link reply_pieces) (omega arith) (omega arith) (omega arith) (omega arith)
      (refl, (refl, tt)) ((omega arith, omega arith), ((omega arith, omega arith), tt))
      (omega arith) (omega arith) reply_in_pieces

-- A counter of line 1 with two sets, of two samples and of one.
abbrev pub two_sets : List (Block ℕ)
two_sets =
    record { size = 2; samples = (5 ∷ 6 ∷ []) ∷ [] }
    ∷ record { size = 1; samples = (9 ∷ []) ∷ [] }
    ∷ []

abbrev pub measured : CounterT ℕ
measured = record empty_counter {
  next_timing = 2;
  timing = (0, 100) ∷ (1, 104) ∷ (2, 200) ∷ (3, 203) ∷ [];
  energy = record {
    watts_size = 3;
    watts_sets_size = pos 3;
    watts_sets = boundaries 0 two_sets;
    watts = watts_of two_sets;
    lines_len = pos 1;
  };
}

instance abbrev pub nat_difference : Difference ℕ
nat_difference = record { subtract = λ a b. a - b; of_ℤ = pos_part }

abbrev pub starting : ℕ → ℕ
starting s = 100 + 100 * s

abbrev pub stopping : ℕ → ℕ
stopping s = if s == 0 then 104 else 203

pub measured_times : HasTimes measured 2 starting stopping
measured_times zero h = (refl, refl)
measured_times (suc zero) h = (refl, refl)
measured_times (suc (suc s)) h = absurd (omega arith)

one_line : 1 ≡ length (set_lines some_lines 0 128)
unfolding set_lines line_isset
one_line = refl

pub measured_lines : HasLines measured
unfolding set_lines line_isset
measured_lines = refl

pm_print_data_text-table_example :
    pm_print_data_text measured some_lines (negsuc 0)
    ≡ ok (
        line_header tab (asked measured some_lines)
        ++ table (asked measured some_lines) (λ s. stopping s - starting s) 0 two_sets)
pm_print_data_text-table_example =
    pm_print_data_text-table measured some_lines two_sets starting stopping refl refl measured_lines
      (refl, refl, refl, refl) ((one_line, (refl, tt)), ((one_line, (refl, tt)), tt)) measured_times

abbrev answered : List (List ℕ)
answered = (int_bytes (pos 10) ++ int_bytes (pos 2)) ∷ (int_bytes (pos 5) ++ codes "meter") ∷ []

info_in_pieces : Arrives (info_fields meter) [] answered
unfolding int_bytes
info_in_pieces = (_, _, refl, (_, _, refl, (_, _, refl, (_, _, refl, refl))))

info_fits : length (info_request (codes "meter")) ≤ 1024
unfolding pmlib.Client.Requests.info_request int_bytes
info_fits = omega arith

pm_get_device_info-send_info_example :
    ((send_info (some meter) session.sock).1.outbox ≡ join (info_fields meter))
    × ((pm_get_device_info (codes "meter") (link answered)).0 ≡ ok (device_t 10 2 (codes "meter")))
    × ((pm_get_device_info (codes "meter") (link answered)).1.sent ≡ info_request (codes "meter"))
pm_get_device_info-send_info_example =
    pm_get_device_info-send_info meter (codes "meter") session.sock (link answered) (omega arith)
      refl (omega arith) info_fits (omega arith, omega arith, omega arith, omega arith)
      info_in_pieces

abbrev listed : List (List ℕ)
listed = (int_bytes (pos 1) ++ int_bytes (pos 5) ++ codes "meter") ∷ []

list_in_pieces : Arrives (int_bytes (pos 1) ∷ name_fields (meter ∷ [])) [] listed
unfolding int_bytes
list_in_pieces = (_, _, refl, (_, _, refl, (_, _, refl, refl)))

pm_get_devices-send_devices_example :
    ((send_devices (meter ∷ []) session.sock).1.outbox
      ≡ join (int_bytes (pos 1) ∷ name_fields (meter ∷ [])))
    × ((pm_get_devices (link listed)).0 ≡ ok (codes "meter" ∷ []))
pm_get_devices-send_devices_example =
    pm_get_devices-send_devices (meter ∷ []) session.sock (link listed) (omega arith) refl
      (omega arith) (omega arith) ((omega arith, omega arith), tt) list_in_pieces

abbrev links : Links
links = record { own = link (int_bytes success ∷ []); query = link answered }

abbrev arriving : Conn ℕ
arriving = record {
  server = record { device_map = (codes "meter", meter) ∷ []; next_id = 1 };
  sock = session.sock;
  made = none;
}

abbrev made_counter : Counter
made_counter = new_counter 2 true (pos 2) (lines_of_mask 2 some_lines)

rate_run : set_frequency (pos 5) 10 ≡ ok (pos 2)
unfolding set_frequency pmlib.Counter.round_ratio
rate_run = refl

create_fits : length (create_request (codes "meter") some_lines (pos 1) (pos 5)) ≤ 1024
unfolding pmlib.Client.Requests.create_request int_bytes
create_fits = omega arith

success_in_pieces : Arrives (int_bytes success ∷ []) [] (int_bytes success ∷ [])
unfolding int_bytes
success_in_pieces = (_, _, refl, refl)

create-pm_create_counter_example :
    ((pm_create_counter {R = ℕ} (codes "meter") some_lines (pos 1) (pos 5) links).0
      ≡ ok (created some_lines (pos 1) (pos 5) (device_t 10 2 (codes "meter"))))
    × ((pm_create_counter {R = ℕ} (codes "meter") some_lines (pos 1) (pos 5) links).1.own.sent
        ≡ create_request (codes "meter") some_lines (pos 1) (pos 5))
    × ((talk receive_int >> create) (asking (codes "meter") some_lines true (pos 5) arriving)
        ≡ (register (codes "meter") made_counter meter >> talk (send_int success)) (begun arriving))
    × (contains (lines_of_mask 2 some_lines) ≡ meet (view some_lines) (λ l. ltb l 2))
create-pm_create_counter_example =
    create-pm_create_counter (codes "meter") some_lines true (pos 5) (pos 2) meter links arriving
      refl create_fits info_fits (omega arith, omega arith) (refl, refl) (omega arith, omega arith)
      (omega arith, omega arith, omega arith, omega arith) success_in_pieces info_in_pieces refl
      rate_run
