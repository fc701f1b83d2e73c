-- ===== src/Config/Wired.antt =====
-- The devices that `Server::parse_configfile` of server/server.cpp leaves to the server: their
-- lines, their frequency and who holds them.
use pmlib.Prelude.{
  ℕ, ◌<◌, ◌≡◌, refl, ◌∙◌, Bool, true, false, not, Option, none, some, List, [], ◌∷◌, length, ◌==◌,
  ==_iff, codes, if◌then◌else◌, arith, Bool-cases, inl, inr, length-replicate, subst,
}
use pmlib.Map.{Map, Name, name_key, nat_key, find, insert_or_assign, find-insert_cases}
use pmlib.Outcome.{
  Outcome, ok, throw, crash, wrong_line_count, unsupported_type, pure, done, fail, handled, Post,
  after-Post, or_throw-Post,
}
use pmlib.Floating.{Floating}
use pmlib.Device.{Device, Computer}
use pmlib.Drivers.{Driver, drivers, new_device, create_device, made_of}
use pmlib.Config.{
  Json, Parsing, json, index, get_as, string_at, computer_of, parse_lines, check_lines, blank,
  parse_device, parse_devices, parse_computers, some_device, parse_conf, parse_configfile,
}
use pmlib.Config.Numbers.{seen-replicate, unseen, find-All, drivers_fast}
use pmlib.Config.Reading.{
  DevicesWired, IsIdle, IsGood, IsCalm, calm-after, IsReading, IsReading-IsIdle, json-IsCalm,
  index-IsCalm, get_as-IsCalm, string_at-IsCalm, computer_of-IsCalm, IsRead, parse_lines-IsReading,
}

module _ {R : Type 0} ⦃f : Floating R⦄ where
  -- A device with no lines and no counters.
  abbrev IsNew : Device R → Type 0
  IsNew d = (d.lines ≡ []) × (d.counter_map ≡ []) × (0 < d.max_frequency)

  some_inj : {d d' : Device R} → some d ≡ some d' → d ≡ d'
  some_inj e = ground arith

  made_of-IsNew :
      (name url : Name) (o : Option Driver) (d : Device R)
      → ((k : Driver) → o ≡ some k → 0 < k.max_frequency)
      → made_of name url o ≡ some d
      → IsNew d
  unfolding new_device
  made_of-IsNew name url none d h e = absurd (ground arith)
  made_of-IsNew name url (some k) d h e = subst IsNew (some_inj e) (refl, refl, h k refl)

  create_device-IsNew :
      (apcape : Bool) (type name url : Name) (d : Device R)
      → create_device apcape type name url ≡ some d
      → IsNew d
  unfolding create_device
  create_device-IsNew apcape type name url d e =
      made_of-IsNew name url (find type (drivers apcape)) d
        (λ k q.
          find-All (λ (t : Driver). 0 < t.max_frequency) type (drivers apcape) k
            (drivers_fast apcape) q)
        e

module _ {V R : Type 0} ⦃f : Floating R⦄ (j : Json V R) where
  -- A new device before its first line is read.
  blank-IsReading :
      (names : List Name) (c : Computer) (d : Device R)
      → IsNew d
      → length names ≡ d.n_lines
      → IsReading d.n_lines (length names) (blank j names c d)
  blank-IsReading names c d (no_lines, no_counters, fast) e = record {
    size = refl;
    boxes = length-replicate (length names) false ∙ e;
    rest = omega (arith, seen-replicate (length names), e);
    there = λ l h. absurd (ground (arith, unseen (length names) l));
    within = rw no_lines tt;
    unheld = λ l x h. absurd (ground (arith, no_lines));
    unused = no_counters;
    fast = fast;
  }

  right_count-Post :
      (t : Bool) (n : ℕ) (names : List Name) (p : Parsing R)
      → (length names == n) ≡ t
      → IsGood p
      → Post
          (λ names p. (length names ≡ n) × IsGood p)
          IsGood
          ((if t then pure names else fail wrong_line_count) p)
  right_count-Post true n names p e g = (ground (arith, ==_iff (length names) n), g)
  right_count-Post false n names p e g = g

  check_lines-Post :
      (lines : V) (d : Device R) (p : Parsing R)
      → IsGood p
      → Post (λ names p. (length names ≡ d.n_lines) × IsGood p) IsGood (check_lines j lines d p)
  check_lines-Post lines d p g = elim (Bool-cases (j.is_null lines)) [
    | inl h ↦ rw h g
    | inr h ↦ rw h (
        calm-after (λ names p. (length names ≡ d.n_lines) × IsGood p)
          (json j (j.member_names lines)) _ p (json-IsCalm j (j.member_names lines)) g
          λ names p g. right_count-Post (length names == d.n_lines) d.n_lines names p refl g)
  ]

  DevicesWired-insert :
      (name : Name) (d : Device R) (m : Map Name (Device R))
      → IsIdle d
      → DevicesWired m
      → DevicesWired (insert_or_assign name d m)
  DevicesWired-insert name d m w h other e p = elim (find-insert_cases other name d e m p) [
    | inl q ↦ subst IsIdle q w
    | inr q ↦ h other e q
  ]

  parse_device-IsCalm :
      (apcape : Bool) (devices : V) (dn : Name) → IsCalm (parse_device j apcape devices dn)
  unfolding parse_device
  parse_device-IsCalm apcape devices dn p g =
      let P = λ (_ : Unit {0}). IsGood {R = R} in
      calm-after P (index j devices dn) _ p (index-IsCalm j devices dn) g λ d p g.
        calm-after P (string_at j d (codes "type")) _ p (string_at-IsCalm j d _) g λ type p g.
          calm-after P (string_at j d (codes "url")) _ p (string_at-IsCalm j d _) g λ url p g.
            calm-after P (index j d (codes "lines")) _ p (index-IsCalm j d _) g λ lines p g.
              or_throw-Post P IsGood (create_device apcape type dn url) unsupported_type p _ g
                λ dev e.
                  after-Post (λ names p. (length names ≡ dev.n_lines) × IsGood p) P IsGood
                    (check_lines j lines dev p) _ (check_lines-Post lines dev p g)
                    λ names p (count, g).
                      calm-after P (computer_of j (not dev.pdu) d) _ p (computer_of-IsCalm j _ d) g
                        λ c p g.
                          after-Post (IsRead j dev.n_lines 0) P IsGood
                            (parse_lines j lines (blank j names c dev) names p) _
                            (parse_lines-IsReading j dev.n_lines lines names (blank j names c dev) p
                              (blank-IsReading names c dev
                                (create_device-IsNew apcape type dn url dev e) count)
                              g)
                            λ s p (h, g).
                              DevicesWired-insert dn s.dev p.devices
                                (IsReading-IsIdle dev.n_lines s h) g

  parse_devices-IsCalm :
      (apcape : Bool) (devices : V) (names : List Name)
      → IsCalm (parse_devices j apcape devices names)
  unfolding parse_devices
  parse_devices-IsCalm apcape devices [] p g = g
  parse_devices-IsCalm apcape devices (dn ∷ names) p g =
      calm-after (λ _. IsGood) (parse_device j apcape devices dn) _ p
        (parse_device-IsCalm apcape devices dn) g λ _. parse_devices-IsCalm apcape devices names

  parse_computers-IsCalm :
      (computers : V) (names : List Name) → IsCalm {R = R} (parse_computers j computers names)
  unfolding parse_computers
  parse_computers-IsCalm computers [] p g = g
  parse_computers-IsCalm computers (c ∷ names) p g =
      calm-after (λ _. IsGood) (index j computers c) _ p (index-IsCalm j computers c) g
        λ entry p g.
          calm-after (λ _. IsGood) (string_at j entry (codes "ip")) _ p (string_at-IsCalm j entry _)
            g λ ip p g. parse_computers-IsCalm computers names _ g

  some_device-IsCalm : IsCalm (some_device j)
  some_device-IsCalm p g = elim (Bool-cases (length p.devices == 0)) [
    | inl h ↦ rw h g
    | inr h ↦ rw h g
  ]

  parse_conf-IsCalm : (apcape : Bool) (document : Option V) → IsCalm (parse_conf j apcape document)
  unfolding parse_conf
  parse_conf-IsCalm apcape document p g =
      let P = λ (_ : Unit {0}). IsGood {R = R} in
      calm-after P (json j document) _ p (json-IsCalm j document) g λ conf p g.
        calm-after P (get_as j j.as_string conf (codes "server_ip") _) _ p
          (get_as-IsCalm j j.as_string conf _ _) g
          λ ip p g.
            calm-after P (get_as j j.as_int conf (codes "server_port") _) _ p
              (get_as-IsCalm j j.as_int conf _ _) g
              λ port p g.
                calm-after P (get_as j j.as_string conf (codes "server_logfile") _) _ _
                  (get_as-IsCalm j j.as_string conf _ _) g
                  λ logfile p g.
                    calm-after P (index j conf (codes "computers")) _ p (index-IsCalm j conf _) g
                      λ computers p g.
                        calm-after P (json j (j.member_names computers)) _ p (json-IsCalm j _) g
                          λ computer_names p g.
                            calm-after P (parse_computers j computers computer_names) _ p
                              (parse_computers-IsCalm computers computer_names) g
                              λ _ p g.
                                calm-after P (index j conf (codes "devices")) _ p
                                  (index-IsCalm j conf _) g
                                  λ devices p g.
                                    calm-after P (json j (j.member_names devices)) _ p
                                      (json-IsCalm j _) g
                                      λ device_names p g.
                                        calm-after P (parse_devices j apcape devices device_names) _
                                          p (parse_devices-IsCalm apcape devices device_names) g
                                          λ _ p g. some_device-IsCalm p g

  kept :
      (r : Outcome (Unit {0}) × Parsing R)
      → Post (λ _. IsGood) IsGood r
      → IsGood (handled (λ _. done) r).1
  kept (ok a, p) g = g
  kept (throw e, p) g = g
  kept (crash e, p) g = absurd g

  -- Whatever the document and the JSON library give, errors included: each device that
  -- parse_configfile leaves in the map is sound, that is, it has each of its lines and a positive
  -- frequency; and it is idle: it knows no counter, and no line of it is enabled.
  pub parse_configfile-DevicesWired :
      (apcape : Bool) (document : Option V)
      → DevicesWired (parse_configfile j apcape document).devices
  unfolding parse_configfile
  parse_configfile-DevicesWired apcape document =
      kept (parse_conf j apcape document _)
        (parse_conf-IsCalm apcape document _ (λ name d e. absurd (ground arith)))
