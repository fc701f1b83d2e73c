-- ===== src/Lifecycle/Started.antt =====
-- When the server starts (`start_devices` of server/server.cpp).
use pmlib.Prelude.{
  ◌≡◌, refl, ◌∙◌, ap, Bool, true, false, not, ◌&&◌, ◌||◌, List, [], ◌∷◌, arith, All, length, ltb,
  Bool-cases, inl, inr,
}
use pmlib.Map.{Map, Name, keys}
use pmlib.Outcome.{ok}
use pmlib.Device.{Device}
use pmlib.Sampling.{Tick, run_device}
use pmlib.Sampling.Order.{products, IsFed, HasRoom, wakes, run_ticks_lem}
use pmlib.Lifecycle.{Life, goes_on, exited, add_device, start_devices}

module _ {R : Type 0} (waited : Name → List (Tick R)) where
  -- Whether a device has all of its lines and a sample of it is stored in time.
  abbrev pub comes_up : Name → Device R → Bool
  comes_up name d =
      d.working
      || (not (ltb (length d.lines) d.n_lines)
          && wakes (waited name) (length d.data_queue) d.running)

  abbrev pub all_up : Map Name (Device R) → Bool
  all_up [] = true
  all_up ((name, d) ∷ m) = comes_up name d && all_up m

  -- The samples fit the device, and the queue has room for them.
  abbrev pub IsPlanned : Name × Device R → Type 0
  IsPlanned (name, d) =
      IsFed d
      × All (λ s. length s ≡ d.n_lines) (products (waited name))
      × HasRoom (waited name) (length d.data_queue) d.running

  abbrev pub survives : Life R → Bool
  survives (goes_on m) = true
  survives exited = false

  -- Every device is working, under the names of the configuration.
  abbrev pub AreWorking : Map Name (Device R) → Life R → Type 0
  AreWorking m (goes_on m') = All (λ e. e.1.working ≡ true) m' × (keys m' ≡ keys m)
  AreWorking m exited = Unit {0}

  run_device_lem :
      (name : Name) (d : Device R)
      → IsPlanned (name, d)
      → (d' : Device R) × (run_device (waited name) d ≡ ok d') × (d'.working ≡ comes_up name d)
  unfolding run_device
  run_device_lem name d (fed, sized, room) = elim (Bool-cases (ltb (length d.lines) d.n_lines)) [
    | inl e ↦ (d, rw e refl, rw e (ground arith))
    | inr e ↦
        let (d', p, _, w) = run_ticks_lem (waited name) d fed sized room in (d', rw e p, rw e w)
  ]

  added :
      (name : Name) (d d0 : Device R) (m : Map Name (Device R)) (l : Life R)
      → d.working ≡ true
      → AreWorking m l
      → (survives (add_device name d l) ≡ survives l)
        × AreWorking ((name, d0) ∷ m) (add_device name d l)
  added name d d0 m (goes_on m') w (h, e) = (refl, ((w, h), ap (λ t. name ∷ t) e))
  added name d d0 m exited w h = (refl, tt)

  -- Let the samples that arrive while the server waits for a device fit it, and let its queue have
  -- room for them. Then start_devices has no undefined behaviour; it goes on exactly if every
  -- device is working already or has as many lines as it should have and has a sample stored before
  -- its wait is over, and then every device is working, under the names that it had; otherwise the
  -- process exits.
  pub start_devices_lem :
      (m : Map Name (Device R))
      → All IsPlanned m
      → (l : Life R) × (start_devices waited m ≡ ok l) × (survives l ≡ all_up m) × AreWorking m l
  unfolding start_devices
  start_devices_lem [] h = (goes_on [], refl, refl, (tt, refl))
  start_devices_lem ((name, d) ∷ m) (h, hs) =
      let (d', p, w) = run_device_lem name d h in
      elim (Bool-cases d'.working) [
        | inl e ↦
            let (l, q, s, a) = start_devices_lem m hs in
            let (s', a') = added name d' d m l e a in
            (add_device name d' l, rw p (rw (e, q) refl), s' ∙ s ∙ rw (← w, e) refl, a')
        | inr e ↦ (exited, rw p (rw e refl), rw (← w, e) refl, tt)
      ]
