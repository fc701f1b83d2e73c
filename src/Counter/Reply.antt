-- ===== src/Counter/Reply.antt =====
-- `Counter::get` of server/counter.cpp: the recorded sets and the samples that a reply is made of.
use pmlib.Prelude.{
  ℕ, ◌+◌, ◌-◌, ◌%◌, Bool, true, false, Option, List, [], ◌∷◌, ◌++◌, length, get_elem?, take, drop,
  replicate, leb, ◌==◌, if◌then◌else◌,
}
use pmlib.Prelude.Int.{ℤ, pos, negsuc, ◌+ℤ◌, ◌-ℤ◌, quot, min_ℤ, abs_ℕ, pos_part, neg_part}
use pmlib.Map.{Map, nat_key, get_default}
use pmlib.Outcome.{
  Outcome, ok, throw, crash, ◌and_then◌, or_crash, length_error, unset_optional, division_by_zero,
  out_of_range,
}
use pmlib.Floating.{Floating}
use pmlib.Device.{Device, get_line_data}

-- A set: the offsets into the lines' samples where it begins and, once it is closed, where it ends.
pub record Recording : Type 0 where
  pub first : Map ℕ ℕ
  pub second : Option (Map ℕ ℕ)

-- `se.first[l]`.
abbrev pub offset : Map ℕ ℕ → ℕ → ℕ
offset m l = get_default l 0 m

-- `se.second.get()[l]`.
unfoldable pub end_of : Recording → ℕ → Outcome ℕ
end_of se l = or_crash se.second unset_optional and_then λ m. ok (offset m l)

-- `(se.second.get()[l] - se.first[l]) / interval`; the quotient is that of integers, so that the
-- `ceil` around it changes nothing.
unfoldable pub resampled : ℤ → Recording → ℕ → Outcome ℤ
resampled interval se l = end_of se l and_then λ e.
    or_crash (quot (pos e -ℤ pos (offset se.first l)) interval) division_by_zero

-- The loop that finds `min_len` of a set; `front` is `lines.front()`.
unfoldable pub min_len_from : ℕ → ℤ → Recording → List ℕ → ℤ → Outcome ℤ
min_len_from front interval se [] acc = ok acc
min_len_from front interval se (l ∷ ls) acc = resampled interval se l and_then λ q.
    min_len_from front interval se ls (if l == front then q else min_ℤ q acc)

unfoldable pub min_len_of : ℤ → List ℕ → Recording → Outcome ℤ
min_len_of interval [] se = ok (pos 0)
min_len_of interval (l ∷ ls) se = min_len_from l interval se (l ∷ ls) (pos 0)

unfoldable pub min_lens : ℤ → List ℕ → List Recording → Outcome (List ℤ)
min_lens interval ls [] = ok []
min_lens interval ls (se ∷ sets) =
    min_len_of interval ls se and_then λ n. min_lens interval ls sets and_then λ ns. ok (n ∷ ns)

-- `watts_sets` behind its first entry: each entry adds a length to the one before it.
unfoldable pub running_sums : ℤ → List ℤ → List ℤ
running_sums acc [] = []
running_sums acc (n ∷ ns) = (n +ℤ acc) ∷ running_sums (n +ℤ acc) ns

-- `min( min(se.second.get()[l], se.first[l] + min_len), line.size() )`.
unfoldable pub stop_of : ℕ → ℤ → ℕ → ℕ → ℤ
stop_of e n b size = min_ℤ (min_ℤ (pos e) (pos b +ℤ n)) (pos size)

abbrev pub ℤ_eqb : ℤ → ℤ → Bool
ℤ_eqb a b = pos_part a + neg_part b == pos_part b + neg_part a

module _ {R : Type 0} where
  abbrev pub sample_at : List R → ℤ → Outcome R
  sample_at xs (pos n) = or_crash (get_elem? xs n) out_of_range
  sample_at xs (negsuc n) = crash out_of_range

  -- The samples whose index is a multiple of the interval, counting from `i`.
  unfoldable pub keep_every : ℕ → ℕ → List R → List R
  keep_every k i [] = []
  keep_every k i (x ∷ xs) =
      let rest = keep_every k (i + 1) xs in if i % k == 0 then x ∷ rest else rest

  -- The range of a `copy_if`: it runs off the vector where the end lies before the beginning.
  abbrev pub range : ℕ → ℤ → List R → Outcome (List R)
  range b (pos n) xs = if leb b n then ok (take (n - b) (drop b xs)) else crash out_of_range
  range b (negsuc n) xs = crash out_of_range

  -- One line of one set, without aggregation.
  unfoldable pub line_samples : ℤ → Device R → Recording → ℤ → ℕ → Outcome (List R)
  line_samples interval d se n l = get_line_data l d and_then λ xs. end_of se l and_then λ e.
      range (offset se.first l) (stop_of e n (offset se.first l) (length xs)) xs and_then λ ys.
      ok (keep_every (abs_ℕ interval) 0 ys)

  unfoldable pub set_samples : ℤ → Device R → Recording → ℤ → List ℕ → Outcome (List R)
  set_samples interval d se n [] = ok []
  set_samples interval d se n (l ∷ ls) = line_samples interval d se n l and_then λ ys.
      set_samples interval d se n ls and_then λ zs. ok (ys ++ zs)

  module _ ⦃f : Floating R⦄ where
    -- The loop that adds one line to `sum_line`: it ends at the end of `sum_line`, or where the
    -- iterator meets `stop`.
    unfoldable pub add_line : ℤ → ℤ → List R → ℤ → List R → Outcome (List R)
    add_line interval stop xs at [] = ok []
    add_line interval stop xs at (s ∷ ss) =
        let rest = add_line interval stop xs (at +ℤ interval) ss in
        if ℤ_eqb at stop
        then ok (s ∷ ss)
        else (sample_at xs at and_then λ x. rest and_then λ ss'. ok (f.add s x ∷ ss'))

    unfoldable pub add_lines : ℤ → Device R → Recording → ℤ → List ℕ → List R → Outcome (List R)
    add_lines interval d se n [] sum = ok sum
    add_lines interval d se n (l ∷ ls) sum = get_line_data l d and_then λ xs.
        end_of se l and_then λ e.
        add_line interval (stop_of e n (offset se.first l) (length xs)) xs (pos (offset se.first l))
          sum
        and_then add_lines interval d se n ls

    -- `vector<double> sum_line(min_len, 0)`: a negative length is far beyond `max_size()`.
    abbrev pub zeros : ℤ → Outcome (List R)
    zeros (pos n) = ok (replicate n (f.of_ℕ 0))
    zeros (negsuc n) = throw length_error

    unfoldable pub set_sums : ℤ → Device R → Recording → ℤ → List ℕ → Outcome (List R)
    set_sums interval d se n ls = zeros n and_then add_lines interval d se n ls

    abbrev pub set_watts : Bool → ℤ → Device R → Recording → ℤ → List ℕ → Outcome (List R)
    set_watts true = set_sums
    set_watts false = set_samples

    -- The loop over the sets and their lengths.
    unfoldable pub all_watts :
        Bool → ℤ → Device R → List ℕ → List Recording → List ℤ → Outcome (List R)
    all_watts aggregate interval d ls (se ∷ sets) (n ∷ ns) =
        set_watts aggregate interval d se n ls and_then λ ys.
        all_watts aggregate interval d ls sets ns and_then λ zs. ok (ys ++ zs)
    all_watts aggregate interval d ls (se ∷ sets) [] = ok []
    all_watts aggregate interval d ls [] ns = ok []

    -- What `get` sends: the samples, and where each set begins among them.
    unfoldable pub samples_of :
        Bool → ℤ → Device R → List ℕ → List Recording → Outcome (List R × List ℤ)
    samples_of aggregate interval d ls sets = min_lens interval ls sets and_then λ ns.
        all_watts aggregate interval d ls sets ns and_then λ watts.
        ok (watts, pos 0 ∷ running_sums (pos 0) ns)
