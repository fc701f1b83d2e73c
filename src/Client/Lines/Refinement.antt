-- ===== src/Client/Lines/Refinement.antt =====
-- client/line.h against sets of lines, and against the server's reading of a mask in server/counter.cpp.
use pmlib.Prelude.{
  ℕ, zero, suc, ◌/◌, ◌%◌, ◌≤◌, ◌≡◌, refl, ◌∙◌, fun_ext, Bool, false, not, ◌&&◌, ◌||◌, arith, ltb,
  ◌==◌, get_or, length, inl, inr, Bool-cases, [], ◌∷◌,
}
use pmlib.Device.Lines.{contains}
use pmlib.Counter.Mask.{lines_of_mask}
use pmlib.Counter.Selection.{names, lines_of_mask_lem}
use pmlib.Client.Lines.{LineT, line_clr_all, line_set_all, line_set, line_clr, line_isset, line_and}
use pmlib.Client.Lines.Laws.{
  IsLineT, line_isset-line_set, line_isset-line_clr, line_isset-line_and, line_isset-line_clr_all,
  line_isset-line_set_all, bit_set-none,
}

-- A set of lines, among the 128 that a bit map has.
abbrev pub LineSet : Type 0
LineSet = ℕ → Bool

abbrev pub empty : LineSet
empty l = false

abbrev pub full : LineSet
full l = ltb l 128

abbrev pub insert : ℕ → LineSet → LineSet
insert i a l = ltb i 128 && (i == l) || a l

abbrev pub remove : ℕ → LineSet → LineSet
remove i a l = not (i == l) && a l

abbrev pub meet : LineSet → LineSet → LineSet
meet a b l = a l && b l

abbrev pub view : LineT → LineSet
view s l = line_isset l s

-- On bit maps of the right size the macros of line.h are the operations on sets of the lines from 0
-- to 127: the empty set, the full one, putting a line in, which does nothing from 128 on, taking
-- one out, and the intersection.
pub line_t_refines :
    (s t : LineT) (i : ℕ)
    → IsLineT s
    → IsLineT t
    → (view (line_clr_all s) ≡ empty)
      × (view (line_set_all s) ≡ full)
      × (view (line_set i s) ≡ insert i (view s))
      × (view (line_clr i s) ≡ remove i (view s))
      × (view (line_and s t) ≡ meet (view s) (view t))
line_t_refines s t i ok ok' = (
  fun_ext (λ l. line_isset-line_clr_all l s),
  fun_ext (λ l. line_isset-line_set_all l s),
  fun_ext (λ l. line_isset-line_set i l s ok),
  fun_ext (λ l. line_isset-line_clr i l s ok),
  fun_ext (λ l. line_isset-line_and l s t ok ok'),
)

get_or-beyond : (s : LineT) (j : ℕ) → length s ≤ j → get_or s j 0 ≡ 0
get_or-beyond [] j h = refl
get_or-beyond (x ∷ s) zero h = absurd (omega arith)
get_or-beyond (x ∷ s) (suc j) h = get_or-beyond s j (omega arith)

names-view : (n : ℕ) (s : LineT) (l : ℕ) → IsLineT s → names n s l ≡ (line_isset l s && ltb l n)
unfolding line_isset
names-view n s l ok = elim (Bool-cases (ltb l 128)) [
  | inl e ↦ rw e refl
  | inr e ↦ rw (e, get_or-beyond s (l / 8) (ground arith), bit_set-none (l % 8)) refl
]

-- The lines that the server takes from a client's bit map are those that LINE_ISSET finds in it and
-- the device has.
pub lines_of_mask-view :
    (n : ℕ) (s : LineT) → IsLineT s → contains (lines_of_mask n s) ≡ meet (view s) (λ l. ltb l n)
lines_of_mask-view n s ok = fun_ext (λ l. (lines_of_mask_lem n s).1 l ∙ names-view n s l ok)
