-- ===== src/Client/Parse/Reading.antt =====
-- `pm_set_lines` of client/pm_set_lines.c on texts of line numbers and ranges with commas between them.
use pmlib.Prelude.{
  ℕ, ◌<◌, ◌≤◌, ◌≡◌, refl, true, ◌||◌, none, List, [], ◌∷◌, ◌++◌, arith, length, All,
}
use pmlib.Outcome.{ok}
use pmlib.Device.Lines.{contains}
use pmlib.Client.Lines.{LineT, line_isset, line_set, line_clr_all}
use pmlib.Client.Lines.Laws.{
  IsLineT, line_isset-line_set, line_set-IsLineT, line_isset-line_clr_all,
}
use pmlib.Client.Parse.{Cursor, comma, hyphen, is_allowed, set_each, pm_set_lines}
use pmlib.Client.Parse.Items.{Item, one, span, render_number, render_item, render, expand, IsShort}
use pmlib.Client.Parse.Rounds.{scan-render}

is_allowed-append :
    (xs ys : List ℕ) → is_allowed xs ≡ true → is_allowed ys ≡ true → is_allowed (xs ++ ys) ≡ true
unfolding is_allowed
is_allowed-append [] ys p q = q
is_allowed-append (x ∷ xs) ys p q = ground (arith, is_allowed-append xs ys)

is_allowed-render_number : (m : ℕ) → m < 100 → is_allowed (render_number m) ≡ true
unfolding is_allowed
is_allowed-render_number m h = ground arith

is_allowed-render_item : (i : Item) → IsShort i → is_allowed (render_item i) ≡ true
unfolding is_allowed
is_allowed-render_item (one m) h = is_allowed-render_number m h
is_allowed-render_item (span a b) h =
    is_allowed-append (render_number a) (hyphen ∷ render_number b) (is_allowed-render_number a h.0)
      (is_allowed-render_number b h.1)

is_allowed-render : (is : List Item) → All IsShort is → is_allowed (render is) ≡ true
unfolding is_allowed
is_allowed-render [] h = refl
is_allowed-render (i ∷ []) h = is_allowed-render_item i h.0
is_allowed-render (i ∷ j ∷ is) h =
    is_allowed-append (render_item i) (comma ∷ render (j ∷ is)) (is_allowed-render_item i h.0)
      (is_allowed-render (j ∷ is) h.1)

pub set_each_lem :
    (ls : List ℕ) (s : LineT)
    → IsLineT s
    → IsLineT (set_each ls s)
      × ((l : ℕ) → l < 128 → line_isset l (set_each ls s) ≡ (contains ls l || line_isset l s))
unfolding set_each
set_each_lem [] s ok' = (ok', λ l h. refl)
set_each_lem (i ∷ ls) s ok' =
    let (sized, at) = set_each_lem ls (line_set i s) (line_set-IsLineT i s ok') in
    (sized, λ l h. rw (at l h, line_isset-line_set i l s ok') (ground arith))

pub clear-IsLineT : (s : LineT) → IsLineT (line_clr_all s)
unfolding line_clr_all
clear-IsLineT s = refl

-- From a text of numbers below 100 and of ranges between such numbers, with commas between them,
-- that names no more than 128 lines in all, pm_set_lines makes the bit map of just these lines.
pub pm_set_lines-render :
    (is : List Item) (lines : LineT)
    → All IsShort is
    → length (expand is) ≤ 128
    → (mask : LineT) × (pm_set_lines (render is) lines ≡ ok mask)
      × IsLineT mask
      × ((l : ℕ) → l < 128 → line_isset l mask ≡ contains (expand is) l)
unfolding pm_set_lines
pm_set_lines-render is lines short room =
    let start : Cursor = record { rest = render is; line = none; sep = comma; found = [] } in
    let read =
      scan-render is (length (render is)) start short refl refl (omega arith) (omega arith) in
    let (sized, at) = set_each_lem (expand is) (line_clr_all lines) (clear-IsLineT lines) in
    (
      set_each (expand is) (line_clr_all lines),
      rw (is_allowed-render is short, read) refl,
      sized,
      λ l h. rw (at l h, line_isset-line_clr_all l lines) (ground arith),
    )
