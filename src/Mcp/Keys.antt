-- ===== src/Mcp/Keys.antt =====
-- Where the menu of a server is shown, and which item its keys reach.
use Prim.Native.Nat.{min}
use change_quality_agent.Base.{
  ℕ, ◌+◌, ◌-◌, ◌≤◌, ◌<◌, ltb, ◌==◌, Bool, true, false, ◌||◌, not, none, some, is_some, List, [],
  ◌∷◌, length, ◌≡◌, refl, ap, ◌∙◌, arith, Bool-cases, inl, inr,
}
use change_quality_agent.Base.Int.{ℤ, pos, negsuc, plus, minus, at_most, greater, lesser}
use change_quality_agent.Mcp.Menu.{
  McpServerRuntimeStatus, items, visible, Layout, has_bottom_space, calculate_menu_position, first,
  Menu, Event, open_menu, arrow_down, arrow_up, home, end_, escape, press_outside, click_item,
  moved, rendered, focus_item, focus_initial, close, when_open, step, run,
}

left_inside :
    (width : ℕ) (right : ℤ)
    → 192 ≤ width
    → let left = greater (pos 8) (lesser (minus right 176) (minus (pos width) (176 + 8))) in
      (at_most (pos 8) left ≡ true) × (at_most (plus left (176 + 8)) (pos width) ≡ true)
left_inside width (pos r) w = ground (arith, w)
left_inside width (negsuc r) w = ground (arith, w)

-- The menu is in the window and does not cover the trigger.
abbrev pub IsClear : Layout → ℤ → Type 0
IsClear l top =
    (at_most (pos 0) top ≡ true)
    × (at_most (plus top l.menu_height) (pos l.inner_height) ≡ true)
    × ((at_most (plus top l.menu_height) l.trigger_top || at_most l.trigger_bottom top) ≡ true)

top_inside :
    (width height menu : ℕ) (right top bottom : ℤ)
    → let l : Layout = record {
      inner_width = width;
      inner_height = height;
      trigger_right = right;
      trigger_top = top;
      trigger_bottom = bottom;
      menu_height = menu;
    } in
      at_most (pos 0) top ≡ true
      → at_most top bottom ≡ true
      → at_most bottom (pos height) ≡ true
      → (at_most (pos (menu + 14)) top || has_bottom_space l) ≡ true
      → (menu == 0) ≡ false
      → IsClear l (calculate_menu_position l).top
unfolding calculate_menu_position
top_inside width height menu right (pos t) (pos b) z tb bh room h =
    ground (arith, z, tb, bh, room, h)
top_inside width height menu right (pos t) (negsuc b) z tb bh room h = absurd (cc)
top_inside width height menu right (negsuc t) b z tb bh room h = absurd (cc)

-- When the window is at least 192 wide, the trigger is in the window between its top and its bottom,
-- the menu has been shown and so has a height, and there is room for it above the trigger or below
-- it: the menu is in the window, with the padding of 8 on its left and its right, and does not cover
-- the trigger. How far the trigger is to the left or right does not matter.
pub position_inside :
    (l : Layout)
    → 192 ≤ l.inner_width
    → at_most (pos 0) l.trigger_top ≡ true
    → at_most l.trigger_top l.trigger_bottom ≡ true
    → at_most l.trigger_bottom (pos l.inner_height) ≡ true
    → (at_most (pos (l.menu_height + 14)) l.trigger_top || has_bottom_space l) ≡ true
    → (l.menu_height == 0) ≡ false
    → let p = calculate_menu_position l in
      (at_most (pos 8) p.left ≡ true)
      × (at_most (plus p.left (176 + 8)) (pos l.inner_width) ≡ true)
      × IsClear l p.top
unfolding calculate_menu_position
position_inside l w z t b room h =
    let (least, most) = left_inside l.inner_width l.trigger_right w in
    (
      least,
      most,
      top_inside l.inner_width l.inner_height l.menu_height l.trigger_right l.trigger_top
          l.trigger_bottom z t b room h,
    )

-- The focus is on a visible item, or on none.
abbrev pub in_range : Menu → Bool
in_range m = elim m.focused [ none ↦ true | some i ↦ ltb i (length (visible m.runtime_status)) ]

visible-nonempty : (s : McpServerRuntimeStatus) → 0 < length (visible s)
unfolding items
visible-nonempty s = ground arith

focus_item-in_range : (i : ℕ) (m : Menu) → in_range (focus_item i m) ≡ true
focus_item-in_range i m = ground (arith, visible-nonempty m.runtime_status)

-- The focus is in range, and a closed menu has none.
record IsFocused (m : Menu) : Type 0 where
  within : in_range m ≡ true
  shut : m.opened ≡ false → m.focused ≡ none

focus_initial-IsFocused :
    (m : Menu) → (m.opened ≡ false → m.focused ≡ none) → IsFocused (focus_initial m)
focus_initial-IsFocused m s = elim (Bool-cases m.opened) [
  | inl o ↦ record {
    within = ground (arith, o, visible-nonempty m.runtime_status);
    shut = ground (arith, o);
  }
  | inr c ↦ record { within = ground (arith, c, s); shut = ground (arith, c, s) }
]

when_open-IsFocused :
    (m n : Menu) → (m.opened ≡ true → IsFocused n) → IsFocused m → IsFocused (when_open m n)
when_open-IsFocused m n w v = elim (Bool-cases m.opened) [ inl o ↦ simp o (w o) | inr c ↦ simp c v ]

focus-IsFocused : (i : ℕ) (m : Menu) → IsFocused m → IsFocused (when_open m (focus_item i m))
focus-IsFocused i m v =
    when_open-IsFocused m (focus_item i m)
      (λ o. record { within = focus_item-in_range i m; shut = λ c. ground (arith, o, c) }) v

close-IsFocused : (m : Menu) → IsFocused m → IsFocused (when_open m (close m))
close-IsFocused m v =
    when_open-IsFocused m (close m) (λ o. record { within = refl; shut = λ c. refl }) v

step-IsFocused : (m : Menu) (e : Event) → IsFocused m → IsFocused (step m e)
unfolding step
step-IsFocused m (open_menu f) v =
    focus_initial-IsFocused (record m { opened = true; initial_focus = f }) (λ c. absurd cc)
step-IsFocused m arrow_down v = focus-IsFocused _ m v
step-IsFocused m arrow_up v = focus-IsFocused _ m v
step-IsFocused m home v = focus-IsFocused _ m v
step-IsFocused m end_ v = focus-IsFocused _ m v
step-IsFocused m escape v = close-IsFocused m v
step-IsFocused m press_outside v = close-IsFocused m v
step-IsFocused m click_item v = close-IsFocused m v
step-IsFocused m moved v = focus_initial-IsFocused m v.shut
step-IsFocused m (rendered s) v = focus_initial-IsFocused (record m { runtime_status = s }) v.shut

run-IsFocused : (m : Menu) (es : List Event) → IsFocused m → IsFocused (run m es)
unfolding run
run-IsFocused m [] v = v
run-IsFocused m (e ∷ es) v = run-IsFocused (step m e) es (step-IsFocused m e v)

-- `n` presses of a key
abbrev pub presses : ℕ → Event → List Event
presses ℕ.zero e = []
presses (ℕ.suc n) e = e ∷ presses n e

abbrev pub closed : McpServerRuntimeStatus → Menu
closed s = record { runtime_status = s; opened = false; initial_focus = first; focused = none }

arrow_down-open :
    (i : ℕ) (m : Menu)
    → m.opened ≡ true
    → m.focused ≡ some i
    → step m arrow_down ≡ focus_item (i + 1) m
unfolding step
arrow_down-open i m o f = simp (o, f) refl

downs :
    (n i : ℕ) (m : Menu)
    → m.opened ≡ true
    → m.focused ≡ some i
    → i ≤ length (visible m.runtime_status) - 1
    → (run m (presses n arrow_down)).focused
      ≡ some (min (i + n) (length (visible m.runtime_status) - 1))
unfolding run
downs ℕ.zero i m o f h = f ∙ ap some (omega (arith, h))
downs (ℕ.suc n) i m o f h =
    let top = length (visible m.runtime_status) - 1 in
    ap (λ k. (run k (presses n arrow_down)).focused) (arrow_down-open i m o f)
    ∙ downs n (min (i + 1) top) (focus_item (i + 1) m) o refl (omega arith)
    ∙ ap some (omega (arith, h))

-- A menu that was closed at first, after any events: the focus is on one of its visible items or on none,
-- and a closed menu has none. Opened then at its first item, it has the item numbered `n` in focus behind
-- `n` presses of the arrow down, and stays at its last behind more.
pub run-reaches :
    (s : McpServerRuntimeStatus) (es : List Event) (n : ℕ)
    → let m = run (closed s) es in
      (in_range m ≡ true)
      × ((m.opened || not (is_some m.focused)) ≡ true)
      × ((run (step m (open_menu first)) (presses n arrow_down)).focused
          ≡ some (min n (length (visible m.runtime_status) - 1)))
unfolding step
run-reaches s es n =
    let m = run (closed s) es in
    let v = run-IsFocused (closed s) es (record { within = refl; shut = λ c. refl }) in
    (
      v.within,
      ground (arith, v.shut),
      downs n 0 (step m (open_menu first)) refl (ap some (omega arith)) (omega arith)
          ∙ ap some (omega arith),
    )
