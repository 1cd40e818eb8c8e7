-- ===== src/Mcp/Menu.antt =====
-- frontend/src/features/mcp/components/McpRowActionsMenu.tsx: the items of the menu of a server, where it
-- is shown, and which item has the focus. Coordinates are whole numbers, which may be negative.
use Prim.Native.Nat.{min}
use change_quality_agent.Base.{
  ℕ, ◌+◌, ◌-◌, ◌==◌, Bool, true, false, ◌||◌, not, Option, none, some, List, [], ◌∷◌, ◌++◌, filter,
  length, if◌then◌else◌,
}
use change_quality_agent.Base.Int.{ℤ, pos, plus, minus, at_most, greater, lesser}

pub data McpServerRuntimeStatus : Type 0 where
  unknown starting running stopping stopped error : McpServerRuntimeStatus

abbrev pub can_start : McpServerRuntimeStatus → Bool
can_start stopped = true
can_start error = true
can_start unknown = true
can_start s = false

abbrev pub can_stop : McpServerRuntimeStatus → Bool
can_stop running = true
can_stop starting = true
can_stop s = false

-- The items by their ids.
pub data Item : Type 0 where
  view edit sep1 start stop restart check sep2 delete : Item

abbrev pub is_separator : Item → Bool
is_separator sep1 = true
is_separator sep2 = true
is_separator item = false

unfoldable pub items : McpServerRuntimeStatus → List Item
items runtime_status =
    view
    ∷ edit
    ∷ sep1
    ∷ ((if can_start runtime_status then start ∷ [] else [])
        ++ ((if can_stop runtime_status then stop ∷ [] else [])
            ++ restart ∷ check ∷ sep2 ∷ delete ∷ []))

abbrev pub visible : McpServerRuntimeStatus → List Item
visible s = filter (λ i. not (is_separator i)) (items s)

-- What the position is computed from: the window, the rectangle of the trigger, and the height of the
-- menu, which is 0 before it is shown.
pub record Layout : Type 0 where
  pub inner_width : ℕ
  pub inner_height : ℕ
  pub trigger_right : ℤ
  pub trigger_top : ℤ
  pub trigger_bottom : ℤ
  pub menu_height : ℕ

pub record MenuPosition : Type 0 where
  pub left : ℤ
  pub top : ℤ

abbrev pub has_bottom_space : Layout → Bool
has_bottom_space l =
    l.menu_height == 0
    || at_most (plus l.trigger_bottom (6 + l.menu_height)) (minus (pos l.inner_height) 8)

unfoldable pub calculate_menu_position : Layout → MenuPosition
calculate_menu_position l = record {
  left = greater (pos 8) (lesser (minus l.trigger_right 176) (minus (pos l.inner_width) (176 + 8)));
  top =
      if has_bottom_space l
      then plus l.trigger_bottom 6
      else greater (pos 8) (minus l.trigger_top (l.menu_height + 6));
}

pub data InitialFocus : Type 0 where
  first last : InitialFocus

-- The menu of a server, and the number of the visible item that has the focus, if one has.
pub record Menu : Type 0 where
  pub runtime_status : McpServerRuntimeStatus
  pub opened : Bool
  pub initial_focus : InitialFocus
  pub focused : Option ℕ

pub data Event : Type 0 where
  open_menu : InitialFocus → Event
  arrow_down arrow_up home end_ escape press_outside click_item moved : Event
  rendered : McpServerRuntimeStatus → Event

-- `focusItem`, for an index that is not negative
abbrev pub focus_item : ℕ → Menu → Menu
focus_item index m = record m { focused = some (min index (length (visible m.runtime_status) - 1)) }

abbrev pub initial_index : InitialFocus → ℕ → ℕ
initial_index first n = 0
initial_index last n = n - 1

-- The effect behind a render of an open menu: its `items` are new at each.
abbrev pub focus_initial : Menu → Menu
focus_initial m =
    if m.opened
    then focus_item (initial_index m.initial_focus (length (visible m.runtime_status))) m
    else m

-- `close`: the trigger gets the focus.
abbrev pub close : Menu → Menu
close m = record m { opened = false; focused = none }

-- `currentIdx + 1` and `currentIdx - 1`, for -1 if no item has the focus.
abbrev pub next_index : Option ℕ → ℕ
next_index none = 0
next_index (some i) = i + 1

abbrev pub previous_index : Option ℕ → ℕ
previous_index none = 0
previous_index (some i) = i - 1

-- A key that the menu listens to while it is open.
abbrev pub when_open : Menu → Menu → Menu
when_open m next = if m.opened then next else m

unfoldable pub step : Menu → Event → Menu
step m (open_menu f) = focus_initial (record m { opened = true; initial_focus = f })
step m arrow_down = when_open m (focus_item (next_index m.focused) m)
step m arrow_up = when_open m (focus_item (previous_index m.focused) m)
step m home = when_open m (focus_item 0 m)
step m end_ = when_open m (focus_item (length (visible m.runtime_status) - 1) m)
step m escape = when_open m (close m)
step m press_outside = when_open m (close m)
step m click_item = when_open m (close m)
step m moved = focus_initial m
step m (rendered s) = focus_initial (record m { runtime_status = s })

unfoldable pub run : Menu → List Event → Menu
run m [] = m
run m (e ∷ es) = run (step m e) es
