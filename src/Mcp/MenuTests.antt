-- ===== src/Mcp/MenuTests.antt =====
-- The theorems on the menu of a server at a concrete layout and concrete events.
use change_quality_agent.Base.{◌+◌, true, ◌≡◌, refl, arith}
use change_quality_agent.Mcp.Menu.{Layout, calculate_menu_position}
use change_quality_agent.Base.Int.{pos, negsuc, plus, at_most}
use change_quality_agent.Mcp.Keys.{IsClear, position_inside}

-- The trigger of the last row of a window.
abbrev layout : Layout
layout = record {
  inner_width = 1280;
  inner_height = 720;
  trigger_right = pos 1264;
  trigger_top = pos 660;
  trigger_bottom = pos 692;
  menu_height = 220;
}

-- The trigger has scrolled out of the window at the top and so is the menu.
scrolled :
    (calculate_menu_position
      (record layout { trigger_top = negsuc 99; trigger_bottom = negsuc 67 })).top
    ≡ negsuc 61
unfolding calculate_menu_position
scrolled = refl

position_inside_example :
    let p = calculate_menu_position layout in
    (at_most (pos 8) p.left ≡ true)
    × (at_most (plus p.left (176 + 8)) (pos 1280) ≡ true)
    × IsClear layout p.top
position_inside_example = position_inside layout (omega arith) refl refl refl refl refl
