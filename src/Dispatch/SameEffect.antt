-- ===== src/Dispatch/SameEffect.antt =====
-- A message from the gateway and the same message of a WebSocket of this process.
use skribbl_app.Prelude.{ℕ, ◌≡◌, true}
use skribbl_app.Models.{Room}
use skribbl_app.Session.{stroke, fill}
use skribbl_app.Dispatch.{ClientMessage, draw_msg, clear_canvas_msg, is_drawer}

-- Strokes, fills and the clearing of the canvas are the drawer's.
abbrev pub ByDrawer : ℕ → Room → ClientMessage → Type 0
ByDrawer id r (draw_msg stroke payload) = is_drawer id r.turn ≡ true
ByDrawer id r (draw_msg fill payload) = is_drawer id r.turn ≡ true
ByDrawer id r clear_canvas_msg = is_drawer id r.turn ≡ true
ByDrawer id r _ = Unit
