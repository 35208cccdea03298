-- ===== src/Dispatch/Alike.antt =====
-- A forwarded message and the same message of a player of this worker.
use skribbl_app.Prelude.{ℕ, ◌≡◌, refl, ap, ◌∙◌, true, false, some}
use skribbl_app.Models.{Player, Room, get_player}
use skribbl_app.Session.{
  Env, Session, stroke, highlighter, shape, fill, undo, Message, drawn, clear_canvas, broadcast,
}
use skribbl_app.Dispatch.{
  Hub, with_session, ClientMessage, update_settings_msg, start_game_msg, rematch_msg,
  toggle_ready_msg, leave_room_msg, end_game_now_msg, select_word_msg, guess_msg, chat_msg,
  draw_msg, clear_canvas_msg, request_become_player_msg, kick_player_msg, vote_kick_msg,
  transfer_host_msg, vote_kick_cast_msg, respond_join_request_msg, respond_role_request_msg,
  cancel_role_request_msg, reaction_msg, typing_msg, update_profile_msg, unknown_msg, is_drawer,
  handle_local_message, draw,
}
use skribbl_app.Dispatch.Forwarded.{forwarded_of, forwarded_by, handle_forwarded_message}

-- The messages that are forwarded to the same effect as they have for a player of this worker: all
-- but the vote to kick and the transfer of the host, which are not forwarded, leaving, and drawings
-- other than strokes and fills; and whoever draws or clears the canvas is the drawer.
abbrev pub AlikeForwarded : ℕ → Room → ClientMessage → Type 0
AlikeForwarded id r (draw_msg stroke payload) = is_drawer id r.turn ≡ true
AlikeForwarded id r (draw_msg fill payload) = is_drawer id r.turn ≡ true
AlikeForwarded id r (draw_msg _ payload) = is_drawer id r.turn ≡ false
AlikeForwarded id r clear_canvas_msg = is_drawer id r.turn ≡ true
AlikeForwarded id r leave_room_msg = ⊥
AlikeForwarded id r (vote_kick_msg target_id) = ⊥
AlikeForwarded id r (vote_kick_cast_msg vote) = ⊥
AlikeForwarded id r (transfer_host_msg target_id) = ⊥
AlikeForwarded id r _ = Unit

pub draw_by :
    (id : ℕ) (m : Message) (s : Session)
    → is_drawer id s.room.turn ≡ true
    → broadcast m s ≡ draw id m s
draw_by id m s e = rw e refl

no_draw : (id : ℕ) (m : Message) (s : Session) → is_drawer id s.room.turn ≡ false → s ≡ draw id m s
no_draw id m s e = rw e refl

forwarded_of-alike :
    (env : Env) (new_id id : ℕ) (m : ClientMessage) (h : Hub)
    → AlikeForwarded id h.ballot.session.room m
    → forwarded_of env new_id id m h ≡ (handle_local_message env new_id id m h).hub
unfolding handle_local_message
forwarded_of-alike env new_id id (update_settings_msg d) h a = refl
forwarded_of-alike env new_id id start_game_msg h a = refl
forwarded_of-alike env new_id id rematch_msg h a = refl
forwarded_of-alike env new_id id toggle_ready_msg h a = refl
forwarded_of-alike env new_id id leave_room_msg h a = absurd a
forwarded_of-alike env new_id id end_game_now_msg h a = refl
forwarded_of-alike env new_id id (select_word_msg word) h a = refl
forwarded_of-alike env new_id id (guess_msg text) h a = refl
forwarded_of-alike env new_id id (chat_msg text) h a = refl
forwarded_of-alike env new_id id (draw_msg stroke payload) h a =
    ap (λ s. some (with_session h s)) (draw_by id (drawn stroke payload) h.ballot.session a)
forwarded_of-alike env new_id id (draw_msg highlighter payload) h a =
    ap (λ s. some (with_session h s)) (no_draw id (drawn highlighter payload) h.ballot.session a)
forwarded_of-alike env new_id id (draw_msg shape payload) h a =
    ap (λ s. some (with_session h s)) (no_draw id (drawn shape payload) h.ballot.session a)
forwarded_of-alike env new_id id (draw_msg fill payload) h a =
    ap (λ s. some (with_session h s)) (draw_by id (drawn fill payload) h.ballot.session a)
forwarded_of-alike env new_id id (draw_msg undo payload) h a =
    ap (λ s. some (with_session h s)) (no_draw id (drawn undo payload) h.ballot.session a)
forwarded_of-alike env new_id id clear_canvas_msg h a =
    ap (λ s. some (with_session h s)) (draw_by id clear_canvas h.ballot.session a)
forwarded_of-alike env new_id id request_become_player_msg h a = refl
forwarded_of-alike env new_id id (kick_player_msg target_id) h a = refl
forwarded_of-alike env new_id id (vote_kick_msg target_id) h a = absurd a
forwarded_of-alike env new_id id (transfer_host_msg target_id) h a = absurd a
forwarded_of-alike env new_id id (vote_kick_cast_msg vote) h a = absurd a
forwarded_of-alike env new_id id (respond_join_request_msg request_id action) h a = refl
forwarded_of-alike env new_id id (respond_role_request_msg request_id accepts) h a = refl
forwarded_of-alike env new_id id (cancel_role_request_msg request_id) h a = refl
forwarded_of-alike env new_id id (reaction_msg emoji) h a = refl
forwarded_of-alike env new_id id (typing_msg is_typing) h a = refl
forwarded_of-alike env new_id id (update_profile_msg name avatar) h a = refl
forwarded_of-alike env new_id id unknown_msg h a = refl

-- A message of a player in the room that is forwarded from another worker has the same effect on the
-- room, the requests and the votes as if the player were on this worker; left out are the messages
-- that are not forwarded, leaving, and drawings of who is not the drawer.
pub handle_forwarded_message-handle_local_message :
    (env : Env) (new_id id : ℕ) (m : ClientMessage) (h : Hub) (p : Player)
    → get_player id h.ballot.session.room ≡ some p
    → AlikeForwarded id h.ballot.session.room m
    → handle_forwarded_message env new_id id m h ≡ (handle_local_message env new_id id m h).hub
unfolding handle_forwarded_message
handle_forwarded_message-handle_local_message env new_id id m h p found alike =
    ap (λ o. forwarded_by o env new_id id m h) found ∙ forwarded_of-alike env new_id id m h alike
