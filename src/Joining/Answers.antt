-- ===== src/Joining/Answers.antt =====
-- A request to join in the middle of a game, from the visitor's coming to the host's answer.
use skribbl_app.Prelude.{
  ℕ, ◌≡◌, refl, ap, ◌∙◌, false, not, Option, none, some, List, [], ◌∷◌, ◌++◌, arith, keep, ◌==◌,
}
use skribbl_app.Text.{codes}
use skribbl_app.Models.{lobby, state_eq, Player, new_player, get_player, add_player}
use skribbl_app.Session.{Env, Message}
use skribbl_app.Lobby.{error, told, request_not_found}
use skribbl_app.Joining.{
  PendingJoin, Door, Visitor, visitor_request, join_room_local, password_error, admit_unless, admit,
  ask_host, reachable, file_join, players_full, seat,
}
use skribbl_app.Joining.Requests.{
  Action, accept_player, accept_spectator, decline, find_join, forget_join, close_join, seat_join,
  act_on_join, respond_to, respond_join_request,
}
use skribbl_app.Joining.Places.{players-end_countdown}

find-keep :
    (id : ℕ) (joins : List PendingJoin)
    → find_join id (keep (λ r. not (r.request.request_id == id)) joins) ≡ none
find-keep id [] = refl
find-keep id (r ∷ joins) = ground (arith, find-keep id joins)

find_join-id :
    (id : ℕ) (joins : List PendingJoin) (req : PendingJoin)
    → find_join id joins ≡ some req
    → req.request.request_id ≡ id
find_join-id id [] req e = absurd (cc)
find_join-id id (r ∷ joins) req e = ground (arith, find_join-id id joins req)

find_join-snoc :
    (id : ℕ) (joins : List PendingJoin) (r : PendingJoin)
    → find_join id joins ≡ none
    → r.request.request_id ≡ id
    → find_join id (joins ++ r ∷ []) ≡ some r
find_join-snoc id [] r e is = ground arith
find_join-snoc id (q ∷ joins) r e is = ground (arith, find_join-snoc id joins r)

module _ (env : Env) (d : Door) where
  forgotten :
      (id : ℕ) (req : PendingJoin)
      → find_join id d.joins ≡ some req
      → find_join id (forget_join req d).joins ≡ none
  unfolding forget_join
  forgotten id req e =
      let is = find_join-id id d.joins req e in
      ap (λ i. find_join id (keep (λ r. not (r.request.request_id == i)) d.joins)) is
      ∙ find-keep id d.joins

  act_on_join-gone :
      (id new_id : ℕ) (action : Action) (req : PendingJoin) (m : Message)
      → find_join id d.joins ≡ some req
      → (act_on_join env new_id action req d).0 ≡ told m
      → find_join id (act_on_join env new_id action req d).1.joins ≡ none
  unfolding seat_join seat
  act_on_join-gone id new_id decline req m e answered = forgotten id req e
  act_on_join-gone id new_id accept_player req m e answered =
      let gone = forgotten id req e in ground (arith, gone)
  act_on_join-gone id new_id accept_spectator req m e answered =
      let gone = forgotten id req e in ground (arith, gone)

  respond_to-gone :
      (host_player_id id new_id : ℕ) (action : Action) (req : Option PendingJoin) (m : Message)
      → find_join id d.joins ≡ req
      → (respond_to env host_player_id new_id action req d).0 ≡ told m
      → find_join id (respond_to env host_player_id new_id action req d).1.joins ≡ none
  respond_to-gone host_player_id id new_id action none m e answered = e
  respond_to-gone host_player_id id new_id action (some req) m e answered =
      let gone = act_on_join-gone id new_id action req m e in ground (arith, gone)

-- A request to join that the host has answered, whatever the answer, cannot be answered again: the
-- second answer gets an error and changes nothing.
pub respond_join_request_once :
    (env : Env) (host other id new_id later_id : ℕ) (action again : Action) (d : Door) (m : Message)
    → (respond_join_request env host id new_id action d).0 ≡ told m
    → respond_join_request env other id later_id again
        (respond_join_request env host id new_id action d).1
      ≡ (
        error request_not_found (codes "Join request not found or expired"),
        (respond_join_request env host id new_id action d).1,
      )
unfolding respond_join_request
respond_join_request_once env host other id new_id later_id action again d m answered =
    ap
      (λ req.
        respond_to env other later_id again req
          (respond_join_request env host id new_id action d).1)
      (respond_to-gone env d host id new_id action (find_join id d.joins) m refl answered)

module _ (env : Env) (v : Visitor) (d : Door) where
  -- What a visitor finds who comes in the middle of a game, with a right password if there is one, to a
  -- room that has a place and a host to ask.
  pub record Asks (host : Player) : Type 0 where
    pub in_game : state_eq d.session.room.state lobby ≡ false
    pub plays : v.as_spectator ≡ false
    pub allowed : password_error env.unicode d.session.room.config.password v.password ≡ none
    pub has_place : players_full d.session.room ≡ false
    pub asked : reachable (get_player d.session.room.host_id d.session.room) ≡ some host
    pub new : find_join v.new_id d.joins ≡ none

  join-files : (host : Player) → Asks host → join_room_local env v d ≡ file_join env v host d
  unfolding join_room_local admit
  join-files host h =
      let asks : admit env v d
          ≡ ask_host env v (reachable (get_player d.session.room.host_id d.session.room)) d =
        simp (h.in_game, h.plays, h.has_place) in
      ap (λ problem. admit_unless problem env v d) h.allowed
      ∙ asks
      ∙ ap (λ o. ask_host env v o d) h.asked

  filed_request : PendingJoin
  filed_request = record {
    request = visitor_request v;
    websocket = v.websocket;
    timeout_task = d.next_timer;
  }

  find-filed :
      (host : Player)
      → Asks host
      → find_join v.new_id (file_join env v host d).1.joins ≡ some filed_request
  unfolding file_join filed_request
  find-filed host h = find_join-snoc v.new_id d.joins filed_request h.new refl

seat_join-players :
    (env : Env) (new_id : ℕ) (req : PendingJoin) (d : Door)
    → (seat_join env new_id false req d).1.session.room.players
      ≡ d.session.room.players
        ++ new_player new_id req.request.name (some req.websocket) req.request.avatar false ∷ []
unfolding seat_join seat add_player forget_join
seat_join-players env new_id req d =
    players-end_countdown env d
      (seat (new_player new_id req.request.name (some req.websocket) req.request.avatar false)
        req.websocket (close_join req d)).session

accepts :
    (env : Env) (new_id : ℕ) (req : PendingJoin) (d : Door)
    → players_full d.session.room ≡ false
    → respond_to env d.session.room.host_id new_id accept_player (some req) d
      ≡ seat_join env new_id false req d
accepts env new_id req d free = ground arith

-- A visitor comes in the middle of a game as a player, with a right password if the room has one; the
-- room has a place for a player, a host who can be asked, and no request under the id of the new one.
-- Then the visitor waits: the request itself gives nobody a seat, and when the host accepts it as the
-- next thing at the door, the visitor is the last of the players and the others are as before.
pub respond_join_request-join_room_local :
    (env later : Env) (v : Visitor) (d : Door) (host : Player) (new_id : ℕ)
    → Asks env v d host
    → ((join_room_local env v d).1.session.room.players ≡ d.session.room.players)
      × ((respond_join_request later d.session.room.host_id v.new_id new_id accept_player
            (join_room_local env v d).1).1.session.room.players
          ≡ d.session.room.players
            ++ new_player new_id v.name (some v.websocket) v.avatar false ∷ [])
unfolding respond_join_request file_join filed_request
respond_join_request-join_room_local env later v d host new_id h =
    let filed = join-files env v d host h in
    let found = find-filed env v d host h in
    let seated =
      seat_join-players later new_id (filed_request env v d) (file_join env v host d).1 in
    let accepted : respond_to later d.session.room.host_id new_id accept_player
          (find_join v.new_id (file_join env v host d).1.joins) (file_join env v host d).1
        ≡ seat_join later new_id false (filed_request env v d) (file_join env v host d).1 =
      ap
        (λ o.
          respond_to later d.session.room.host_id new_id accept_player o (file_join env v host d).1)
        found
      ∙ accepts later new_id (filed_request env v d) (file_join env v host d).1 h.has_place in
    (
      ap (λ a. a.1.session.room.players) filed,
      ap
            (λ a.
              (respond_join_request later d.session.room.host_id v.new_id new_id accept_player
                a.1).1.session.room.players)
            filed
          ∙ ap (λ a. a.1.session.room.players) accepted
          ∙ seated,
    )
