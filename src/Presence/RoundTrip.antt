-- ===== src/Presence/RoundTrip.antt =====
-- A player loses the connection in the lobby and comes back.
use mathlib.Core.Path.{subst}
use skribbl_app.Lobby.Host.{member-find}
use skribbl_app.Prelude.{
  ℕ, ◌+◌, ◌*◌, ◌≡◌, ◌≢◌, refl, sym, ap, ◌∙◌, inl, inr, true, false, Bool-cases, not, ◌&&◌, ◌||◌,
  Option, none, some, List, [], ◌∷◌, ◌++◌, arith, ◌==◌, find, leb, if◌then◌else◌,
}
use skribbl_app.Text.{Text, text_eq}
use skribbl_app.Models.Lookup.{modify-modify, find-modify, find_other-modify, OnlyName, find_gone}
use skribbl_app.Lobby.{tell_players}
use skribbl_app.Kick.{in_game}
use skribbl_app.Votes.{Ballot}
use skribbl_app.Models.{Player, lobby, playing, word_selection, state_eq, modify_player, get_player}
use skribbl_app.Session.{Env, second, Session, is_pending}
use skribbl_app.Turns.{connected_count}
use skribbl_app.Presence.{
  Hall, Wait, clean_up, room_of, drop_wait, cancel_wait, in_session, in_players, lose, schedule,
  game_without, drop_voter, await_host, between_games, await_player, disconnect_of,
  handle_disconnect,
}
use skribbl_app.Presence.Return.{
  Welcome, ReconnectReply, reconnected, returning, by_name, is_waiting, forget, restore,
  stop_countdown, reconnect_as, handle_reconnect,
}

abbrev pub gone : ℕ → ℕ → Player → Player
gone now wait p = record (lose now p) { cleanup_task = some wait }

-- The room after a loss in the lobby: the player is away, and the clean-up waits.
abbrev pub away : Env → ℕ → Hall → Hall
away env id h = in_session tell_players (
    in_players (modify_player id (λ p. record p { cleanup_task = some h.next_wait })) (
      schedule (env.now + 120 * second) clean_up id
        (in_players (modify_player id (lose env.now)) h)))

game_without_lobby :
    (env : Env) (id : ℕ) (s : Session) → s.room.state ≡ lobby → game_without env id s ≡ s
game_without_lobby env id s e =
    let quiet : in_game s.room ≡ false =
      ap (λ x. state_eq x playing || state_eq x word_selection) e in
    rw quiet refl

handle_disconnect_lobby :
    (env : Env) (id : ℕ) (h : Hall) (p : Player)
    → find (λ q. q.id == id) (room_of h).players ≡ some p
    → (room_of h).state ≡ lobby
    → (room_of h).host_id ≢ id
    → h.ballot.vote_kick ≡ none
    → handle_disconnect env id h ≡ some (away env id h)
unfolding handle_disconnect get_player
handle_disconnect_lobby env id h p found state other idle =
    let guest : ((room_of h).host_id == id) ≡ false = ground arith in
    let lost : Hall = in_players (modify_player id (lose env.now)) h in
    ap (λ o. disconnect_of env id o h) found
    ∙ ap (λ o. hosted_of (drop_voter env id o lost.ballot)) idle
    ∙ rw guest (
        ap
          (λ s. some (record h {
            ballot = record h.ballot { session = s };
            waits = (away env id h).waits;
            next_wait = (away env id h).next_wait;
          }))
          (game_without_lobby env id (away env id h).ballot.session state))
  where
    hosted_of : Ballot → Option Hall
    hosted_of b =
        let voted = record (in_players (modify_player id (lose env.now)) h) { ballot = b } in
        let hosted = await_host env id (get_player id (room_of voted)) voted in
        if not ((room_of voted).host_id == id)
        then some (await_player env id voted)
        else if leb 1 (connected_count (room_of voted))
        then some (await_player env id hosted)
        else if between_games (room_of voted)
        then none
        else some (await_player env id voted)

players-stop_countdown : (s : Session) → (stop_countdown s).room.players ≡ s.room.players
players-stop_countdown s =
    elim (Bool-cases
      (leb 2 (connected_count s.room) && is_pending s.room.insufficient_players_task s.tasks)) [
        | inl e ↦ rw e refl
        | inr e ↦ rw e refl
      ]

waiting-snoc : (w : Wait) (waits : List Wait) → is_waiting (some w.id) (waits ++ w ∷ []) ≡ true
waiting-snoc w [] = ground arith
waiting-snoc w (v ∷ waits) = ground (arith, waiting-snoc w waits)

dropped : (id : ℕ) (waits : List Wait) → is_waiting (some id) (drop_wait id waits) ≡ false
dropped id [] = refl
dropped id (w ∷ waits) = ground (arith, dropped id waits)

dropped_more :
    (id j : ℕ) (waits : List Wait)
    → is_waiting (some id) waits ≡ false
    → is_waiting (some id) (drop_wait j waits) ≡ false
dropped_more id j [] h = refl
dropped_more id j (w ∷ waits) h = ground (arith, dropped_more id j waits)

waiting-cancel_wait :
    (id : ℕ) (task : Option ℕ) (h : Hall)
    → is_waiting (some id) h.waits ≡ false
    → is_waiting (some id) (cancel_wait task h).waits ≡ false
waiting-cancel_wait id none h e = e
waiting-cancel_wait id (some j) h e = dropped_more id j h.waits e

ballot-cancel_wait : (task : Option ℕ) (h : Hall) → (cancel_wait task h).ballot ≡ h.ballot
ballot-cancel_wait none h = refl
ballot-cancel_wait (some j) h = refl

-- A player who is back: with the score, connected, with no clean-up to come; the others are as
-- before.
pub record Back (id websocket : ℕ) (p : Player) (h : Hall) (a : ReconnectReply × Hall)
    : Type 0 where
  pub reply : (w : Welcome) × (a.0 ≡ reconnected w) × (w.player_id ≡ id) × (w.score ≡ p.score)
  pub self :
      (q : Player) × (find (λ q. q.id == id) (room_of a.1).players ≡ some q)
      × (q.score ≡ p.score)
      × (q.is_connected ≡ true)
      × (q.websocket ≡ some websocket)
      × (q.cleanup_task ≡ none)
  pub others :
      (j : ℕ)
      → j ≢ id
      → find (λ q. q.id == j) (room_of a.1).players ≡ find (λ q. q.id == j) (room_of h).players
  pub no_clean_up : is_waiting (some h.next_wait) a.1.waits ≡ false

module _ (websocket : ℕ) (avatar : Option Text) where
  players-reconnect_as :
      (q : Player) (h : Hall)
      → (room_of (reconnect_as websocket avatar (some q) h).1).players
        ≡ modify_player q.id (restore h.waits websocket avatar) (room_of h).players
  players-reconnect_as q h =
      let back : Hall = in_players (modify_player q.id (restore h.waits websocket avatar)) h in
      let kept =
        ballot-cancel_wait q.host_reassign_task (cancel_wait q.cleanup_task back)
        ∙ ballot-cancel_wait q.cleanup_task back in
      players-stop_countdown
        (cancel_wait q.host_reassign_task (cancel_wait q.cleanup_task back)).ballot.session
      ∙ ap (λ b. b.session.room.players) kept

  module _ (env : Env) (id : ℕ) (h : Hall) where
    players-back :
        (p : Player)
        → p.id ≡ id
        → (room_of
            (reconnect_as websocket avatar
              (some (gone env.now h.next_wait p))
              (away env id h)).1).players
          ≡ modify_player id
              (λ x. restore (away env id h).waits websocket avatar (gone env.now h.next_wait x))
              (room_of h).players
    players-back p same =
        players-reconnect_as (gone env.now h.next_wait p) (away env id h)
        ∙ (ap
              (λ i.
                modify_player i (restore (away env id h).waits websocket avatar)
                  (room_of (away env id h)).players)
              same
            ∙ (modify-modify id _ _ _ (λ x. refl) ∙ modify-modify id _ _ _ (λ x. refl)))

    reconnect_as-Back :
        (p : Player)
        → find (λ q. q.id == id) (room_of h).players ≡ some p
        → Back id websocket p h
            (reconnect_as websocket avatar (some (gone env.now h.next_wait p)) (away env id h))
    reconnect_as-Back p found =
        let (member, same) = member-find id (room_of h).players p found in
        let n = h.next_wait in
        let waits = (away env id h).waits in
        let pending : is_waiting (some n) waits ≡ true = waiting-snoc _ h.waits in
        record {
          reply = (_, refl, same, refl);
          self = (
            restore waits websocket avatar (gone env.now n p),
            ap (λ l. find (λ q. q.id == id) l) (players-back p same)
                ∙ find-modify id (λ x. restore waits websocket avatar (gone env.now n x))
                    (room_of h).players p found (λ x. refl),
            refl,
            refl,
            refl,
            ap (λ b. forget b (some n)) pending,
          );
          others = λ j other.
              ap (λ l. find (λ q. q.id == j) l) (players-back p same)
              ∙ find_other-modify id j (λ x. restore waits websocket avatar (gone env.now n x))
                  (room_of h).players other (λ x. refl);
          no_clean_up =
              waiting-cancel_wait n p.host_reassign_task
                (cancel_wait (some n) (
                  in_players (modify_player p.id (restore waits websocket avatar)) (away env id h)))
                (dropped n waits);
        }

-- A guest of a lobby without a vote, who alone has the name, loses the connection and comes back under
-- the name: the same player is connected again with the score that was reached, the other players are
-- as before, and the clean-up that the loss had scheduled is cancelled.
pub handle_reconnect-handle_disconnect :
    (env : Env) (id websocket : ℕ) (avatar : Option Text) (p : Player) (h : Hall)
    → find (λ q. q.id == id) (room_of h).players ≡ some p
    → OnlyName id p.name (room_of h).players
    → (room_of h).state ≡ lobby
    → (room_of h).host_id ≢ id
    → h.ballot.vote_kick ≡ none
    → (after : Hall) × (handle_disconnect env id h ≡ some after)
      × Back id websocket p h (handle_reconnect p.name websocket avatar after)
unfolding handle_reconnect
handle_reconnect-handle_disconnect env id websocket avatar p h found only state other idle =
    let players = (room_of h).players in
    let first : find (λ q. text_eq q.name p.name && not q.is_connected)
          (room_of (away env id h)).players
        ≡ some (gone env.now h.next_wait p) =
      ap (λ l. find (λ q. text_eq q.name p.name && not q.is_connected) l)
        (modify-modify id _ _ players (λ x. refl))
      ∙ find_gone id p.name (gone env.now h.next_wait) players p found only (λ q. (refl, refl)) in
    let who : returning p.name (room_of (away env id h)).players
        ≡ some (gone env.now h.next_wait p) =
      ap (λ o. by_name o (find (λ q. text_eq q.name p.name) (room_of (away env id h)).players))
        first in
    (
      away env id h,
      handle_disconnect_lobby env id h p found state other idle,
      subst (λ o. Back id websocket p h (reconnect_as websocket avatar o (away env id h))) (sym who)
          (reconnect_as-Back websocket avatar env id h p found),
    )
