-- ===== src/Lobby/Start.antt =====
-- A game starts, and starts again after a rematch.
use skribbl_app.Prelude.{
  ℕ, zero, suc, ◌+◌, ◌≤◌, ◌≡◌, refl, ap, ◌∙◌, inl, inr, true, false, Bool-cases, some, List, [],
  ◌∷◌, ◌++◌, arith, ◌==◌, All, count_if, get_elem?, length, map, take, ltb,
}
use skribbl_app.Models.{Player, state_eq, lobby, word_selection, game_over, is_active}
use skribbl_app.GameOver.{active_players}
use skribbl_app.Session.{Session, to_all, game_started}
use skribbl_app.Turns.{active_count}
use skribbl_app.Lobby.{Reply, told}
use skribbl_app.Lobby.Game.{
  first_active, unready, open_game, announce_game, start_game, reset_player, handle_rematch,
}

-- The first of the players who can draw, at an index that is counted from `i`.
pub record First (players : List Player) (i found : ℕ) : Type 0 where
  pub offset : ℕ
  pub found_at : found ≡ i + offset
  pub drawer : Player
  pub at_offset : get_elem? players offset ≡ some drawer
  pub can_draw : is_active drawer ≡ true
  pub nobody_before : All (λ p. is_active p ≡ false) (take offset players)

first_active-First :
    (start i : ℕ) (players : List Player)
    → 1 ≤ count_if is_active players
    → First players i (first_active start i players)
first_active-First start i [] h = absurd (omega arith)
first_active-First start i (p ∷ players) h = elim (Bool-cases (is_active p)) [
  | inl e ↦ rw e (record {
    offset = 0;
    found_at = omega arith;
    drawer = p;
    at_offset = refl;
    can_draw = e;
    nobody_before = tt;
  })
  | inr e ↦
      let f = first_active-First start (i + 1) players (ground arith) in
      rw e (record {
        offset = suc f.offset;
        found_at = omega (arith, f.found_at);
        drawer = f.drawer;
        at_offset = f.at_offset;
        can_draw = f.can_draw;
        nobody_before = (e, f.nobody_before);
      })
]

get_elem?-map :
    (f : Player → Player) (players : List Player) (i : ℕ) (p : Player)
    → get_elem? players i ≡ some p
    → get_elem? (map f players) i ≡ some (f p)
get_elem?-map f [] i p e = absurd (cc)
get_elem?-map f (q ∷ players) zero p e = ground arith
get_elem?-map f (q ∷ players) (suc i) p e = get_elem?-map f players i p e

-- A game that has started: the first player who can draw is to draw, in the first of the rounds, and
-- everybody is told so.
pub record Started (s : Session) (a : Reply × Session) : Type 0 where
  pub drawer : Player
  pub at_index : get_elem? a.1.room.players a.1.room.drawer_index ≡ some drawer
  pub can_draw : is_active drawer ≡ true
  pub nobody_before : All (λ p. is_active p ≡ false) (take a.1.room.drawer_index s.room.players)
  pub state : a.1.room.state ≡ word_selection
  pub first_round : a.1.room.current_round ≡ 1
  pub same_config : a.1.room.config ≡ s.room.config
  pub reply : a.0 ≡ told (game_started drawer.id 1 s.room.config.num_rounds)
  pub sent :
      a.1.outbox ≡ s.outbox ++ to_all (game_started drawer.id 1 s.room.config.num_rounds) ∷ []

announce_game-Started :
    (s : Session)
    → First s.room.players 0 (open_game s.room).drawer_index
    → Started s (
        announce_game
          (get_elem? (open_game s.room).players (open_game s.room).drawer_index)
          (record s { room = open_game s.room }))
announce_game-Started s f =
    let index : (open_game s.room).drawer_index ≡ f.offset = omega (arith, f.found_at) in
    let at : get_elem? (open_game s.room).players (open_game s.room).drawer_index
        ≡ some (unready f.drawer) =
      ap (get_elem? (map unready s.room.players)) index
      ∙ get_elem?-map unready s.room.players f.offset f.drawer f.at_offset in
    rw at (record {
      drawer = unready f.drawer;
      at_index = at;
      can_draw = f.can_draw;
      nobody_before = rw index f.nobody_before;
      state = refl;
      first_round = refl;
      same_config = refl;
      reply = refl;
      sent = refl;
    })

-- The host starts a game in the lobby with at least two players who are no spectators, at least one
-- of them connected: then the game has started.
pub start_game-Started :
    (id : ℕ) (s : Session)
    → s.room.host_id ≡ id
    → s.room.state ≡ lobby
    → 2 ≤ length (active_players s.room.players)
    → 1 ≤ active_count s.room
    → Started s (start_game id s)
unfolding start_game
start_game-Started id s host state enough able =
    let is_host : (s.room.host_id == id) ≡ true = ground arith in
    let many : ltb (length (active_players s.room.players)) 2 ≡ false = ground arith in
    let in_lobby : state_eq s.room.state lobby ≡ true = ap (λ x. state_eq x lobby) state in
    rw (is_host, in_lobby, many)
      (announce_game-Started s (first_active-First s.room.drawer_index 0 s.room.players able))

-- The same players with their totals of the session, and nothing left of a game.
abbrev pub Fresh : List Player → List Player → Type 0
Fresh [] [] = Unit
Fresh [] (q ∷ after) = ⊥
Fresh (p ∷ before) [] = ⊥
Fresh (p ∷ before) (q ∷ after) =
    (q.id ≡ p.id)
    × (q.session_score ≡ p.session_score)
    × (q.session_wins ≡ p.session_wins)
    × (q.session_games ≡ p.session_games)
    × (q.score ≡ 0)
    × (q.max_streak ≡ 0)
    × (q.has_guessed ≡ false)
    × Fresh before after

Fresh-map : (players : List Player) → Fresh players (map reset_player players)
Fresh-map [] = tt
Fresh-map (p ∷ players) = (refl, refl, refl, refl, refl, refl, refl, Fresh-map players)

length-active_players-map :
    (players : List Player)
    → length (active_players (map reset_player players)) ≡ length (active_players players)
length-active_players-map [] = refl
length-active_players-map (p ∷ players) = ground (arith, length-active_players-map players)

count_if-map :
    (players : List Player)
    → count_if is_active (map reset_player players) ≡ count_if is_active players
count_if-map [] = refl
count_if-map (p ∷ players) = ground (arith, count_if-map players)

-- When a game is over, the host asks for a rematch and then starts: in between nobody has points and
-- the totals of the session are kept, and afterwards the game has started, given at least two
-- players who are no spectators, at least one of them connected.
pub start_game-handle_rematch :
    (id : ℕ) (s : Session)
    → s.room.host_id ≡ id
    → s.room.state ≡ game_over
    → 2 ≤ length (active_players s.room.players)
    → 1 ≤ active_count s.room
    → Fresh s.room.players (handle_rematch id s).1.room.players
      × Started (handle_rematch id s).1 (start_game id (handle_rematch id s).1)
unfolding handle_rematch
start_game-handle_rematch id s host state enough able =
    let is_host : (s.room.host_id == id) ≡ true = ground arith in
    let over : state_eq s.room.state game_over ≡ true = ap (λ x. state_eq x game_over) state in
    rw (is_host, over)
      (
        Fresh-map s.room.players,
        start_game-Started id _ host refl
            (omega (arith, enough, length-active_players-map s.room.players))
            (omega (arith, able, count_if-map s.room.players)),
      )
