-- ===== src/Lib.antt =====
-- Verification library of the skribbl-app backend: a drawing game in rooms, where one player draws a
-- word and the others guess it.
--
-- The program. backend/room_manager.py keeps the rooms and answers the players' requests in the
-- lobby; backend/game_engine.py runs a game in a room: a drawer is offered words, selects one, the
-- turn runs with its hints and its timer, guesses come, the turn ends with its scores, and the next
-- drawer is offered words, until all rounds are played. backend/models.py holds the data.
--
-- Which file models what.
--   Models        backend/models.py: Room, Player, GameConfig, TurnState and the methods of Room.
--                 players_by_id holds the objects of players, so it is not kept apart. The attributes
--                 that the engine adds to a room or a player are fields with an Option.
--   Text          Python's str as lists of code points; lower, strip, split, and the masking of a
--                 word by re.sub. The Unicode tables are a parameter.
--   Random        choice, sample and shuffle, on numbers drawn outside.
--   Words         draw_word_choices, draw_word_pack_choices, select_word; WORD_TO_PACK of
--                 backend/words.py. The tables of words are parameters.
--   Levenshtein   _levenshtein_distance; its children define edit scripts and relate the two.
--   Hints         generate_initial_hint, reveal_hint_char.
--   Scoring       compute_guesser_score, compute_drawer_bonus.
--   GameOver      build_game_over_payload.
--   Session       a room on the event loop: the room, the pending tasks, and the messages sent.
--   Turns         start_turn, advance_turn_or_round, and the countdown of a room that has too few
--                 players (_end_game_insufficient_players of backend/room_manager.py).
--   EndTurn       end_turn.
--   Guess         handle_guess, handle_chat, filter_profanity.
--   Payloads      _serialize_player, _serialize_config of backend/room_manager.py.
--   Lobby         the requests of players in a room, backend/room_manager.py: toggle_ready and
--                 update_profile, and in its children update_settings (Settings), start_game and
--                 handle_rematch (Game), transfer_host, kick_player, leave_room and remove_player
--                 (Members, where remove_player is remove_from_room).
--   Joining       _join_room_local of backend/room_manager.py, and in its children create_room with
--                 _validate_name and _generate_room_code (Create), the requests to join with their
--                 answers, cancellation and timeout (Requests), and the requests of spectators to play
--                 (Roles); in Remote the join of _handle_rpc.
--   Kick          _execute_vote_kick_passed of backend/room_manager.py, here execute_kick.
--   Votes         start_vote_kick, cast_vote_kick, _handle_vote_kick_timeout and the timer of a vote.
--   Presence      handle_disconnect, and in its child Return handle_reconnect,
--                 _permanently_remove_player and _reassign_host_if_disconnected.
--   Transport     backend/virtual_transport.py: send_text, send_room and the bounded queue.
--   Registry      _find_room_by_player, get_room and get_player (here find_player) of
--                 backend/room_manager.py, on the manager's rooms and index.
--   Deletion      _delete_room of backend/room_manager.py, on all dictionaries of the manager.
--   Snapshots     snapshot_room and restore_room of backend/room_manager.py.
--   Fanout        broadcast of backend/room_manager.py: which sends a message for a room comes to.
--   Dispatch      _handle_local_message of backend/ws_handler.py, which calls the operations above, and
--                 in its children Forwarded _handle_forwarded_message of backend/room_manager.py, and
--                 Gateway _dispatch_message of backend/grpc_server.py.
--   Connection    websocket_handler of backend/ws_handler.py, over an interface of the room manager, which
--                 one room fills in Tests/Sockets.
--   GrpcRegistry  backend/grpc_registry.py.
--   Selection     handle_word_selection, and the scheduled coroutines auto_select, reveal_hint_40,
--                 reveal_hint_70 and turn_timer.
--
-- The child modules hold what is proved of a part. Prelude holds what the files share, and Tests the
-- examples.
--
-- Conventions. Ids, room codes, WebSocket handles and tasks are numbers, since they are only
-- compared. Times are in ticks of a microsecond. Scores are computed by exact rational arithmetic and
-- rounded half to even, where the source has floats. A division by a turn duration of 0 gives 0 here
-- and raises an exception there; the settings exclude it. Random numbers and the current time are in
-- a record Env that every handler is given. A handler runs to its end before another starts: with the
-- virtual transport no send waits. A task that cancels itself is not modelled. An exception that ends
-- a handler is an effect in the outbox.
--
-- The requests of a room are modelled from the point where the room of the player is found; the
-- manager's tables of votes and of pauses, which are indexed by rooms, are fields beside the room. Every
-- player of a room is in the index of players that the manager keeps.
--
-- The state of a room is wider where an operation needs more: a Session is the room with its tasks and
-- messages, a Ballot adds the vote, a Hall the tasks that wait for players, a Door the requests at the
-- door, and a Hub has votes and requests together, for the messages of players.
--
-- Loops. The search for the next drawer has as many attempts as there are players, which is the
-- source's own bound. The digits of a number are as many steps at most as its units and one. The search
-- for a new room code goes over the codes that are drawn, and ends among any that are different and
-- more than the rooms. All other loops are over lists.
--
-- Not modelled: Redis and what the rooms register there, the streams of the gRPC server, HTTP, the
-- encoding of messages, metrics, logging, and of backend/room_manager.py the joins of a room of
-- another worker (_join_room_remote) and handle_redis_message. The load tests, monitors
-- and log parsers of scripts and gateway are tools.
mod Prelude
pub mod Text
pub mod Levenshtein
pub mod Random
pub mod Models
pub mod Words
pub mod GameOver
pub mod Payloads
pub mod Session
pub mod Lobby
pub mod Joining
pub mod Kick
pub mod Votes
pub mod Presence
pub mod Registry
pub mod Deletion
pub mod Transport
pub mod Snapshots
pub mod Fanout
pub mod Dispatch
pub mod Connection
pub mod GrpcRegistry
pub mod Turns
pub mod EndTurn
pub mod Guess
pub mod Selection
pub mod Hints
pub mod Scoring
pub mod Tests
