-- ===== src/Daemon/Server.antt =====
-- be_la/be_main.c: the socket of the commands, and the connections to it.
use be_la.Prelude.{
  ℕ, ◌+◌, Bool, true, false, Option, none, some, Status, success, failure, Outcome, done, crash,
  null_access, ltb, if◌then◌else◌,
}

-- What the system calls of `be_cmd_srv_init` return. `listen` is reached after `bind`.
pub record Listening : Type 0 where
  pub access : Status
  pub socket : Option ℕ
  pub bind : Status
  pub listen : Status

-- The listening descriptor, `none` for -1, with how many sockets are open and whether an old socket
-- file was removed. The socket stays open when `bind` or `listen` fails.
unfoldable pub be_cmd_srv_init : Listening → ℕ → Option ℕ × ℕ × Bool
be_cmd_srv_init l fds =
    let removed : Bool = elim l.access [ success ↦ true | failure ↦ false ] in
    elim l.socket [
      | none ↦ (none, fds, removed)
      | some fd ↦ elim l.bind [
        | failure ↦ (none, fds + 1, removed)
        | success ↦ elim l.listen [
          | failure ↦ (none, fds + 1, removed)
          | success ↦ (some fd, fds + 1, removed)
        ]
      ]
    ]

-- The connections of commands: the open sockets, the events that wait for a command, and the event
-- structures that are allocated.
pub record Connections : Type 0 where
  pub open_fds : ℕ
  pub waiting_events : ℕ
  pub live_events : ℕ

-- What the calls of one `be_cmd_server_process` return: `accept`, `evutil_make_socket_nonblocking`
-- and whether `event_new` has memory.
pub record Accepting : Type 0 where
  pub accept : Option ℕ
  pub nonblocking : Status
  pub event_new : Bool

abbrev pub fd_setsize : ℕ
fd_setsize = 1024

-- The function with a socket that is nonblocking. Without an event the socket is closed, and then
-- the event is written to.
unfoldable pub watch_command : Accepting → Connections → Outcome Connections
watch_command a s =
    if a.event_new
    then done (record {
      open_fds = s.open_fds + 1;
      waiting_events = s.waiting_events + 1;
      live_events = s.live_events + 1;
    })
    else crash null_access

unfoldable pub accepted_command : Accepting → Connections → ℕ → Outcome Connections
unfolding watch_command
accepted_command a s fd =
    if ltb fd_setsize fd
    then done s
    else elim a.nonblocking [ failure ↦ done s | success ↦ watch_command a s ]

unfoldable pub be_cmd_server_process : Accepting → Connections → Outcome Connections
unfolding accepted_command
be_cmd_server_process a s = elim a.accept [ none ↦ done s | some fd ↦ accepted_command a s fd ]

-- What the calls of `main` return in front of the loop.
pub record Starting : Type 0 where
  pub listening : Listening
  pub event_base_new : Bool
  pub event_new : Bool

-- `main` up to `event_base_dispatch`: the exit status, or the listening descriptor of the loop.
pub data Begun : Type 0 where
  exited : ℕ → Begun
  dispatching : ℕ → Begun

unfoldable pub main_behind : Starting → Option ℕ → Begun
main_behind s none = exited 1
main_behind s (some cmd_srv) =
    if s.event_base_new then if s.event_new then dispatching cmd_srv else exited 1 else exited 1

-- `be_la_acc_cards_init` returns 0.
unfoldable pub daemon_main : Starting → Begun
unfolding be_cmd_srv_init main_behind
daemon_main s = main_behind s (be_cmd_srv_init s.listening 0).0
