-- ===== src/Remote.antt =====
-- common/ssh_remote_exec.c and tool/ssh_exec.c: a command on a remote shell over libssh, whose calls
-- return what the arguments say.
pub mod Released
mod Tests
use be_la.Prelude.{
  ℕ, suc, Bool, true, false, Option, none, some, List, [], ◌∷◌, ◌++◌, Status, success, failure,
  Outcome, done, crash, out_of_bounds, ◌>>=◌, ◌==◌, ltb, if◌then◌else◌,
}

-- The calls of libssh on a session and its channel. `set_host`, `set_port` and `set_user` are those of
-- `ssh_options_set`; `read_out` and `read_err` stand for the reads of one stream to its end. A call
-- that makes a session or a channel is listed when it makes one.
pub data SshCall : Type 0 where
  new_session set_host set_port set_user get_error : SshCall
  connect userauth_password new_channel open_session request_exec : SshCall
  read_out read_err send_eof close_channel free_channel disconnect free_session : SshCall

-- What the calls return; the results of `ssh_options_set` are not read. `out` and `err` are the counts that `ssh_channel_read` returns, as the
-- unsigned numbers that they are stored as.
pub record Ssh : Type 0 where
  pub has_session : Bool
  pub host : Status
  pub port : Status
  pub user : Status
  pub connect : Status
  pub auth : Status
  pub channel : Status
  pub open_session : Status
  pub exec : Status
  pub out : List ℕ
  pub err : List ℕ

-- What a run returns with the calls that it made; `none` while it waits for the shell.
abbrev pub Ran : Type 0
Ran = Outcome (Option (Status × List SshCall))

abbrev pub channel_size : ℕ
channel_size = 1024

unfoldable pub free_channel_calls : List SshCall
free_channel_calls = send_eof ∷ close_channel ∷ free_channel ∷ []

unfoldable pub free_session_calls : List SshCall
free_session_calls = disconnect ∷ free_session ∷ []

-- `message_error`, which asks the session for its error before it is freed, and `return -1`.
unfoldable pub message_error : List SshCall → Ran
unfolding free_session_calls
message_error calls = done (some (failure, calls ++ (get_error ∷ free_session_calls)))

-- A call that ends the run when it fails, the calls up to it, and the rest of the run.
unfoldable pub checked_call : Status → List SshCall → Ran → Ran
unfolding message_error
checked_call failure calls rest = message_error calls
checked_call success calls rest = rest

-- The loop over one stream. The byte behind the ones that were read is set to NUL.
unfoldable pub read_stream : List ℕ → Outcome (Option ℕ)
read_stream [] = done none
read_stream (nbytes ∷ r) =
    let rest = read_stream r in
    if nbytes == 0
    then done (some 0)
    else if ltb nbytes channel_size
    then rest
    else crash out_of_bounds

-- The calls up to the one that connects, authenticates, opens the channel and starts the command.
abbrev pub connecting : List SshCall
connecting = new_session ∷ set_host ∷ set_port ∷ set_user ∷ connect ∷ []

abbrev pub authenticating : List SshCall
authenticating = connecting ++ (userauth_password ∷ [])

abbrev pub opening : List SshCall
opening = authenticating ++ (new_channel ∷ open_session ∷ [])

abbrev pub requested : List SshCall
requested = opening ++ (request_exec ∷ [])

-- Both streams are read, and all is freed. The exit status of the command is not read.
unfoldable pub read_streams : Ssh → Ran
unfolding read_stream free_channel_calls free_session_calls
read_streams s = read_stream s.out >>= λ o. elim o [
  | none ↦ done none
  | some _ ↦ read_stream s.err >>= λ e. elim e [
    | none ↦ done none
    | some _ ↦ done (
        some (
          success,
          requested ++ (read_out ∷ read_err ∷ (free_channel_calls ++ free_session_calls)),
        ))
  ]
]

-- `ssh_remote_exec`
unfoldable pub ssh_remote_exec : Ssh → Ran
unfolding checked_call read_streams
ssh_remote_exec s =
    if s.has_session
    then checked_call s.connect connecting (
        checked_call s.auth authenticating (
          checked_call s.channel authenticating
            (checked_call s.open_session opening (checked_call s.exec requested (read_streams s)))))
    else done (some (failure, []))

-- The loop of the tool, which writes the bytes that were read: a count that is more than the
-- buffer holds reads behind it.
unfoldable pub write_stream : List ℕ → Outcome (Option ℕ)
write_stream [] = done none
write_stream (nbytes ∷ r) =
    let rest = write_stream r in
    if nbytes == 0
    then done (some 0)
    else if ltb channel_size nbytes
    then crash out_of_bounds
    else rest

-- `error` of the tool exits with the status of `exit(-1)`.
unfoldable pub ssh_exec_main : Ssh → Ran
unfolding checked_call write_stream free_channel_calls free_session_calls
ssh_exec_main s =
    if s.has_session
    then checked_call s.connect connecting (
        checked_call s.auth authenticating (elim s.channel [
          | failure ↦ done (some (failure, authenticating))
          | success ↦ checked_call s.open_session opening (
              checked_call s.exec requested (
                write_stream s.out >>= λ o. elim o [
                  | none ↦ done none
                  | some _ ↦ done (
                      some (
                        success,
                        requested ++ (read_out ∷ (free_channel_calls ++ free_session_calls)),
                      ))
                ]))
        ]))
    else done (some (failure, []))
