-- ===== src/Remote/Tests.antt =====
-- common/ssh_remote_exec.c and tool/ssh_exec.c at concrete inputs.
use be_la.Prelude.{
  ℕ, ◌≡◌, refl, true, some, List, [], ◌∷◌, ◌++◌, success, failure, done, crash, out_of_bounds,
  arith, ◌^◌, ◌-◌,
}
use be_la.Remote.{
  Ssh, authenticating, get_error, requested, read_out, send_eof, close_channel, free_channel,
  disconnect, free_session, ssh_remote_exec, ssh_exec_main, checked_call, message_error,
  write_stream, free_channel_calls, free_session_calls,
}
use be_la.Remote.Released.{at_end, more, Returned, remote_exec_returns}

abbrev shell : List ℕ → Ssh
shell out = record {
  has_session = true;
  host = success;
  port = failure;
  user = success;
  connect = success;
  auth = success;
  channel = success;
  open_session = success;
  exec = success;
  out = out;
  err = 0 ∷ [];
}

remote_exec_returns_example :
    Returned (shell (5 ∷ 1023 ∷ 0 ∷ [])) (ssh_remote_exec (shell (5 ∷ 1023 ∷ 0 ∷ [])))
remote_exec_returns_example =
    remote_exec_returns (shell (5 ∷ 1023 ∷ 0 ∷ []))
      (more (omega arith) (omega arith) (more (omega arith) (omega arith) (at_end []))) (at_end [])

exec_full :
    ssh_exec_main (shell (1024 ∷ 0 ∷ []))
    ≡ done (
        some (
          success,
          requested
              ++ (read_out ∷ send_eof ∷ close_channel ∷ free_channel ∷ disconnect ∷ free_session
                  ∷ []),
        ))
unfolding ssh_exec_main checked_call write_stream free_channel_calls free_session_calls
exec_full = refl

-- A read that fails: its -1 is 2^32 - 1.
exec_failed : ssh_exec_main (shell ((2 ^ 32 - 1) ∷ 0 ∷ [])) ≡ crash out_of_bounds
unfolding ssh_exec_main checked_call write_stream
exec_failed = refl

exec_refused :
    ssh_exec_main (record (shell []) { auth = failure })
    ≡ done (some (failure, authenticating ++ (get_error ∷ disconnect ∷ free_session ∷ [])))
unfolding ssh_exec_main checked_call message_error free_session_calls
exec_refused = refl
