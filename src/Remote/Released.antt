-- ===== src/Remote/Released.antt =====
-- The session and the channel of common/ssh_remote_exec.c are released on every way.
use be_la.Prelude.{
  ℕ, ◌<◌, ◌≤◌, ◌≡◌, ◌↔◌, refl, Bool, true, false, some, List, [], ◌∷◌, ◌++◌, Status, success,
  failure, done, ◌==◌, ltb-true, if◌then◌else◌, arith,
}
use be_la.Remote.{
  SshCall, new_session, set_host, set_port, set_user, get_error, connecting, authenticating,
  opening, connect, userauth_password, new_channel, open_session, request_exec, read_out, read_err,
  send_eof, close_channel, free_channel, disconnect, free_session, Ssh, Ran, channel_size,
  requested, free_channel_calls, free_session_calls, message_error, checked_call, read_stream,
  read_streams, ssh_remote_exec,
}

-- What libssh allows: a session that is made once, its channel, and no use of either after it is
-- freed. A session is freed with the channel that it has.
pub data Held : Type 0 where
  absent session session_channel freed misused : Held

abbrev pub after_call : Held → SshCall → Held
after_call absent new_session = session
after_call session set_host = session
after_call session set_port = session
after_call session set_user = session
after_call session get_error = session
after_call session connect = session
after_call session userauth_password = session
after_call session new_channel = session_channel
after_call session disconnect = session
after_call session free_session = freed
after_call session_channel get_error = session_channel
after_call session_channel open_session = session_channel
after_call session_channel request_exec = session_channel
after_call session_channel read_out = session_channel
after_call session_channel read_err = session_channel
after_call session_channel send_eof = session_channel
after_call session_channel close_channel = session_channel
after_call session_channel free_channel = session
after_call session_channel disconnect = session_channel
after_call session_channel free_session = freed
after_call h c = misused

abbrev pub after_calls : Held → List SshCall → Held
after_calls h [] = h
after_calls h (c ∷ cs) = after_calls (after_call h c) cs

-- The counts of a stream that comes to its end and never fills the buffer.
pub data Ends : List ℕ → Type 0 where
  at_end : (r : List ℕ) → Ends (0 ∷ r)
  more : {n : ℕ} {r : List ℕ} → 0 < n → n < channel_size → Ends r → Ends (n ∷ r)

read_stream-Ends : (l : List ℕ) → Ends l → read_stream l ≡ done (some 0)
unfolding read_stream
read_stream-Ends _ (at_end r) = refl
read_stream-Ends _ (more {n} {r} p q e) =
    let nonzero : (n == 0) ≡ false = ground arith in
    rw (nonzero, ltb-true n channel_size q) (read_stream-Ends r e)

-- Every call whose result is read succeeds.
abbrev pub AllSucceed : Ssh → Type 0
AllSucceed s =
    (s.has_session ≡ true)
    × (s.connect ≡ success)
    × (s.auth ≡ success)
    × (s.channel ≡ success)
    × (s.open_session ≡ success)
    × (s.exec ≡ success)

abbrev pub Returned : Ssh → Ran → Type 0
Returned s o =
    (status : Status) × (calls : List SshCall) × (o ≡ done (some (status, calls)))
    × ((status ≡ success) ↔ AllSucceed s)
    × (after_calls absent calls ≡ (if s.has_session then freed else absent))

-- Whatever the calls of libssh return, if both streams come to their ends without filling the
-- buffer, the function returns: 0 exactly when a session was made and it could connect,
-- authenticate, make and open a channel and start the command, whatever the three calls of
-- `ssh_options_set` returned. The session that was made has been freed then, and no call was made
-- on what was freed.
pub remote_exec_returns : (s : Ssh) → Ends s.out → Ends s.err → Returned s (ssh_remote_exec s)
unfolding ssh_remote_exec checked_call message_error read_streams free_channel_calls
    free_session_calls
remote_exec_returns s o e =
    go s.has_session s.connect s.auth s.channel s.open_session s.exec refl refl refl refl refl refl
  where
    go :
        (a : Bool) (b c d f g : Status)
        → s.has_session ≡ a
        → s.connect ≡ b
        → s.auth ≡ c
        → s.channel ≡ d
        → s.open_session ≡ f
        → s.exec ≡ g
        → Returned s (ssh_remote_exec s)
    go false b c d f g p q r t u v =
        (failure, [], rw p refl, (λ k. ground arith, λ k. ground arith), rw p refl)
    go true failure c d f g p q r t u v = (
      failure,
      connecting ++ (get_error ∷ disconnect ∷ free_session ∷ []),
      rw (p, q) refl,
      (λ k. ground arith, λ k. ground arith),
      rw p refl,
    )
    go true success failure d f g p q r t u v = (
      failure,
      authenticating ++ (get_error ∷ disconnect ∷ free_session ∷ []),
      rw (p, q, r) refl,
      (λ k. ground arith, λ k. ground arith),
      rw p refl,
    )
    go true success success failure f g p q r t u v = (
      failure,
      authenticating ++ (get_error ∷ disconnect ∷ free_session ∷ []),
      rw (p, q, r, t) refl,
      (λ k. ground arith, λ k. ground arith),
      rw p refl,
    )
    go true success success success failure g p q r t u v = (
      failure,
      opening ++ (get_error ∷ disconnect ∷ free_session ∷ []),
      rw (p, q, r, t, u) refl,
      (λ k. ground arith, λ k. ground arith),
      rw p refl,
    )
    go true success success success success failure p q r t u v = (
      failure,
      requested ++ (get_error ∷ disconnect ∷ free_session ∷ []),
      rw (p, q, r, t, u, v) refl,
      (λ k. ground arith, λ k. ground arith),
      rw p refl,
    )
    go true success success success success success p q r t u v = (
      success,
      requested
          ++ (read_out ∷ read_err ∷ send_eof ∷ close_channel ∷ free_channel ∷ disconnect
              ∷ free_session ∷ []),
      rw (p, q, r, t, u, v, read_stream-Ends s.out o, read_stream-Ends s.err e) refl,
      (λ k. (p, q, r, t, u, v), λ k. refl),
      rw p refl,
    )

-- The counts of a stream one of which fills the buffer, or is the -1 of a read that failed.
pub data Overflows : List ℕ → Type 0 where
  at_once : {n : ℕ} (r : List ℕ) → channel_size ≤ n → Overflows (n ∷ r)
  later : {n : ℕ} {r : List ℕ} → 0 < n → n < channel_size → Overflows r → Overflows (n ∷ r)
