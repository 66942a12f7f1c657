-- ===== src/Daemon/Events.antt =====
-- The event loop of be_la/be_main.c: the callbacks one after the other, from the initial table.
use be_la.Prelude.{
  Outcome, >>=-eq-done, ℕ, ◌≡◌, refl, ap, subst, Bool, true, false, Bytes, Option, none, some, List,
  [], ◌∷◌, done, arith, ◌>>=◌, ◌==◌, if◌then◌else◌, length,
}
use be_la.Cards.{AccCardsTable, be_la_acc_cards_init}
use be_la.Cards.Invariant.{IsValid, init-IsValid}
use be_la.Session.{World}
use be_la.Session.Handlers.{Env}
use be_la.Session.Lifecycle.{same}
use be_la.Wire.Receive.{Arrival}
use be_la.Wire.Send.{Write, sent}
use be_la.Daemon.{Daemon}
use be_la.Daemon.Channel.{do_vm_request_read}
use be_la.Daemon.Command.{
  Around, be_la_cmd_process, bytes_cmd, cmd_size, be_cmd_request_process, ConnectionCall,
  connection_ended,
}
use be_la.Daemon.Keeps.{Valid, PathEnds, cmd_process-Valid, request_read-Valid}

-- A callback that libevent calls, with what its system calls meet.
pub data Event : Type 0 where
  command : Around → Option Bytes → Event
  readable : Env → List Arrival → List Write → ℕ → Event

-- The path of a REGISTER that was read ends in its array.
abbrev pub ReadEnds : Option Bytes → Type 0
ReadEnds none = Unit {0}
ReadEnds (some buf) = length buf ≡ cmd_size → PathEnds (bytes_cmd buf)

-- One turn of the loop: the callback returns and leaves a state, and a command also its connection
-- closed and its event deleted. A callback that is still in the
-- loop of `acc_unix_send_message` is none, and neither is one whose `writev` fails, since on a
-- channel that the guest has closed SIGPIPE ends the daemon.
pub data Turn (d : Daemon) : Event → Daemon → Type 0 where
  turn_command :
      {a : Around} {buf : Option Bytes} {d' : Daemon}
      → ReadEnds buf
      → be_cmd_request_process a d buf ≡ done (d', connection_ended)
      → Turn d (command a buf) d'
  turn_readable :
      {env : Env} {arrivals : List Arrival} {writes : List Write} {arg : ℕ} {d' : Daemon}
      {out : Bytes}
      → do_vm_request_read env arrivals writes d arg ≡ done (some (d', sent true out))
      → Turn d (readable env arrivals writes arg) d'

-- The turns of a sequence of events.
pub data Turns : Daemon → List Event → Daemon → Type 0 where
  rest : {d : Daemon} → Turns d [] d
  turn :
      {d d' d'' : Daemon} {e : Event} {es : List Event}
      → Turn d e d'
      → Turns d' es d''
      → Turns d (e ∷ es) d''

full_size : (buf : Bytes) → (length buf == cmd_size) ≡ true → length buf ≡ cmd_size
full_size buf e = ground arith

request_process-Valid :
    (a : Around) (d : Daemon) (buf : Option Bytes) (d' : Daemon)
    → ReadEnds buf
    → Valid d
    → be_cmd_request_process a d buf ≡ done (d', connection_ended)
    → Valid d'
unfolding be_cmd_request_process
request_process-Valid a d none d' ended v e =
    subst Valid (ap (λ (r : Daemon × List ConnectionCall). r.0) (same e)) v
request_process-Valid a d (some buf) d' ended v e =
    go (length buf == 0) (length buf == cmd_size) refl e
  where
    unchanged : Outcome (Daemon × List ConnectionCall)
    unchanged = done (d, connection_ended)

    go :
        (z t : Bool)
        → (length buf == cmd_size) ≡ t
        → (if z
            then unchanged
            else if t
            then (be_la_cmd_process a d (bytes_cmd buf) >>= λ r. done (r.1, connection_ended))
            else unchanged)
          ≡ done (d', connection_ended)
        → Valid d'
    go true t q k = subst Valid (ap (λ (r : Daemon × List ConnectionCall). r.0) (same k)) v
    go false false q k = subst Valid (ap (λ (r : Daemon × List ConnectionCall). r.0) (same k)) v
    go false true size k =
        let (r, h, q) =
          >>=-eq-done (be_la_cmd_process a d (bytes_cmd buf)) (λ r. done (r.1, connection_ended))
            k in
        subst Valid (ap (λ (r : Daemon × List ConnectionCall). r.0) (same q))
          (cmd_process-Valid a d (bytes_cmd buf) r (ended (full_size buf size)) v h)

Turn-Valid : {d d' : Daemon} {e : Event} → Turn d e d' → Valid d → Valid d'
Turn-Valid {d} (turn_command {a} {buf} {d'} ended h) v = request_process-Valid a d buf d' ended v h
Turn-Valid {d} (turn_readable {env} {arrivals} {writes} {arg} {d'} {out} h) v =
    request_read-Valid env arrivals writes d arg (d', sent true out) v h

Turns-Valid : {d d' : Daemon} {es : List Event} → Turns d es d' → Valid d → Valid d'
Turns-Valid rest v = v
Turns-Valid (turn s r) v = Turns-Valid r (Turn-Valid s v)

-- Whatever commands and messages come, as long as the path of every REGISTER ends in its array and
-- every callback returns with its answer sent, the card table has 64 slots, `reg_num` counts the
-- slots in use, and no two registered cards have one path.
pub Turns-IsValid :
    (t₀ : AccCardsTable) (w : World) (fds : ℕ) (es : List Event) (d : Daemon)
    → Turns (record { table = (be_la_acc_cards_init t₀).1; world = w; open_fds = fds }) es d
    → IsValid d.table
Turns-IsValid t₀ w fds es d r = Turns-Valid r (init-IsValid t₀)
