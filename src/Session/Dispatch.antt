-- ===== src/Session/Dispatch.antt =====
-- message/be_acc_msg.c: the table of handlers that a message's type indexes, and the entry that the
-- three drivers of plugins/ have to it.
use be_la.Prelude.{
  ℕ, zero, suc, ◌++◌, ◌+◌, ◌≡◌, ◌≢◌, refl, sym, ◌∙◌, ap, true, Bytes, Option, none, some, List,
  Status, success, Outcome, done, crash, assertion, null_call, out_of_bounds, ltb, ◌==◌,
  if◌then◌else◌, get_elem?, set, replicate, length, drop, arith, length-append, ltb-false, leb-true,
  Option-cases, ◌⊎◌, inl, inr,
}
use be_la.Cards.{BeCardInner}
use be_la.Plugin.{AccPlugin}
use be_la.Plugin.Drivers.{Driver}
use be_la.Session.{World}
use be_la.Session.Handlers.{
  Env, Reply, hello_message_handle, add_flows_message_handle, disconnect_message_handle,
  be_acc_message_process,
}
use be_la.Session.Made.{none-some}
use be_la.Wire.{
  AccMsgHeader, header_size, acc_unix_hello, acc_unix_add_flows, acc_unix_disconnect,
  acc_unix_max_type, bytes_header, header_bytes, FitsWord, bytes_header-header_bytes,
  length-header_bytes,
}

-- The functions that the pointers of `s_msg_handle` designate.
pub data Handler : Type 0 where
  hello add_flows disconnect : Handler

abbrev pub HandlerTable : Type 0
HandlerTable = List (Option Handler)

unfoldable pub run_handler : Handler → Env → World → BeCardInner → Bytes → Outcome Reply
run_handler hello env w c message = hello_message_handle env w c message
run_handler add_flows env w c message = add_flows_message_handle env w c message
run_handler disconnect env w c message = disconnect_message_handle env w c

-- `acc_unix_server_msg_init`: the table as it leaves it, whatever stood there.
unfoldable pub acc_unix_server_msg_init : HandlerTable → Status × HandlerTable
acc_unix_server_msg_init t = (
  success,
  set
      (set (set (replicate acc_unix_max_type none) acc_unix_hello (some hello)) acc_unix_add_flows
        (some add_flows))
      acc_unix_disconnect (some disconnect),
)

-- `acc_unix_mssage_register`, which returns 0 or 1.
unfoldable pub acc_unix_mssage_register : ℕ → Handler → HandlerTable → Outcome (ℕ × HandlerTable)
acc_unix_mssage_register type handle t = elim (get_elem? t type) [
  | none ↦ crash out_of_bounds
  | some none ↦ done (0, set t type (some handle))
  | some (some old) ↦ done (1, t)
]

unfoldable pub call_handler :
    Option (Option Handler) → Env → World → BeCardInner → Bytes → Outcome Reply
unfolding run_handler
call_handler none env w c message = crash out_of_bounds
call_handler (some none) env w c message = crash null_call
call_handler (some (some h)) env w c message = run_handler h env w c message

-- `s_msg_handle[type](card, message, …)`
unfoldable pub dispatch : HandlerTable → Env → World → BeCardInner → ℕ → Bytes → Outcome Reply
unfolding call_handler
dispatch t env w c type message = call_handler (get_elem? t type) env w c message

-- With the table that `acc_unix_server_msg_init` leaves, the call through the table is
-- `be_acc_message_process` as the events of the daemon run it, for every type, registered or not,
-- inside the array or not, and for every message.
pub dispatch-message_process :
    (t : HandlerTable) (env : Env) (w : World) (c : BeCardInner) (type : ℕ) (message : Bytes)
    → dispatch (acc_unix_server_msg_init t).1 env w c type message
      ≡ be_acc_message_process env w c type message
unfolding dispatch call_handler run_handler acc_unix_server_msg_init be_acc_message_process
dispatch-message_process t env w c zero message = refl
dispatch-message_process t env w c (suc zero) message = refl
dispatch-message_process t env w c (suc (suc zero)) message = refl
dispatch-message_process t env w c (suc (suc (suc zero))) message = refl
dispatch-message_process t env w c (suc (suc (suc (suc zero)))) message = refl
dispatch-message_process t env w c (suc (suc (suc (suc (suc zero))))) message = refl
dispatch-message_process t env w c (suc (suc (suc (suc (suc (suc zero)))))) message = refl
dispatch-message_process t env w c (suc (suc (suc (suc (suc (suc (suc zero))))))) message = refl
dispatch-message_process t env w c (suc (suc (suc (suc (suc (suc (suc (suc zero)))))))) message =
    refl
dispatch-message_process t env w c (suc (suc (suc (suc (suc (suc (suc (suc (suc zero)))))))))
      message =
    refl
dispatch-message_process t env w c (suc (suc (suc (suc (suc (suc (suc (suc (suc (suc n))))))))))
      message =
    rw
      (leb-true acc_unix_max_type (suc (suc (suc (suc (suc (suc (suc (suc (suc (suc n))))))))))
        (omega arith))
      refl

-- `acc_netronome_proccess`, `acc_intel_qat_proccess` and `acc_liquidio_proccess`, which are one
-- text. `inbuf` is the memory of `in_len` bytes.
unfoldable pub driver_proccess : Driver → Env → World → BeCardInner → Bytes → ℕ → Outcome Reply
unfolding bytes_header be_acc_message_process
driver_proccess d env w c inbuf in_len =
    let header = bytes_header inbuf in
    if ltb (length inbuf) header_size
    then crash out_of_bounds
    else if header.total_len == in_len
    then be_acc_message_process env w c header.msg_type (drop header_size inbuf)
    else crash assertion

-- `be_plugin_process`, whose pointers are not NULL.
unfoldable pub be_plugin_process :
    Env → World → BeCardInner → AccPlugin Driver → Bytes → ℕ → Outcome Reply
unfolding driver_proccess
be_plugin_process env w c plugin inbuf in_len = elim plugin.funcs [
  | none ↦ crash null_call
  | some d ↦ driver_proccess d env w c inbuf in_len
]

proccess_message :
    (d : Driver) (env : Env) (w : World) (c : BeCardInner) (hdr : AccMsgHeader) (body : Bytes)
    → FitsWord hdr
    → hdr.total_len ≡ header_size + length body
    → driver_proccess d env w c (header_bytes hdr ++ body) (length (header_bytes hdr ++ body))
      ≡ be_acc_message_process env w c hdr.msg_type body
unfolding driver_proccess bytes_header header_bytes
proccess_message d env w c hdr body fits size =
    let back : bytes_header (header_bytes hdr ++ body) ≡ hdr = bytes_header-header_bytes hdr fits in
    let same_len : (hdr.total_len == length (header_bytes hdr ++ body)) ≡ true = ground arith in
    rw
      (
        ltb-false (length (header_bytes hdr ++ body)) header_size (omega arith),
        ap (λ (h : AccMsgHeader). h.msg_type) back,
        ap (λ (h : AccMsgHeader). h.total_len) back,
        same_len,
      )
      refl

-- A message with its header in front, whose length the header gives, comes through a plugin with
-- functions to the handlers as the type and the body that they are called with on a channel; a
-- plugin without functions is a call through a null pointer.
pub plugin_process-message_process :
    (p : AccPlugin Driver) (env : Env) (w : World) (c : BeCardInner) (hdr : AccMsgHeader)
    (body : Bytes)
    → FitsWord hdr
    → hdr.total_len ≡ header_size + length body
    → ((p.funcs ≢ none)
        × (be_plugin_process env w c p (header_bytes hdr ++ body) (header_size + length body)
            ≡ be_acc_message_process env w c hdr.msg_type body))
      ⊎ ((p.funcs ≡ none)
          × (be_plugin_process env w c p (header_bytes hdr ++ body) (header_size + length body)
              ≡ crash null_call))
unfolding be_plugin_process
plugin_process-message_process p env w c hdr body fits size = elim (Option-cases p.funcs) [
  | inl q ↦ inr (q, rw (q, be_plugin_process) refl)
  | inr (d, q) ↦ inl (
    λ e. absurd (none-some (sym e ∙ q)),
    rw (q, be_plugin_process)
        (ap (driver_proccess d env w c (header_bytes hdr ++ body))
            (omega (arith, length-append (header_bytes hdr) body, length-header_bytes hdr))
          ∙ proccess_message d env w c hdr body fits size),
  )
]
