-- ===== src/Session.antt =====
-- message/be_acc_msg.c: the handlers of the messages of one card.
pub mod Names
pub mod Handlers
pub mod Lifecycle
pub mod Balance
pub mod Close
pub mod Hello
pub mod Ready
pub mod Made
pub mod Returns
pub mod Dispatch
mod Tests
use be_la.Prelude.{ℕ, ◌+◌, ◌*◌, ◌/◌, Bytes, List, [], ◌∷◌, take, drop, zero, suc}
use be_la.Cards.{BeCardInner}
use be_la.Plugin.{AccPlugin}
use be_la.Plugin.Drivers.{Driver, Heap}
use be_la.RuleBe.{AccRuleBe}
use be_la.Ovs.Edit.{OvsState}
use be_la.Flow.{AccFlow, AccMatch, AccAction}
use be_la.Wire.{bytes_word}

-- The one rule backend of the program: the functions of acc_ovs_rule.c.
pub data RuleFuncs : Type 0 where
  ovs : RuleFuncs

-- What the handlers read and change beside the card. `context_host_id` is the static counter of
-- `hello_message_handle`, a 32-bit pattern.
pub record World : Type 0 where
  pub plugins : List (AccPlugin Driver)
  pub rule_bes : List (AccRuleBe RuleFuncs)
  pub heap : Heap
  pub switch : OvsState
  pub context_host_id : ℕ

-- `struct acc_flow` in the bytes of a message: 92 bytes, with the compiler's padding.
abbrev pub flow_size : ℕ
flow_size = 92

abbrev pub bytes_at : ℕ → ℕ → Bytes → Bytes
bytes_at offset n b = take n (drop offset b)

unfoldable pub bytes_match : Bytes → AccMatch
bytes_match b = record {
  srcmac = bytes_at 0 6 b;
  dstmac = bytes_at 6 6 b;
  src_ip = bytes_at 12 4 b;
  dst_ip = bytes_at 16 4 b;
  src_port = bytes_at 20 2 b;
  dst_port = bytes_at 22 2 b;
  protocol = bytes_at 24 1 b;
}

unfoldable pub bytes_action : Bytes → AccAction
bytes_action b = record {
  field_mask = bytes_word (bytes_at 4 4 b);
  srcmac = bytes_at 8 6 b;
  dstmac = bytes_at 14 6 b;
  src_ip = bytes_at 20 4 b;
  dst_ip = bytes_at 24 4 b;
  src_port = bytes_at 28 2 b;
  dst_port = bytes_at 30 2 b;
  protocol = bytes_at 32 1 b;
  dl_type = bytes_at 34 2 b;
}

unfoldable pub bytes_flow : Bytes → AccFlow
unfolding bytes_match bytes_action
bytes_flow b = record {
  match = bytes_match b;
  mask = bytes_match (drop 28 b);
  action = bytes_action (drop 56 b);
}

-- The array of `n` flows that a message is read as.
unfoldable pub bytes_flows : ℕ → Bytes → List AccFlow
unfolding bytes_flow
bytes_flows zero b = []
bytes_flows (suc n) b = bytes_flow b ∷ bytes_flows n (drop flow_size b)
