-- ===== src/Tool/Reading.antt =====
-- What the options of tool/accsh.c ask for, as a record, and how the daemon reads a command.
use be_la.Prelude.{
  ℕ, ◌<◌, ◌≡◌, ◌⊎◌, Bytes, List, [], ◌∷◌, ◌==◌, if◌then◌else◌, codes, c_str, str_eq, head_byte,
  length, bit_or,
}
use be_la.Vendor.{
  CmdHdr, vendor_netronome, agilio_isa_4000, acc_type_flow, acc_type_compress, cmd_type_register,
  cmd_type_unregister,
}
use be_la.Daemon.Command.{cmd_size, bytes_cmd}
use be_la.Tool.{ToolOption, vendor, model, channel, uuid, type, register, unregister, other}

-- The types that the tool can name: none, flow, compress, and both.
abbrev pub IsNamed : ℕ → Type 0
IsNamed t = (t ≡ 0) ⊎ ((t ≡ acc_type_flow) ⊎ ((t ≡ acc_type_compress) ⊎ (t ≡ 9)))

-- The daemon reads the memory as this command, strings up to their NUL.
pub record Decodes (m : Bytes) (h : CmdHdr) : Type 0 where
  pub size : length m ≡ cmd_size
  pub vendor_word : (bytes_cmd m).card.vendor ≡ h.card.vendor
  pub model_word : (bytes_cmd m).card.model ≡ h.card.model
  pub type_word : (bytes_cmd m).card.acc_type ≡ h.card.acc_type
  pub uuid_string : c_str (bytes_cmd m).card.vm_uuid ≡ h.card.vm_uuid
  pub path_string : c_str (bytes_cmd m).card.vmpath ≡ h.card.vmpath
  pub cmd_word : (bytes_cmd m).cmd_type ≡ h.cmd_type
  pub named : IsNamed h.card.acc_type

-- What an option asks for.
unfoldable pub apply_option : ToolOption → CmdHdr → CmdHdr
apply_option (vendor optarg) h =
    if str_eq optarg (codes "netronome")
    then record h { card = record h.card { vendor = vendor_netronome } }
    else h
apply_option (model optarg) h =
    if str_eq optarg (codes "agilio_isa_4000")
    then record h { card = record h.card { model = agilio_isa_4000 } }
    else h
apply_option (channel optarg) h =
    if head_byte optarg == 0 then h else record h { card = record h.card { vmpath = c_str optarg } }
apply_option (uuid optarg) h =
    if head_byte optarg == 0
    then h
    else record h { card = record h.card { vm_uuid = c_str optarg } }
apply_option (type optarg) h =
    if str_eq optarg (codes "flow")
    then record h { card = record h.card { acc_type = bit_or h.card.acc_type acc_type_flow } }
    else if str_eq optarg (codes "compress")
    then record h { card = record h.card { acc_type = bit_or h.card.acc_type acc_type_compress } }
    else h
apply_option register h = record h { cmd_type = cmd_type_register }
apply_option unregister h = record h { cmd_type = cmd_type_unregister }
apply_option other h = h

unfoldable pub apply_options : List ToolOption → CmdHdr → CmdHdr
unfolding apply_option
apply_options [] h = h
apply_options (o ∷ os) h = apply_options os (apply_option o h)

-- The strings of an option fit their arrays with the NUL.
abbrev pub Fits : ToolOption → Type 0
Fits (channel optarg) = length (c_str optarg) < 128
Fits (uuid optarg) = length (c_str optarg) < 128
Fits o = Unit {0}

abbrev pub AllFit : List ToolOption → Type 0
AllFit [] = Unit {0}
AllFit (o ∷ os) = Fits o × AllFit os
