-- ===== src/Tool/Tests.antt =====
-- tool/accsh.c at concrete inputs.
use be_la.Prelude.{
  ◌≡◌, refl, true, Bytes, some, none, List, [], ◌∷◌, success, failure, done, codes, c_str,
  replicate, arith, if◌then◌else◌,
}
use be_la.Daemon.Command.{bytes_cmd}
use be_la.Tool.{
  ToolOption, vendor, model, channel, uuid, type, register, System, connect_server, send_command,
  accsh_main, blank_cmd, parse_option,
}
use be_la.Tool.Reading.{Decodes, apply_options}
use be_la.Tool.Parse.{blank_hdr}
use be_la.Tool.Sends.{lacks_field, accsh_sends, uuid_overflow}

abbrev system : System
system = record { malloc = true; access = success; socket = some 3; connect = success }

-- The example of the usage.
abbrev arguments : List ToolOption
arguments =
    register
    ∷ vendor (codes "netronome")
    ∷ model (codes "agilio_isa_4000")
    ∷ uuid (codes "4dea22b3-1d52-d8f3-2516-782e98000000")
    ∷ channel (codes "/tmp/vaccla")
    ∷ type (codes "flow")
    ∷ type (codes "compress")
    ∷ []

accsh_sends_example :
    (m : Bytes) × Decodes m (apply_options arguments blank_hdr)
    × (accsh_main system arguments
        ≡ done (
            if lacks_field (apply_options arguments blank_hdr)
            then record { retval = failure; written = none; usage = true; closes = some 0 ∷ [] }
            else send_command m (connect_server system)))
accsh_sends_example =
    accsh_sends system arguments (tt, (tt, (tt, (omega arith, (omega arith, (tt, (tt, tt))))))) refl

-- The path is lost in a command whose uuid is 130 characters long.
uuid_overflow_example :
    (m : Bytes) × (parse_option (uuid (replicate 130 97)) blank_cmd ≡ done m)
    × (c_str (bytes_cmd m).card.vmpath ≡ 97 ∷ 97 ∷ [])
uuid_overflow_example = uuid_overflow (replicate 130 97) blank_cmd (omega arith) (omega arith) refl
