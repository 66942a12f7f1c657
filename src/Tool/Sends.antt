-- ===== src/Tool/Sends.antt =====
-- What a run of tool/accsh.c sends, and a string that is too long for its array.
use be_la.Prelude.{
  ℕ, zero, suc, ◌+◌, ◌-◌, ◌≤◌, ◌<◌, ◌≡◌, refl, sym, ◌∙◌, ap, Bool, true, false, ◌||◌, Bytes, none,
  some, List, [], ◌∷◌, ◌++◌, failure, done, ◌==◌, if◌then◌else◌, c_str, head_byte, length, take,
  drop, arith, write_at, drop-write_at, drop-drop, drop-append_le, take-append_ge, length-append,
  length-drop, ltb-false, c_str_terminated,
}
use be_la.Vendor.{CmdHdr}
use be_la.Daemon.Command.{cmd_size, bytes_cmd}
use be_la.Tool.{
  ToolOption, uuid, System, uuid_at, vmpath_at, strcpy, copy_string, word_at, parse_option,
  blank_cmd, is_incomplete, connect_server, send_command, finish, accsh_main,
}
use be_la.Tool.Fields.{head_byte-c_str}
use be_la.Tool.Reading.{Decodes, apply_options, AllFit}
use be_la.Tool.Parse.{blank_hdr, blank-Decodes, options_lem}

-- A command that lacks a field.
abbrev pub lacks_field : CmdHdr → Bool
lacks_field h =
    (h.card.vendor == 0)
    || ((h.cmd_type == 0)
        || ((h.card.model == 0)
            || ((h.card.acc_type == 0)
                || ((length h.card.vmpath == 0) || (length h.card.vm_uuid == 0)))))

incomplete-lacks_field : (m : Bytes) (h : CmdHdr) → Decodes m h → is_incomplete m ≡ lacks_field h
unfolding is_incomplete word_at bytes_cmd
incomplete-lacks_field m h d =
    rw
      (
        sym d.vendor_word,
        sym d.model_word,
        sym d.type_word,
        sym d.cmd_word,
        sym d.uuid_string,
        sym d.path_string,
        head_byte-c_str 127 (drop vmpath_at m),
        head_byte-c_str 127 (drop uuid_at m),
      )
      refl

-- With memory, and options whose strings fit, in any order, the tool ends: when a field is
-- lacking, with -1, the usage, nothing sent and the descriptor 0 closed; and otherwise with 0, and
-- it has sent, if it could connect, 272 bytes that the daemon reads as the command that was asked
-- for.
pub accsh_sends :
    (s : System) (os : List ToolOption)
    → AllFit os
    → s.malloc ≡ true
    → (m : Bytes) × Decodes m (apply_options os blank_hdr)
      × (accsh_main s os
          ≡ done (
              if lacks_field (apply_options os blank_hdr)
              then record { retval = failure; written = none; usage = true; closes = some 0 ∷ [] }
              else send_command m (connect_server s)))
unfolding accsh_main finish
accsh_sends s os fits memory =
    let (m, e, d) = options_lem os blank_cmd blank_hdr fits blank-Decodes in
    (m, d, rw (memory, e, incomplete-lacks_field m (apply_options os blank_hdr) d) refl)

c_str-c_str : (s : Bytes) → c_str (c_str s) ≡ c_str s
c_str-c_str [] = refl
c_str-c_str (x ∷ s) = ground (arith, c_str-c_str s)

-- A part of a string at its end is a string.
c_str-drop : (n : ℕ) (l : Bytes) → c_str l ≡ l → c_str (drop n l) ≡ drop n l
c_str-drop zero l e = e
c_str-drop (suc n) [] e = refl
c_str-drop (suc n) (x ∷ l) e = c_str-drop n l (ground arith)

nonempty_head : (u : Bytes) → 0 < length (c_str u) → (head_byte u == 0) ≡ false
nonempty_head [] h = absurd (omega arith)
nonempty_head (x ∷ u) h = ground arith

-- An uuid of 128 to 255 characters runs over into the path: the daemon reads as the path what the
-- uuid has behind its first 128 characters, whatever path was given before.
pub uuid_overflow :
    (u m : Bytes)
    → 128 ≤ length (c_str u)
    → length (c_str u) < 256
    → length m ≡ cmd_size
    → (m' : Bytes) × (parse_option (uuid u) m ≡ done m')
      × (c_str (bytes_cmd m').card.vmpath ≡ drop 128 (c_str u))
unfolding parse_option copy_string strcpy bytes_cmd
uuid_overflow u m long short size =
    let s = c_str u in
    let b = s ++ (0 ∷ []) in
    let n : length b ≡ suc (length s) = omega (arith, length-append s (0 ∷ [])) in
    let rest = drop (uuid_at + length b) m in
    let tail = drop 128 s ++ (0 ∷ []) in
    let there : drop vmpath_at (write_at uuid_at b m) ≡ tail ++ rest =
      sym (drop-drop 128 uuid_at (write_at uuid_at b m))
      ∙ ap (drop 128) (drop-write_at uuid_at b m (omega (arith, size)))
      ∙ drop-append_le 128 b rest (omega arith)
      ∙ ap (λ l. l ++ rest) (drop-append_le 128 s (0 ∷ []) long) in
    let some_uuid : (head_byte u == 0) ≡ false = nonempty_head u (omega arith) in
    let text = c_str-drop 128 s (c_str-c_str u) in
    let later = take (128 - length tail) rest in
    (
      write_at uuid_at b m,
      rw (some_uuid, ltb-false (length m) (uuid_at + suc (length s)) (omega (arith, size))) refl,
      ap (λ l. c_str (take 128 l)) there
          ∙ ap c_str (
              take-append_ge 128 tail rest
                (omega (arith, length-append (drop 128 s) (0 ∷ []), length-drop 128 s)))
          ∙ ap (λ l. c_str ((l ++ (0 ∷ [])) ++ later)) (sym text)
          ∙ c_str_terminated (drop 128 s) later
          ∙ text,
    )
