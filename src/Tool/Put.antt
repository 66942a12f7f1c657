-- ===== src/Tool/Put.antt =====
-- What a write of one field does to a command of tool/accsh.c as the daemon reads it.
use be_la.Prelude.{
  ℕ, suc, ◌^◌, ◌<◌, ◌≡◌, ◌∙◌, ap, inl, inr, Bytes, [], ◌∷◌, ◌++◌, c_str, length, arith, write_at,
  length-write_at, length-append,
}
use be_la.Vendor.{CmdHdr}
use be_la.Wire.{bytes_word}
use be_la.Daemon.Command.{bytes_cmd}
use be_la.Tool.{
  vendor_at, model_at, acc_type_at, uuid_at, vmpath_at, cmd_type_at, word_at, put_word,
}
use be_la.Tool.Fields.{read-Apart, length-put_word, word_at-put_word, read-put_word, read_string}
use be_la.Tool.Reading.{IsNamed, Decodes}

pub put_vendor :
    (m : Bytes) (h : CmdHdr) (w : ℕ)
    → w < 2 ^ 32
    → Decodes m h
    → Decodes (put_word vendor_at w m) (record h { card = record h.card { vendor = w } })
unfolding bytes_cmd word_at
put_vendor m h w small d = record {
  size = length-put_word vendor_at w m (omega (arith, d.size)) ∙ d.size;
  vendor_word = word_at-put_word vendor_at w m small (omega (arith, d.size));
  model_word =
      ap bytes_word (read-put_word 4 4 vendor_at w m (inr (omega arith)) (omega (arith, d.size)))
      ∙ d.model_word;
  type_word =
      ap bytes_word (read-put_word 4 8 vendor_at w m (inr (omega arith)) (omega (arith, d.size)))
      ∙ d.type_word;
  uuid_string =
      ap c_str (read-put_word 128 12 vendor_at w m (inr (omega arith)) (omega (arith, d.size)))
      ∙ d.uuid_string;
  path_string =
      ap c_str (read-put_word 128 140 vendor_at w m (inr (omega arith)) (omega (arith, d.size)))
      ∙ d.path_string;
  cmd_word =
      ap bytes_word (read-put_word 4 268 vendor_at w m (inr (omega arith)) (omega (arith, d.size)))
      ∙ d.cmd_word;
  named = d.named;
}

pub put_model :
    (m : Bytes) (h : CmdHdr) (w : ℕ)
    → w < 2 ^ 32
    → Decodes m h
    → Decodes (put_word model_at w m) (record h { card = record h.card { model = w } })
unfolding bytes_cmd word_at
put_model m h w small d = record {
  size = length-put_word model_at w m (omega (arith, d.size)) ∙ d.size;
  vendor_word =
      ap bytes_word (read-put_word 4 0 model_at w m (inl (omega arith)) (omega (arith, d.size)))
      ∙ d.vendor_word;
  model_word = word_at-put_word model_at w m small (omega (arith, d.size));
  type_word =
      ap bytes_word (read-put_word 4 8 model_at w m (inr (omega arith)) (omega (arith, d.size)))
      ∙ d.type_word;
  uuid_string =
      ap c_str (read-put_word 128 12 model_at w m (inr (omega arith)) (omega (arith, d.size)))
      ∙ d.uuid_string;
  path_string =
      ap c_str (read-put_word 128 140 model_at w m (inr (omega arith)) (omega (arith, d.size)))
      ∙ d.path_string;
  cmd_word =
      ap bytes_word (read-put_word 4 268 model_at w m (inr (omega arith)) (omega (arith, d.size)))
      ∙ d.cmd_word;
  named = d.named;
}

pub put_type :
    (m : Bytes) (h : CmdHdr) (w : ℕ)
    → w < 2 ^ 32
    → IsNamed w
    → Decodes m h
    → Decodes (put_word acc_type_at w m) (record h { card = record h.card { acc_type = w } })
unfolding bytes_cmd word_at
put_type m h w small n d = record {
  size = length-put_word acc_type_at w m (omega (arith, d.size)) ∙ d.size;
  vendor_word =
      ap bytes_word (read-put_word 4 0 acc_type_at w m (inl (omega arith)) (omega (arith, d.size)))
      ∙ d.vendor_word;
  model_word =
      ap bytes_word (read-put_word 4 4 acc_type_at w m (inl (omega arith)) (omega (arith, d.size)))
      ∙ d.model_word;
  type_word = word_at-put_word acc_type_at w m small (omega (arith, d.size));
  uuid_string =
      ap c_str (read-put_word 128 12 acc_type_at w m (inr (omega arith)) (omega (arith, d.size)))
      ∙ d.uuid_string;
  path_string =
      ap c_str (read-put_word 128 140 acc_type_at w m (inr (omega arith)) (omega (arith, d.size)))
      ∙ d.path_string;
  cmd_word =
      ap bytes_word
        (read-put_word 4 268 acc_type_at w m (inr (omega arith)) (omega (arith, d.size)))
      ∙ d.cmd_word;
  named = n;
}

pub put_cmd :
    (m : Bytes) (h : CmdHdr) (w : ℕ)
    → w < 2 ^ 32
    → Decodes m h
    → Decodes (put_word cmd_type_at w m) (record h { cmd_type = w })
unfolding bytes_cmd word_at
put_cmd m h w small d = record {
  size = length-put_word cmd_type_at w m (omega (arith, d.size)) ∙ d.size;
  vendor_word =
      ap bytes_word (read-put_word 4 0 cmd_type_at w m (inl (omega arith)) (omega (arith, d.size)))
      ∙ d.vendor_word;
  model_word =
      ap bytes_word (read-put_word 4 4 cmd_type_at w m (inl (omega arith)) (omega (arith, d.size)))
      ∙ d.model_word;
  type_word =
      ap bytes_word (read-put_word 4 8 cmd_type_at w m (inl (omega arith)) (omega (arith, d.size)))
      ∙ d.type_word;
  uuid_string =
      ap c_str (read-put_word 128 12 cmd_type_at w m (inl (omega arith)) (omega (arith, d.size)))
      ∙ d.uuid_string;
  path_string =
      ap c_str (read-put_word 128 140 cmd_type_at w m (inl (omega arith)) (omega (arith, d.size)))
      ∙ d.path_string;
  cmd_word = word_at-put_word cmd_type_at w m small (omega (arith, d.size));
  named = d.named;
}

pub put_uuid :
    (m : Bytes) (h : CmdHdr) (s : Bytes)
    → length (c_str s) < 128
    → Decodes m h
    → Decodes
        (write_at uuid_at (c_str s ++ (0 ∷ [])) m)
        (record h { card = record h.card { vm_uuid = c_str s } })
unfolding bytes_cmd
put_uuid m h s fits d =
    let b = c_str s ++ (0 ∷ []) in
    let n : length b ≡ suc (length (c_str s)) = omega (arith, length-append (c_str s) (0 ∷ [])) in
    record {
      size = length-write_at uuid_at b m (omega (arith, d.size)) ∙ d.size;
      vendor_word =
          ap bytes_word (read-Apart 4 0 uuid_at b m (inl (omega arith)) (omega (arith, d.size)))
          ∙ d.vendor_word;
      model_word =
          ap bytes_word (read-Apart 4 4 uuid_at b m (inl (omega arith)) (omega (arith, d.size)))
          ∙ d.model_word;
      type_word =
          ap bytes_word (read-Apart 4 8 uuid_at b m (inl (omega arith)) (omega (arith, d.size)))
          ∙ d.type_word;
      uuid_string = read_string 128 uuid_at s m (omega arith) (omega (arith, d.size));
      path_string =
          ap c_str (read-Apart 128 140 uuid_at b m (inr (omega arith)) (omega (arith, d.size)))
          ∙ d.path_string;
      cmd_word =
          ap bytes_word (read-Apart 4 268 uuid_at b m (inr (omega arith)) (omega (arith, d.size)))
          ∙ d.cmd_word;
      named = d.named;
    }

pub put_path :
    (m : Bytes) (h : CmdHdr) (s : Bytes)
    → length (c_str s) < 128
    → Decodes m h
    → Decodes
        (write_at vmpath_at (c_str s ++ (0 ∷ [])) m)
        (record h { card = record h.card { vmpath = c_str s } })
unfolding bytes_cmd
put_path m h s fits d =
    let b = c_str s ++ (0 ∷ []) in
    let n : length b ≡ suc (length (c_str s)) = omega (arith, length-append (c_str s) (0 ∷ [])) in
    record {
      size = length-write_at vmpath_at b m (omega (arith, d.size)) ∙ d.size;
      vendor_word =
          ap bytes_word (read-Apart 4 0 vmpath_at b m (inl (omega arith)) (omega (arith, d.size)))
          ∙ d.vendor_word;
      model_word =
          ap bytes_word (read-Apart 4 4 vmpath_at b m (inl (omega arith)) (omega (arith, d.size)))
          ∙ d.model_word;
      type_word =
          ap bytes_word (read-Apart 4 8 vmpath_at b m (inl (omega arith)) (omega (arith, d.size)))
          ∙ d.type_word;
      uuid_string =
          ap c_str (read-Apart 128 12 vmpath_at b m (inl (omega arith)) (omega (arith, d.size)))
          ∙ d.uuid_string;
      path_string = read_string 128 vmpath_at s m (omega arith) (omega (arith, d.size));
      cmd_word =
          ap bytes_word (read-Apart 4 268 vmpath_at b m (inr (omega arith)) (omega (arith, d.size)))
          ∙ d.cmd_word;
      named = d.named;
    }
