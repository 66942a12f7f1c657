-- ===== src/Tool/Parse.antt =====
-- The loop of tool/accsh.c over its options makes the command that they ask for.
use be_la.Prelude.{
  ℕ, suc, ◌+◌, ◌^◌, ◌≤◌, ◌<◌, ◌≡◌, refl, sym, ◌∙◌, subst, inl, inr, Bytes, List, [], ◌∷◌, ◌++◌,
  done, ◌==◌, ltb-false, if◌then◌else◌, codes, c_str, str_eq, head_byte, length, bit_or, arith,
  write_at, Bool-cases,
}
use be_la.Vendor.{
  CmdHdr, vendor_netronome, agilio_isa_4000, acc_type_flow, acc_type_compress, cmd_type_register,
  cmd_type_unregister,
}
use be_la.Wire.{bytes_word}
use be_la.Daemon.Command.{bytes_cmd}
use be_la.Tool.{
  ToolOption, vendor, model, channel, uuid, type, register, unregister, other, vendor_at, model_at,
  acc_type_at, uuid_at, vmpath_at, cmd_type_at, word_at, put_word, strcpy, copy_string, add_type,
  parse_option, parse_options, blank_cmd,
}
use be_la.Tool.Reading.{IsNamed, Decodes, apply_option, apply_options, Fits, AllFit}
use be_la.Tool.Put.{put_vendor, put_model, put_type, put_cmd, put_uuid, put_path}

abbrev pub blank_hdr : CmdHdr
blank_hdr = record {
  card = record { vendor = 0; model = 0; acc_type = 0; vm_uuid = []; vmpath = [] };
  cmd_type = 0;
}

pub blank-Decodes : Decodes blank_cmd blank_hdr
unfolding bytes_cmd bytes_word
blank-Decodes = record {
  size = refl;
  vendor_word = refl;
  model_word = refl;
  type_word = refl;
  uuid_string = refl;
  path_string = refl;
  cmd_word = refl;
  named = inl refl;
}

-- What one option comes to.
abbrev Stepped : ToolOption → Bytes → CmdHdr → Type 0
Stepped o m h = (m' : Bytes) × (parse_option o m ≡ done m') × Decodes m' (apply_option o h)

IsNamed-flow : (t : ℕ) → IsNamed t → IsNamed (bit_or t acc_type_flow)
IsNamed-flow t (inl e) = rw e (inr (inl refl))
IsNamed-flow t (inr (inl e)) = rw e (inr (inl refl))
IsNamed-flow t (inr (inr (inl e))) = rw e (inr (inr (inr refl)))
IsNamed-flow t (inr (inr (inr e))) = rw e (inr (inr (inr refl)))

IsNamed-compress : (t : ℕ) → IsNamed t → IsNamed (bit_or t acc_type_compress)
IsNamed-compress t (inl e) = rw e (inr (inr (inl refl)))
IsNamed-compress t (inr (inl e)) = rw e (inr (inr (inr refl)))
IsNamed-compress t (inr (inr (inl e))) = rw e (inr (inr (inl refl)))
IsNamed-compress t (inr (inr (inr e))) = rw e (inr (inr (inr refl)))

named-small : (t : ℕ) → IsNamed t → t < 2 ^ 32
named-small t n = ground arith

added_type :
    (m : Bytes) (h : CmdHdr) (t : ℕ)
    → IsNamed (bit_or h.card.acc_type t)
    → Decodes m h
    → Decodes
        (add_type t m)
        (record h { card = record h.card { acc_type = bit_or h.card.acc_type t } })
unfolding add_type word_at bytes_cmd
added_type m h t n d =
    subst
      (λ x.
        Decodes (put_word acc_type_at (bit_or x t) m)
          (record h { card = record h.card { acc_type = bit_or h.card.acc_type t } }))
      (sym d.type_word)
      (put_type m h (bit_or h.card.acc_type t) (named-small (bit_or h.card.acc_type t) n) n d)

copied :
    (at : ℕ) (optarg m : Bytes)
    → length (c_str optarg) < 128
    → at + 128 ≤ length m
    → copy_string at optarg m
      ≡ done (if head_byte optarg == 0 then m else write_at at (c_str optarg ++ (0 ∷ [])) m)
unfolding copy_string strcpy
copied at optarg m fits room = elim (Bool-cases (head_byte optarg == 0)) [
  | inl q ↦ rw q refl
  | inr q ↦ rw (q, ltb-false (length m) (at + suc (length (c_str optarg))) (omega arith)) refl
]

option_step : (o : ToolOption) (m : Bytes) (h : CmdHdr) → Fits o → Decodes m h → Stepped o m h
unfolding parse_option apply_option
option_step (vendor optarg) m h f d = elim (Bool-cases (str_eq optarg (codes "netronome"))) [
  | inl q ↦
      (put_word vendor_at vendor_netronome m, rw q refl, rw q (put_vendor m h 1 (omega arith) d))
  | inr q ↦ (m, rw q refl, rw q d)
]
option_step (model optarg) m h f d = elim (Bool-cases (str_eq optarg (codes "agilio_isa_4000"))) [
  | inl q ↦ (put_word model_at agilio_isa_4000 m, rw q refl, rw q (put_model m h 1 (omega arith) d))
  | inr q ↦ (m, rw q refl, rw q d)
]
option_step (channel optarg) m h f d = elim (Bool-cases (head_byte optarg == 0)) [
  | inl q ↦ (m, copied vmpath_at optarg m f (omega (arith, d.size)) ∙ rw q refl, rw q d)
  | inr q ↦ (
    write_at vmpath_at (c_str optarg ++ (0 ∷ [])) m,
    copied vmpath_at optarg m f (omega (arith, d.size)) ∙ rw q refl,
    rw q (put_path m h optarg f d),
  )
]
option_step (uuid optarg) m h f d = elim (Bool-cases (head_byte optarg == 0)) [
  | inl q ↦ (m, copied uuid_at optarg m f (omega (arith, d.size)) ∙ rw q refl, rw q d)
  | inr q ↦ (
    write_at uuid_at (c_str optarg ++ (0 ∷ [])) m,
    copied uuid_at optarg m f (omega (arith, d.size)) ∙ rw q refl,
    rw q (put_uuid m h optarg f d),
  )
]
option_step (type optarg) m h f d = elim (Bool-cases (str_eq optarg (codes "flow"))) [
  | inl q ↦ (
    add_type acc_type_flow m,
    rw q refl,
    rw q (added_type m h acc_type_flow (IsNamed-flow h.card.acc_type d.named) d),
  )
  | inr q ↦ elim (Bool-cases (str_eq optarg (codes "compress"))) [
    | inl r ↦ (
      add_type acc_type_compress m,
      rw (q, r) refl,
      rw (q, r) (added_type m h acc_type_compress (IsNamed-compress h.card.acc_type d.named) d),
    )
    | inr r ↦ (m, rw (q, r) refl, rw (q, r) d)
  ]
]
option_step register m h f d =
    (put_word cmd_type_at cmd_type_register m, refl, put_cmd m h 1 (omega arith) d)
option_step unregister m h f d =
    (put_word cmd_type_at cmd_type_unregister m, refl, put_cmd m h 2 (omega arith) d)
option_step other m h f d = (m, refl, d)

-- Options whose strings fit, whatever they are and in whatever order, leave the memory of a command
-- that decodes to what they ask for.
pub options_lem :
    (os : List ToolOption) (m : Bytes) (h : CmdHdr)
    → AllFit os
    → Decodes m h
    → (m' : Bytes) × (parse_options os m ≡ done m') × Decodes m' (apply_options os h)
unfolding parse_options apply_options
options_lem [] m h f d = (m, refl, d)
options_lem (o ∷ os) m h (f, fs) d =
    let (m₁, e₁, d₁) = option_step o m h f d in
    let (m₂, e₂, d₂) = options_lem os m₁ (apply_option o h) fs d₁ in (m₂, rw e₁ e₂, d₂)
