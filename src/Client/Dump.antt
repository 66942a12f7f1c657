-- ===== src/Client/Dump.antt =====
-- `acc_flows_dumps` of vnf/cgnat-acc/cgnapt_accelerate.c: the text of a flow in a buffer.
use be_la.Prelude.{
  ℕ, zero, suc, append_assoc, ◌+◌, ◌-◌, ◌/◌, ◌%◌, ◌≤◌, ◌<◌, ◌≡◌, refl, sym, ◌∙◌, ap, Bool, true,
  false, Bytes, List, [], ◌∷◌, ◌++◌, Outcome, done, crash, out_of_bounds, ◌>>=◌, ltb, ltb-false,
  if◌then◌else◌, codes, get_or, length, take, arith, length-append, append-nil,
}
use Prim.Native.Nat.{min}
use be_la.Flow.{
  AccFlow, match_is_be_set, action_is_set, field_srcmac, field_dstmac, field_src_ip, field_dst_ip,
  field_src_port, field_dst_port, field_protocol,
}
use be_la.Ovs.Print.{print_d, print_ip, print_port, print_d-le, print_ip-le, print_port-le}

-- The buffer's text, and `use`.
pub record Dumped : Type 0 where
  pub text : Bytes
  pub used : ℕ

-- `snprintf(buffer+use,len+use,…)` and `use +=writen`: of a text with its NUL as many bytes are
-- written as the size allows, which is more than the buffer has left.
unfoldable pub put_text : ℕ → Bytes → Dumped → Outcome Dumped
put_text len t d =
    let written = min (suc (length t)) (len + d.used) in
    if ltb len (d.used + written)
    then crash out_of_bounds
    else done (record { text = d.text ++ take (len + d.used - 1) t; used = d.used + length t })

-- The text of one field, if its mask is set.
unfoldable pub put_if : ℕ → Bool → Bytes → Dumped → Outcome Dumped
unfolding put_text
put_if len is_set t d = if is_set then put_text len t d else done d

-- `%02x`
unfoldable pub print_02x_lower : ℕ → Bytes
print_02x_lower b =
    let digit = λ (d : ℕ). if ltb d 10 then b'0' + d else b'a' + d - 10 in
    digit (b / 16) ∷ digit (b % 16) ∷ []

-- `%02x:%02x:%02x:%02x:%02x:%02x`
unfoldable pub dump_mac : Bytes → Bytes
unfolding print_02x_lower
dump_mac m =
    print_02x_lower (get_or m 0 0)
    ++ (codes ":"
        ++ (print_02x_lower (get_or m 1 0)
            ++ (codes ":"
                ++ (print_02x_lower (get_or m 2 0)
                    ++ (codes ":"
                        ++ (print_02x_lower (get_or m 3 0)
                            ++ (codes ":"
                                ++ (print_02x_lower (get_or m 4 0)
                                    ++ (codes ":" ++ print_02x_lower (get_or m 5 0))))))))))

-- The fields in their order: whether each is printed, and its text.
unfoldable pub dump_parts : AccFlow → List (Bool × Bytes)
unfolding dump_mac
dump_parts f =
    let m = f.match in
    let a = f.action in
    (match_is_be_set f.mask.srcmac, codes " src_mac " ++ dump_mac m.srcmac)
    ∷ (match_is_be_set f.mask.dstmac, codes " dst_mac " ++ dump_mac m.dstmac)
    ∷ (match_is_be_set f.mask.src_ip, codes " src_ip  " ++ print_ip m.src_ip)
    ∷ (match_is_be_set f.mask.dst_ip, codes " dst_ip  " ++ print_ip m.dst_ip)
    ∷ (match_is_be_set f.mask.src_port, codes " src_port  " ++ print_port m.src_port)
    ∷ (match_is_be_set f.mask.dst_port, codes " dst_port  " ++ print_port m.dst_port)
    ∷ (match_is_be_set f.mask.protocol, codes " protocol  " ++ print_d (get_or m.protocol 0 0))
    ∷ (true, codes "---->")
    ∷ (action_is_set a field_srcmac, codes " xlate_src_mac " ++ dump_mac a.srcmac)
    ∷ (action_is_set a field_dstmac, codes " xlate_dst_mac " ++ dump_mac a.dstmac)
    ∷ (action_is_set a field_src_ip, codes " xlate_src_ip  " ++ print_ip a.src_ip)
    ∷ (action_is_set a field_dst_ip, codes " xlate_dst_ip  " ++ print_ip a.dst_ip)
    ∷ (action_is_set a field_src_port, codes " xlate_src_port  " ++ print_port a.src_port)
    ∷ (action_is_set a field_dst_port, codes " xlate_dst_port  " ++ print_port a.dst_port)
    ∷ (action_is_set a field_protocol, codes " xlate_protocol  " ++ print_d (get_or a.protocol 0 0))
    ∷ (true, codes "\n")
    ∷ []

unfoldable pub put_parts : ℕ → List (Bool × Bytes) → Dumped → Outcome Dumped
unfolding put_if
put_parts len [] d = done d
put_parts len ((is_set, t) ∷ r) d = put_if len is_set t d >>= λ d'. put_parts len r d'

-- `snprintf` returns no negative number here, so that the function returns 0 where it returns.
unfoldable pub acc_flows_dumps : ℕ → AccFlow → Outcome Dumped
unfolding dump_parts put_parts
acc_flows_dumps len f = put_parts len (dump_parts f) (record { text = []; used = 0 })

-- The text of the parts that are set.
abbrev pub joined : List (Bool × Bytes) → Bytes
joined [] = []
joined ((b, t) ∷ r) = (if b then t else []) ++ joined r

-- The parts fit a bound together.
abbrev total : List (Bool × Bytes) → ℕ
total [] = 0
total ((b, t) ∷ r) = length t + total r

length-joined : (l : List (Bool × Bytes)) → length (joined l) ≤ total l
length-joined [] = omega arith
length-joined ((true, t) ∷ r) = omega (arith, length-joined r, length-append t (joined r))
length-joined ((false, t) ∷ r) = omega (arith, length-joined r)

take_ge : (n : ℕ) (t : Bytes) → length t ≤ n → take n t ≡ t
take_ge zero [] h = refl
take_ge (suc n) [] h = refl
take_ge zero (x ∷ t) h = absurd (omega arith)
take_ge (suc n) (x ∷ t) h = ap (◌∷◌ x) (take_ge n t (omega arith))

put_text_fits :
    (len : ℕ) (t : Bytes) (d : Dumped)
    → d.used + length t < len
    → put_text len t d ≡ done (record { text = d.text ++ t; used = d.used + length t })
unfolding put_text
put_text_fits len t d h =
    rw
      (
        ltb-false len (d.used + min (suc (length t)) (len + d.used)) (omega arith),
        take_ge (len + d.used - 1) t (omega arith),
      )
      refl

abbrev dumped : Bytes → ℕ → Dumped
dumped text used = record { text = text; used = used }

same_dump : {a b : Bytes} {m n : ℕ} → a ≡ b → m ≡ n → dumped a m ≡ dumped b n
same_dump p q = λ i. record { text = p i; used = q i }

put_parts_fit :
    (len : ℕ) (l : List (Bool × Bytes)) (d : Dumped)
    → d.used + total l < len
    → put_parts len l d
      ≡ done (record { text = d.text ++ joined l; used = d.used + length (joined l) })
unfolding put_parts put_if
put_parts_fit len [] d h = ap done (same_dump (sym (append-nil d.text)) (omega arith))
put_parts_fit len ((true, t) ∷ r) d h =
    let d' : Dumped = record { text = d.text ++ t; used = d.used + length t } in
    ap (λ o. o >>= λ d'. put_parts len r d') (put_text_fits len t d (omega arith))
    ∙ put_parts_fit len r d' (omega arith)
    ∙ ap done
        (same_dump (append_assoc d.text t (joined r)) (omega (arith, length-append t (joined r))))
put_parts_fit len ((false, t) ∷ r) d h = put_parts_fit len r d (omega arith)

parts_small : (f : AccFlow) → total (dump_parts f) ≤ 700
unfolding dump_parts dump_mac print_02x_lower
parts_small f = omega (
  arith,
  print_ip-le f.match.src_ip,
  print_ip-le f.match.dst_ip,
  print_port-le f.match.src_port,
  print_port-le f.match.dst_port,
  print_d-le (get_or f.match.protocol 0 0),
  print_ip-le f.action.src_ip,
  print_ip-le f.action.dst_ip,
  print_port-le f.action.src_port,
  print_port-le f.action.dst_port,
  print_d-le (get_or f.action.protocol 0 0),
)

-- In the buffer of 4096 bytes the text of every flow fits with its NUL, whatever the bytes of its
-- fields are, although each size that is given to `snprintf` is larger than what is left: the
-- function returns, with the texts of the fields that are set, one behind the other.
pub flows_dumps_fit :
    (f : AccFlow)
    → (d : Dumped) × (acc_flows_dumps 4096 f ≡ done d)
      × (d.text ≡ joined (dump_parts f))
      × (d.used ≡ length d.text)
      × (length d.text < 4096)
unfolding acc_flows_dumps
flows_dumps_fit f =
    let small = parts_small f in
    let l = length-joined (dump_parts f) in
    (
      record { text = joined (dump_parts f); used = length (joined (dump_parts f)) },
      put_parts_fit 4096 (dump_parts f) (record { text = []; used = 0 }) (omega arith)
          ∙ ap done (same_dump refl (omega arith)),
      refl,
      refl,
      omega arith,
    )
