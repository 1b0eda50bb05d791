-- ===== src/Parse/Printed6.antt =====
-- nf-chain/src/main.c, `print_one_ipv6_rule`: what it prints, without the extra fields, is read back.
use queue_dpdk.Prelude.{
  true, false, All, All-append, ◌≢◌, refl, inr, inl, ℕ, ◌+◌, ◌*◌, ◌/◌, ◌%◌, ◌^◌, ◌≤◌, ◌<◌, ◌≡◌, ◌⊎◌,
  Option, some, List, [], ◌∷◌, ◌++◌, arith, u32,
}
use queue_dpdk.Fields.Layout.{mask_range-whole}
use queue_dpdk.Rules.{Line}
use queue_dpdk.Fields.{mask_range}
use queue_dpdk.Parse.{
  Field, Ipv4Fields, Ipv6Fields, slash, colon, get_cb_field, parse_ipv6_net, parse_ipv6_addr,
  split_line, parse_userdata, are_ranges, parse_cb_ipv4vlan_rule, parse_cb_ipv6_rule,
}
use queue_dpdk.Parse.Sane.{IsSane4, IsRange, Bounded}
use queue_dpdk.Parse.Print.{
  IsWord, Printf, PrintfBytes, print_one_ipv4_rule, print_quad, print_net6, print_words6,
  print_one_ipv6_rule,
}
use queue_dpdk.Parse.Printed.{
  print_ports-IsWord, append-IsWord, alone-IsWord, dec_last, parse_ports-printed,
  parse_proto-printed, parse-print_one_ipv4_rule,
}

-- The four words of an address under the first `m` bits.
abbrev pub IsPrefix : ℕ → List Field → Type 0
IsPrefix m (a ∷ b ∷ c ∷ d ∷ []) =
    (m ≤ 128)
    × ((a.value < 2 ^ 32) × (a.mask_range ≡ mask_range m 0))
    × ((b.value < 2 ^ 32) × (b.mask_range ≡ mask_range m 1))
    × ((c.value < 2 ^ 32) × (c.mask_range ≡ mask_range m 2))
    × ((d.value < 2 ^ 32) × (d.mask_range ≡ mask_range m 3))
IsPrefix m _ = ⊥

-- The fields of an IPv6 entry with a source of `s` bits and a destination of `d` bits.
pub record IsPrinted (s d : ℕ) (f : Ipv6Fields) : Type 0 where
  pub src : IsPrefix s f.src
  pub dst : IsPrefix d f.dst
  pub srcp : IsRange f.srcp
  pub dstp : IsRange f.dstp
  pub proto : Bounded 255 255 f.proto

words_append : (w v : Line) → IsWord w → IsWord v → IsWord (w ++ v)
words_append [] v g h = h
words_append (x ∷ w) v g h = (λ e. cc e, All-append _ (x ∷ w) v g.1 h.1)

module _ (strtoul : Line → ℕ → Option (ℕ × Line)) (strtok : Line → List Line)
    (dec hex byte : ℕ → Line) (K : Printf strtoul strtok dec hex)
    (B : PrintfBytes strtoul byte) where
  pair_field :
      (a b dlm : ℕ) (rest : Line)
      → a < 256
      → b < 256
      → (dlm ≡ colon) ⊎ (dlm ≡ slash)
      → get_cb_field strtoul strtok (byte a ++ (byte b ++ (dlm ∷ rest))) 16 65535 dlm
        ≡ some (a * 256 + b, rest)
  unfolding get_cb_field
  pair_field a b dlm rest h l d = rw (B.bytes_read a b (dlm ∷ rest) h l d) (ground (arith, h, l))

  -- The two halves of a word and their two bytes.
  high :
      (v : ℕ) (dlm : ℕ) (rest : Line)
      → (dlm ≡ colon) ⊎ (dlm ≡ slash)
      → get_cb_field strtoul strtok
          (byte (v / 2 ^ 24 % 256) ++ (byte (v / 2 ^ 16 % 256) ++ (dlm ∷ rest)))
          16
          65535
          dlm
        ≡ some (v / 2 ^ 24 % 256 * 256 + v / 2 ^ 16 % 256, rest)
  high v dlm rest d =
      pair_field (v / 2 ^ 24 % 256) (v / 2 ^ 16 % 256) dlm rest (omega arith) (omega arith) d

  low :
      (v : ℕ) (dlm : ℕ) (rest : Line)
      → (dlm ≡ colon) ⊎ (dlm ≡ slash)
      → get_cb_field strtoul strtok
          (byte (v / 2 ^ 8 % 256) ++ (byte (v % 256) ++ (dlm ∷ rest)))
          16
          65535
          dlm
        ≡ some (v / 2 ^ 8 % 256 * 256 + v % 256, rest)
  low v dlm rest d = pair_field (v / 2 ^ 8 % 256) (v % 256) dlm rest (omega arith) (omega arith) d

  whole :
      (v : ℕ)
      → v < 2 ^ 32
      → u32
          ((v / 2 ^ 24 % 256 * 256 + v / 2 ^ 16 % 256) * 2 ^ 16 + (v / 2 ^ 8 % 256 * 256 + v % 256))
        ≡ v
  whole v h = omega arith

  parse_ipv6_addr-printed :
      (a b c d : ℕ) (rest : Line)
      → a < 2 ^ 32
      → b < 2 ^ 32
      → c < 2 ^ 32
      → d < 2 ^ 32
      → parse_ipv6_addr strtoul strtok
          (print_quad dec hex byte a (
            colon
            ∷ print_quad dec hex byte b (
                colon
                ∷ print_quad dec hex byte c (colon ∷ print_quad dec hex byte d (slash ∷ rest)))))
          slash
        ≡ some ((a, b, c, d), rest)
  unfolding parse_ipv6_addr
  parse_ipv6_addr-printed a b c d rest ha hb hc hd =
      rw
        (
          parse_ipv6_addr,
          high a colon _ (inl refl),
          low a colon _ (inl refl),
          high b colon _ (inl refl),
          low b colon _ (inl refl),
          high c colon _ (inl refl),
          low c colon _ (inl refl),
          high d colon _ (inl refl),
          low d slash rest (inr refl),
          whole a ha,
          whole b hb,
          whole c hc,
          whole d hd,
        )
        refl

  parse_ipv6_net-print_net6 :
      (m : ℕ) (fs : List Field)
      → IsPrefix m fs
      → parse_ipv6_net strtoul strtok (print_net6 dec hex byte fs) ≡ some fs
  unfolding parse_ipv6_net print_net6
  parse_ipv6_net-print_net6 m (a ∷ b ∷ c ∷ d ∷ []) (h, (av, am), (bv, bm), (cv, cm), (dv, dm)) =
      let sum : u32 (a.mask_range + b.mask_range + c.mask_range + d.mask_range) ≡ m =
        omega (arith, am, bm, cm, dm, (mask_range-whole m h).0) in
      rw
        (
          parse_ipv6_net,
          parse_ipv6_addr-printed a.value b.value c.value d.value _ av bv cv dv,
          sum,
          dec_last strtoul strtok dec hex K m 128 h (omega arith),
        )
        (cc (am, bm, cm, dm))
  parse_ipv6_net-print_net6 m [] h = absurd h
  parse_ipv6_net-print_net6 m (a ∷ []) h = absurd h
  parse_ipv6_net-print_net6 m (a ∷ b ∷ []) h = absurd h
  parse_ipv6_net-print_net6 m (a ∷ b ∷ c ∷ []) h = absurd h
  parse_ipv6_net-print_net6 m (a ∷ b ∷ c ∷ d ∷ e ∷ fs) h = absurd h

  byte_then-IsWord : (a : ℕ) (v : Line) → IsWord v → IsWord (byte a ++ v)
  byte_then-IsWord a v h = words_append (byte a) v (B.byte-IsWord a) h

  quad-IsWord :
      (v dlm : ℕ) (rest : Line)
      → (dlm ≢ 32) × (dlm ≢ 9) × (dlm ≢ 10)
      → IsWord rest
      → IsWord (print_quad dec hex byte v (dlm ∷ rest))
  quad-IsWord v dlm rest d h = byte_then-IsWord _ _ (
      append-IsWord strtoul strtok dec hex K (byte (v / 2 ^ 16 % 256)) colon _ (B.byte-IsWord _)
        (ground arith)
        (byte_then-IsWord _ _
          (append-IsWord strtoul strtok dec hex K (byte (v % 256)) dlm rest (B.byte-IsWord _) d h)))

  print_net6-IsWord :
      (m : ℕ) (fs : List Field) → IsPrefix m fs → IsWord (print_net6 dec hex byte fs)
  unfolding print_net6
  print_net6-IsWord m (a ∷ b ∷ c ∷ d ∷ []) h = quad-IsWord a.value colon _ (ground arith) (
      quad-IsWord b.value colon _ (ground arith) (
        quad-IsWord c.value colon _ (ground arith) (
          quad-IsWord d.value slash _ (ground arith)
            (alone-IsWord strtoul strtok dec hex K _ (K.dec-IsWord _)))))
  print_net6-IsWord m [] h = absurd h
  print_net6-IsWord m (a ∷ []) h = absurd h
  print_net6-IsWord m (a ∷ b ∷ []) h = absurd h
  print_net6-IsWord m (a ∷ b ∷ c ∷ []) h = absurd h
  print_net6-IsWord m (a ∷ b ∷ c ∷ d ∷ e ∷ fs) h = absurd h

  print_words6-IsWord :
      (s d : ℕ) (f : Ipv6Fields) → IsPrinted s d f → All IsWord (print_words6 dec hex byte f)
  print_words6-IsWord s d f h = (
    print_net6-IsWord s f.src h.src,
    (
      print_net6-IsWord d f.dst h.dst,
      print_ports-IsWord strtoul strtok dec hex K f.srcp f.dstp f.proto,
    ),
  )

  parse-print_one_ipv6_rule :
      (s d : ℕ) (f : Ipv6Fields)
      → IsPrinted s d f
      → parse_cb_ipv6_rule strtoul strtok (print_one_ipv6_rule dec hex byte f) false
        ≡ some (record { fields = f; userdata = 0; priority = 0; category_mask = 0 })
  unfolding parse_cb_ipv6_rule print_one_ipv6_rule split_line parse_userdata
  parse-print_one_ipv6_rule s d f h =
      let ranges : are_ranges f.srcp f.dstp ≡ true = ground (arith, h.srcp, h.dstp) in
      rw
        (
          parse_cb_ipv6_rule,
          K.strtok_spaced (print_words6 dec hex byte f) (print_words6-IsWord s d f h),
          parse_ipv6_net-print_net6 s f.src h.src,
          parse_ipv6_net-print_net6 d f.dst h.dst,
          parse_ports-printed strtoul strtok dec hex K f.srcp (omega (arith, h.srcp)) h.srcp.1,
          parse_ports-printed strtoul strtok dec hex K f.dstp (omega (arith, h.dstp)) h.dstp.1,
          ranges,
          parse_proto-printed strtoul strtok dec hex K f.proto h.proto.0 h.proto.1,
        )
        refl

  -- If `printf` writes numbers and bytes that `strtoul` reads back, the line that is printed for an
  -- IPv4 entry with fields in their bounds, and the one for an IPv6 entry with fields in their
  -- bounds whose masks are those of two prefixes, are parsed, as ACL entries, into the same fields.
  pub printed_rules_are_read :
      (f4 : Ipv4Fields) (s d : ℕ) (f6 : Ipv6Fields)
      → IsSane4 f4
      → IsPrinted s d f6
      → (parse_cb_ipv4vlan_rule strtoul strtok (print_one_ipv4_rule dec hex f4) false
          ≡ some (record { fields = f4; userdata = 0; priority = 0; category_mask = 0 }))
        × (parse_cb_ipv6_rule strtoul strtok (print_one_ipv6_rule dec hex byte f6) false
            ≡ some (record { fields = f6; userdata = 0; priority = 0; category_mask = 0 }))
  printed_rules_are_read f4 s d f6 h4 h6 = (
    parse-print_one_ipv4_rule strtoul strtok dec hex K f4 h4,
    parse-print_one_ipv6_rule s d f6 h6,
  )
